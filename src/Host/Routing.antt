-- ===== src/Host/Routing.antt =====
-- From a host to the decision whether its tenant is served (apps/console/lib/host.ts,
-- `classifyHost` and `decideTenantRoute`).
use vodoge_cloud.Prelude.{
  ◌≡◌, refl, ap, ◌∙◌, ◌≢◌, ◌↔◌, true, false, Option, none, some, [], ◌∷◌, ◌++◌, arith,
}
use vodoge_cloud.Text.{Text, text_eq, is_empty, trim, has_unit, is_number}
use vodoge_cloud.Text.Laws.{text_eq_iff, text_eq-false}
use vodoge_cloud.Text.Cutting.{cut_last-none, cut_last-append, is_number-no_colon}
use vodoge_cloud.Host.{
  HostClassification, apex, tenant, unknown, TenantRouteDecision, www, slug_from_host,
  classify_host, normalize_base_domain, strip_port, strip_trimmed, strip_colon, decide_tenant_route,
}
use vodoge_cloud.Host.Laws.{IsLabel, slug_from_host_iff, label-ne-base, label-ne-www}

-- A host name as it stands in a URL: no space around it, no colon in it and no bracket.
pub record IsHostName (h : Text) : Type 0 where
  pub no_colon : has_unit b':' h ≡ false
  pub no_bracket : has_unit b'[' h ≡ false
  pub nonempty : is_empty h ≡ false

strip_trimmed-no_bracket :
    (h s : Text)
    → has_unit b'[' h ≡ false
    → is_empty h ≡ false
    → strip_trimmed (h ++ s) ≡ strip_colon (h ++ s)
unfolding strip_trimmed
strip_trimmed-no_bracket [] s b e = cc
strip_trimmed-no_bracket (c ∷ h) s b e = ground arith

-- A port is cut off, and a host without a port stays.
pub strip_port-port :
    (h port : Text)
    → IsHostName h
    → is_number port ≡ true
    → trim (h ++ b':' ∷ port) ≡ h ++ b':' ∷ port
    → strip_port (h ++ b':' ∷ port) ≡ h
unfolding strip_port strip_colon
strip_port-port h port n p t =
    rw (t, strip_trimmed-no_bracket h (b':' ∷ port) n.no_bracket n.nonempty)
      (ground (arith, cut_last-append b':' h port (is_number-no_colon port p), n.nonempty))

pub strip_port-bare :
    (h : Text) → has_unit b'[' h ≡ false → has_unit b':' h ≡ false → trim h ≡ h → strip_port h ≡ h
unfolding strip_port strip_trimmed strip_colon
strip_port-bare [] b n t = rw t (ground (arith, cut_last-none b':' [] n))
strip_port-bare (c ∷ h) b n t = rw t (ground (arith, cut_last-none b':' (c ∷ h) n))

module _ (lower : Text → Text) where
  -- What a host must be to be classified as a tenant's.
  pub classify_host_sound :
      (host base h slug : Text)
      → classify_host lower host base ≡ tenant h slug
      → (h ≡ lower (strip_port host))
        × (h ≢ normalize_base_domain lower (some base))
        × (h ≢ www (normalize_base_domain lower (some base)))
        × (slug_from_host lower h (normalize_base_domain lower (some base)) ≡ some slug)
  unfolding classify_host
  classify_host_sound host base h slug e =
      let b = normalize_base_domain lower (some base) in
      let n = lower (strip_port host) in
      let same : n ≡ h = ground arith in
      (
        ground arith,
        λ q. ground (arith, (text_eq_iff n b).1 (same ∙ q)),
        λ q. ground (arith, (text_eq_iff n (www b)).1 (same ∙ q)),
        ground arith,
      )

decide_tenant_route_sound :
    (c : HostClassification) (found : Option Text)
    → decide_tenant_route c found ≡ TenantRouteDecision.tenant
    → (h : Text) × (slug : Text) × (c ≡ tenant h slug) × (found ≡ some slug)
unfolding decide_tenant_route
decide_tenant_route_sound (apex h) found e = cc
decide_tenant_route_sound (unknown h) found e = cc
decide_tenant_route_sound (tenant h slug) none e = cc
decide_tenant_route_sound (tenant h slug) (some t) e =
    let same : text_eq t slug ≡ true = ground arith in
    (h, slug, refl, ap (λ u. some u) ((text_eq_iff t slug).0 same))

-- A tenant is served exactly when the host is classified as a tenant's and the lookup gave a tenant
-- whose slug is the one in the host: never another tenant, and none for the apex or an unknown host.
pub decide_tenant_route_iff :
    (c : HostClassification) (found : Option Text)
    → (decide_tenant_route c found ≡ TenantRouteDecision.tenant)
      ↔ ((h : Text) × (slug : Text) × (c ≡ tenant h slug) × (found ≡ some slug))
unfolding decide_tenant_route
decide_tenant_route_iff c found = (
  decide_tenant_route_sound c found,
  λ (h, slug, e, f). rw (e, f) (ground (arith, (text_eq_iff slug slug).1 refl)),
)

module _ (lower : Text → Text) where
  -- A tenant's own address is recognised: a label, a dot and the base domain, behind a port, is
  -- classified as that label's tenant. The name and the base are in lower case already, the base is
  -- not blank, and neither the name nor the port holds a space.
  pub classify_host-label :
      (base slug port : Text)
      → IsLabel slug
      → IsHostName (slug ++ b'.' ∷ base)
      → lower (slug ++ b'.' ∷ base) ≡ slug ++ b'.' ∷ base
      → normalize_base_domain lower (some base) ≡ base
      → is_number port ≡ true
      → trim (slug ++ b'.' ∷ base) ≡ slug ++ b'.' ∷ base
      → trim ((slug ++ b'.' ∷ base) ++ b':' ∷ port) ≡ (slug ++ b'.' ∷ base) ++ b':' ∷ port
      → classify_host lower ((slug ++ b'.' ∷ base) ++ b':' ∷ port) base
        ≡ tenant (slug ++ b'.' ∷ base) slug
  unfolding classify_host
  classify_host-label base slug port l n low norm num t tp =
      let name : Text = slug ++ b'.' ∷ base in
      let stripped = strip_port-port name port n num tp in
      let bare = strip_port-bare name n.no_bracket n.no_colon t in
      let found : slug_from_host lower name base ≡ some slug =
        (slug_from_host_iff lower name base slug).1 (rw (bare, norm) low, l) in
      let not_base = text_eq-false name base (label-ne-base base slug) in
      let not_www = text_eq-false name (www base) (label-ne-www base slug l) in
      rw (stripped, low, norm) (ground (arith, found, not_base, not_www, n.nonempty))
