-- ===== src/Host/Laws.antt =====
-- Which hosts name a tenant, and with what label (apps/console/lib/host.ts).
use vodoge_cloud.Prelude.{
  ℕ, ◌-◌, ◌≡◌, sym, ap, ◌∙◌, ◌≢◌, ◌↔◌, true, false, some, [], ◌∷◌, ◌++◌, arith, length, take,
  length-append, take-length-append,
}
use vodoge_cloud.Text.{Text, is_empty, ends_with, has_unit}
use vodoge_cloud.Text.Laws.{text_eq_iff, text_eq-false, ends_with-append, ends_with_sound}
use vodoge_cloud.Host.{www, slug_under, slug_from_host, normalize_base_domain, strip_port}

-- A label that a tenant can have: one part of a name, other than `www`.
pub record IsLabel (slug : Text) : Type 0 where
  pub nonempty : is_empty slug ≡ false
  pub single : has_unit b'.' slug ≡ false
  pub not_www : slug ≢ b'w' ∷ b'w' ∷ b'w' ∷ []

take_prefix : (s p : Text) → take (length (s ++ p) - length p) (s ++ p) ≡ s
take_prefix s p =
    let e : length (s ++ p) - length p ≡ length s = omega (arith, length-append s p) in
    rw e (take-length-append s p)

append-ne_right : (c : ℕ) (s p : Text) → (c ∷ s) ++ p ≢ p
append-ne_right c s p e = omega (arith, ap length e, length-append s p)

cancel_right : (s t p : Text) → s ++ p ≡ t ++ p → s ≡ t
cancel_right s t p e =
    sym (take_prefix s p) ∙ ap (λ u. take (length u - length p) u) e ∙ take_prefix t p

pub label-ne-base : (base slug : Text) → slug ++ b'.' ∷ base ≢ base
label-ne-base base slug e = omega (arith, ap length e, length-append slug (b'.' ∷ base))

pub label-ne-www : (base slug : Text) → IsLabel slug → slug ++ b'.' ∷ base ≢ www base
label-ne-www base slug l e = l.not_www (cancel_right slug (b'w' ∷ b'w' ∷ b'w' ∷ []) (b'.' ∷ base) e)

slug_under_complete :
    (base slug : Text) → IsLabel slug → slug_under (slug ++ b'.' ∷ base) base ≡ some slug
unfolding slug_under
slug_under_complete base [] l = cc l.nonempty
slug_under_complete base (c ∷ s) l =
    let suffix : Text = b'.' ∷ base in
    let a = text_eq-false ((c ∷ s) ++ suffix) base (label-ne-base base (c ∷ s)) in
    let b = text_eq-false ((c ∷ s) ++ suffix) (www base) (label-ne-www base (c ∷ s) l) in
    ground (arith, a, b, take_prefix (c ∷ s) suffix, ends_with-append (c ∷ s) suffix, l.single)

slug_under_sound :
    (n base slug : Text) → slug_under n base ≡ some slug → (n ≡ slug ++ b'.' ∷ base) × IsLabel slug
unfolding slug_under
slug_under_sound n base slug h =
    let ends : ends_with n (b'.' ∷ base) ≡ true = ground arith in
    let (r, e) = ends_with_sound n (b'.' ∷ base) ends in
    let cut : r ≡ slug =
      sym (take_prefix r (b'.' ∷ base))
      ∙ ap (λ u. take (length u - length (b'.' ∷ base)) u) (sym e)
      ∙ ground arith in
    let whole = e ∙ ap (λ u. u ++ b'.' ∷ base) cut in
    (
      whole,
      record {
        nonempty = ground arith;
        single = ground arith;
        not_www = λ w.
            let same = (text_eq_iff n (www base)).1 (whole ∙ ap (λ u. u ++ b'.' ∷ base) w) in
            ground arith;
      },
    )

module _ (lower : Text → Text) where
  -- `slugFromHost` answers a slug exactly when the host, without its port and in lower case, is
  -- that slug in front of the normalised base domain, and the slug is a single label, not empty
  -- and not `www`.
  pub slug_from_host_iff :
      (host base_domain slug : Text)
      → (slug_from_host lower host base_domain ≡ some slug) ↔ (
          (lower (strip_port host) ≡ slug ++ b'.' ∷ normalize_base_domain lower (some base_domain))
          × IsLabel slug)
  unfolding slug_from_host
  slug_from_host_iff host base_domain slug =
      let base = normalize_base_domain lower (some base_domain) in
      (
        slug_under_sound (lower (strip_port host)) base slug,
        λ h. rw (h.0) (slug_under_complete base slug h.1),
      )
