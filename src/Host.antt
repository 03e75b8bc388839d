-- ===== src/Host.antt =====
-- apps/console/lib/host.ts: from the request's headers to the tenant label of its host, and the
-- address of the caller. `toLowerCase` reads the Unicode tables of the JavaScript engine, so it is
-- the parameter `lower` of what calls it.
pub mod Laws
pub mod Routing
pub mod Client
use vodoge_cloud.Prelude.{
  ℕ, ◌-◌, String, Bool, true, false, ◌&&◌, ◌||◌, Option, none, some, List, [], ◌∷◌, ◌++◌, ◌==◌,
  if◌then◌else◌, take, length, not, or_else, or_default,
}
use vodoge_cloud.Text.{
  Text, units, text_eq, is_empty, trim, ends_with, has_unit, before_first, cut_last, split_first,
  last_or, is_number,
}
use mathlib.Core.Option

unfoldable pub default_base_domain : Text
unfolding units
default_base_domain = units "vodoge.com"

-- `headers.get(name)`.
abbrev pub Headers : Type 0
Headers = String → Option Text

-- the colon branch of `stripPort`
unfoldable pub strip_colon : Text → Text
strip_colon s = elim (cut_last b':' s) [
  | none ↦ s
  | some (host, port) ↦ if not (is_empty host) && is_number port then host else s
]

-- `stripPort` behind its `trim`
unfoldable pub strip_trimmed : Text → Text
unfolding strip_colon
strip_trimmed [] = strip_colon []
strip_trimmed (c ∷ s) = elim (c == b'[') [
  | true ↦ elim (before_first b']' s) [ some h ↦ h | none ↦ strip_colon (c ∷ s) ]
  | false ↦ strip_colon (c ∷ s)
]

unfoldable pub strip_port : Text → Text
unfolding strip_trimmed
strip_port host = strip_trimmed (trim host)

unfoldable pub trusts_forwarded_host : Option Text → Bool
trusts_forwarded_host value = text_eq (trim (or_default value [])) (b'1' ∷ [])

unfoldable pub request_host : Headers → Bool → Text
request_host headers trust_forwarded =
    let direct = trim (or_default (or_else (headers "host") (headers "Host")) []) in
    let forwarded =
      or_default (or_else (headers "x-forwarded-host") (headers "X-Forwarded-Host")) [] in
    if trust_forwarded && not (is_empty forwarded)
    then trim (split_first b',' forwarded).0
    else direct

pub data HostClassification : Type 0 where
  apex : (host : Text) → HostClassification
  tenant : (host slug : Text) → HostClassification
  unknown : (host : Text) → HostClassification

pub data TenantRouteDecision : Type 0 where
  apex not_found tenant : TenantRouteDecision

-- `www.${base}`
abbrev pub www : Text → Text
www base = b'w' ∷ b'w' ∷ b'w' ∷ b'.' ∷ base

-- The tests of `slugFromHost` behind its two normalisations.
unfoldable pub slug_under : (normalized base : Text) → Option Text
slug_under normalized base =
    let slug = take (length normalized - length (b'.' ∷ base)) normalized in
    if is_empty normalized
    then none
    else if text_eq normalized base || text_eq normalized (www base)
    then none
    else if not (ends_with normalized (b'.' ∷ base))
    then none
    else if is_empty slug || has_unit b'.' slug
    then none
    else some slug

module _ (lower : Text → Text) where
  unfoldable pub normalize_base_domain : Option Text → Text
  normalize_base_domain base_domain =
      let base = lower (trim (or_default base_domain [])) in
      if is_empty base then default_base_domain else base

  -- The `ok` flag of the source is the constructor.
  unfoldable pub slug_from_host : (host base_domain : Text) → Option Text
  unfolding slug_under
  slug_from_host host base_domain =
      slug_under (lower (strip_port host)) (normalize_base_domain (some base_domain))

  unfoldable pub classify_host : (host base_domain : Text) → HostClassification
  classify_host host base_domain =
      let normalized = lower (strip_port host) in
      let base = normalize_base_domain (some base_domain) in
      if is_empty normalized
      then unknown normalized
      else if text_eq normalized base || text_eq normalized (www base)
      then apex normalized
      else elim (slug_from_host normalized base) [
        | none ↦ unknown normalized
        | some slug ↦ tenant normalized slug
      ]

-- `tenant` of the source is an object with a slug, or null.
unfoldable pub decide_tenant_route : HostClassification → Option Text → TenantRouteDecision
decide_tenant_route (apex host) found = TenantRouteDecision.apex
decide_tenant_route (unknown host) found = not_found
decide_tenant_route (tenant host slug) none = not_found
decide_tenant_route (tenant host slug) (some found) =
    if text_eq found slug then TenantRouteDecision.tenant else not_found

unfoldable pub normalise_address : Option Text → Option Text
normalise_address value =
    let trimmed = trim (or_default value []) in
    let stripped = strip_port trimmed in
    if is_empty trimmed then none else if is_empty stripped then none else some stripped

-- `value.split(",").pop()`
unfoldable pub last_part : Text → Text
last_part chain = let (first, others) = split_first b',' chain in last_or first others

unfoldable pub forwarded_client_address : Headers → Option Text
forwarded_client_address headers = elim (normalise_address (headers "cf-connecting-ip")) [
  | some direct ↦ some direct
  | none ↦ elim (headers "x-forwarded-for") [
    | none ↦ none
    | some chain ↦ if is_empty chain then none else normalise_address (some (last_part chain))
  ]
]
