-- ===== src/Tenant.antt =====
-- apps/console/lib/tenant.ts: the tenant record, its cache, the directory in front of the gateway,
-- and the gateway lookup.
pub mod Laws
use vodoge_cloud.Prelude.{
  ℕ, ◌+◌, String, Bool, true, false, ◌&&◌, ◌||◌, not, Option, none, some, List, [], ◌∷◌, ◌++◌, ◌==◌,
  leb, if◌then◌else◌, or_default, reverse, ◌>>=◌,
}
use mathlib.Core.Option
use vodoge_cloud.Text.{Text, units, text_eq, is_empty, trim}
use vodoge_cloud.Json.{Json, Props, field, as_record, as_string}
use vodoge_cloud.Assoc.{Assoc, get, set}
use vodoge_cloud.Session.{encode_uri_component}

pub data TenantRegion : Type 0 where
  cn intl : TenantRegion

pub record Tenant : Type 0 where
  pub tenant_id : Text
  pub slug : Text
  pub region : TenantRegion
  pub status : Text

-- `isTenantRegion`, with the region that the text names.
unfoldable pub tenant_region : Text → Option TenantRegion
unfolding units
tenant_region value =
    if text_eq value (units "cn")
    then some cn
    else if text_eq value (units "intl")
    then some intl
    else none

-- `typeof x !== "string" || x.length === 0` refuses what `as_string` refuses.
unfoldable pub parse_tenant : (Text → Text) → Json → Option Tenant
parse_tenant lower body = do
  row ← as_record (some body)
  tenant_id ← as_string (field "tenant_id" row)
  slug ← as_string (field "slug" row)
  region_name ← as_string (field "region" row)
  region ← tenant_region region_name
  status ← as_string (field "status" row)
  some (record { tenant_id = tenant_id; slug = lower slug; region = region; status = status })

-- `TenantCache`
abbrev pub Cache : Type 0
Cache = Assoc Tenant

abbrev pub same_region : TenantRegion → TenantRegion → Bool
same_region cn cn = true
same_region intl intl = true
same_region _ _ = false

-- `store`, with the flag that it returns.
unfoldable pub store : Tenant → Cache → Cache × Bool
store tenant cache = elim (get tenant.slug cache) [
  | some existing ↦
      if same_region existing.region tenant.region
      then (set tenant.slug tenant cache, true)
      else (cache, false)
  | none ↦ (set tenant.slug tenant cache, true)
]

-- What a lookup promise settles to: `threw` is a rejection.
pub data Lookup : Type 0 where
  threw : Lookup
  found : Option Tenant → Lookup

-- `resolve` up to its `await`: an answer, or the key that is looked up.
pub data Begun : Type 0 where
  answered : Option Tenant → Begun
  awaiting : Text → Begun

unfoldable pub resolve_begin : (Text → Text) → Cache → Text → Begun
resolve_begin lower cache slug =
    let key = lower (trim slug) in
    if is_empty key
    then answered none
    else elim (get key cache) [ some cached ↦ answered (some cached) | none ↦ awaiting key ]

-- `resolve` behind its `await`, on the cache as it is by then.
unfoldable pub resolve_end : Cache → Text → Lookup → Cache × Lookup
resolve_end cache key threw = (cache, threw)
resolve_end cache key (found none) = (cache, found none)
resolve_end cache key (found (some tenant)) =
    let cache' = (store tenant cache).0 in
    if not (text_eq tenant.slug key)
    then (cache, found none)
    else (cache', found (elim (get key cache') [ some kept ↦ some kept | none ↦ some tenant ]))

-- `resolve` where nothing else runs during the `await`.
unfoldable pub resolve : (Text → Text) → (Text → Lookup) → Cache → Text → Cache × Lookup
resolve lower lookup cache slug = elim (resolve_begin lower cache slug) [
  | answered tenant ↦ (cache, found tenant)
  | awaiting key ↦ resolve_end cache key (lookup key)
]

-- What `fetch` settles to: the response's status, and its body where it is JSON.
pub data Reply : Type 0 where
  unreachable : Reply
  response : ℕ → Option Json → Reply

abbrev pub is_ok : ℕ → Bool
is_ok status = leb 200 status && leb status 299

unfoldable pub strip_slashes : Text → Text
strip_slashes [] = []
strip_slashes (c ∷ s) = if c == b'/' then strip_slashes s else c ∷ s

-- `baseUrl.replace(/\/+$/, "")`
unfoldable pub trim_slashes : Text → Text
unfolding strip_slashes
trim_slashes s = reverse (strip_slashes (reverse s))

unfoldable pub tenants_path : Text
unfolding units
tenants_path = units "/v1/tenants/"

abbrev pub found_or_threw : Option Tenant → Lookup
found_or_threw none = threw
found_or_threw (some t) = found (some t)

unfoldable pub read_reply : (Text → Text) → Reply → Lookup
read_reply lower unreachable = threw
read_reply lower (response status body) =
    let parsed = body >>= parse_tenant lower in
    if status == 404
    then found none
    else if not (is_ok status)
    then threw
    else found_or_threw parsed

-- `createGatewayLookup`: `fetch_impl` is given the URL.
unfoldable pub gateway_lookup : (Text → Text) → (Text → Reply) → Text → Text → Lookup
gateway_lookup lower fetch_impl base_url slug = elim (encode_uri_component slug) [
  | none ↦ threw
  | some encoded ↦
      read_reply lower (fetch_impl (trim_slashes base_url ++ (tenants_path ++ encoded)))
]
