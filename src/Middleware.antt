-- ===== src/Middleware.antt =====
-- apps/console/middleware.ts: the one gate in front of every page and every proxied call. The
-- request's URL is its pathname; what of the URL the answer copies unchanged is left out.
pub mod Laws
use vodoge_cloud.Prelude.{
  String, Bool, true, false, ◌&&◌, not, Option, none, some, List, [], ◌∷◌, ◌++◌, if◌then◌else◌,
  or_default,
}
use text.Mathlib.Text.{◌==◌ as str_eq}
use vodoge_cloud.Text.{Text, units, is_empty, trim, split_first}
use vodoge_cloud.Host.{
  Headers, HostClassification, apex, tenant, unknown, TenantRouteDecision, default_base_domain,
  trusts_forwarded_host, request_host, classify_host, decide_tenant_route, forwarded_client_address,
}
use vodoge_cloud.Session.{is_public_path, login_redirect, login_path, gateway_auth_header}
use vodoge_cloud.Tenant.{Tenant, TenantRegion, cn, intl, Cache, Lookup, threw, found, resolve}

-- `process.env`
pub record Environment : Type 0 where
  pub trust_forwarded_host : Option Text
  pub base_domain : Option Text

pub record Request : Type 0 where
  pub headers : Headers
  pub pathname : Text
  -- the cookie `SESSION_COOKIE`
  pub session : Option Text

pub data Answer : Type 0 where
  rewrite : (pathname : Text) → Answer
  redirect : (pathname search : Text) → Answer
  bad_gateway : Answer
  -- `NextResponse.next` with the headers that go on to the page or the gateway
  next : Headers → Answer
  -- the URIError of `encodeURIComponent`
  crashed : Answer

-- `headers.delete(name)` and `headers.set(name, value)`, on names in lower case.
abbrev pub put : String → Option Text → Headers → Headers
put name value headers k = if str_eq name k then value else headers k

-- `headers.set` where there is a value, and nothing where there is none.
abbrev pub put_some : String → Option Text → Headers → Headers
put_some name none headers = headers
put_some name (some v) headers = put name (some v) headers

unfoldable pub region_name : TenantRegion → Text
unfolding units
region_name cn = units "cn"
region_name intl = units "intl"

unfoldable pub not_a_tenant : Text
unfolding units
not_a_tenant = units "/not-a-tenant"

unfoldable pub unknown_tenant : Text
unfolding units
unknown_tenant = units "/unknown-tenant"

-- `const [path, query] = target.split("?")` and what is made of it
unfoldable pub to_redirect : Text → Answer
to_redirect target =
    let (path, others) = split_first b'?' target in
    elim others [
      | [] ↦ redirect path []
      | query ∷ more ↦ redirect path (if is_empty query then [] else b'?' ∷ query)
    ]

abbrev pub signed_in : Option Text → Bool
signed_in session = not (is_empty (or_default session []))

-- the headers that the request goes on with
unfoldable pub forwarded_headers : Request → Tenant → Headers
forwarded_headers request t =
    let cleaned = put "x-vodoge-client-address" none request.headers in
    let addressed =
      put_some "x-vodoge-client-address" (forwarded_client_address request.headers) cleaned in
    let authorized =
      put_some "authorization" (gateway_auth_header request.pathname request.session) addressed in
    let identified = put "x-vodoge-tenant-id" (some t.tenant_id) authorized in
    let named = put "x-vodoge-slug" (some t.slug) identified in
    let placed = put "x-vodoge-region" (some (region_name t.region)) named in
    let rated = put "x-vodoge-status" (some t.status) placed in
    put "x-vodoge-pathname" (some request.pathname) rated

-- the part behind the tenant's lookup
unfoldable pub admit : HostClassification → Request → Option Tenant → Answer
admit c request none = rewrite unknown_tenant
admit c request (some t) = elim (decide_tenant_route c (some t.slug)) [
  | TenantRouteDecision.tenant ↦
      if not (is_public_path request.pathname) && not (signed_in request.session)
      then elim (login_redirect request.pathname) [
        | none ↦ crashed
        | some target ↦ to_redirect target
      ]
      else next (forwarded_headers request t)
  | _ ↦ rewrite unknown_tenant
]

abbrev answer : HostClassification → Request → Lookup → Answer
answer c request threw = bad_gateway
answer c request (found t) = admit c request t

unfoldable pub classify_request : (Text → Text) → Environment → Request → HostClassification
classify_request lower env request =
    let host = request_host request.headers (trusts_forwarded_host env.trust_forwarded_host) in
    let configured = trim (or_default env.base_domain []) in
    classify_host lower host (if is_empty configured then default_base_domain else configured)

-- the answers by the kind of host
unfoldable pub route :
    (Text → Text) → (Text → Lookup) → Cache → Request → HostClassification → Cache × Answer
route lower lookup cache request (apex host) = (cache, rewrite not_a_tenant)
route lower lookup cache request (unknown host) = (cache, rewrite unknown_tenant)
route lower lookup cache request (tenant host slug) =
    let (cache', result) = resolve lower lookup cache slug in
    (cache', answer (tenant host slug) request result)

unfoldable pub middleware :
    (Text → Text) → (Text → Lookup) → Environment → Cache → Request → Cache × Answer
middleware lower lookup env cache request =
    route lower lookup cache request (classify_request lower env request)
