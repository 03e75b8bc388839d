-- ===== src/Middleware/Laws.antt =====
-- What gets past the middleware, and with which headers (apps/console/middleware.ts).
use vodoge_cloud.Prelude.{
  ◌≡◌, refl, sym, ap, ◌∙◌, ◌≢◌, ◌⊎◌, true, Option, none, some, List, [], ◌∷◌, arith, Bool-cases,
  or_else, Option-cases, not, ◌&&◌, inl, inr,
}
use vodoge_cloud.Text.{Text, trim, split_first}
use vodoge_cloud.Host.{
  Headers, HostClassification, apex, tenant, unknown, TenantRouteDecision, decide_tenant_route,
  forwarded_client_address,
}
use vodoge_cloud.Host.Routing.{decide_tenant_route_iff}
use vodoge_cloud.Session.{is_public_path, login_redirect, gateway_auth_header}
use vodoge_cloud.Tenant.{Tenant, Cache, Lookup, threw, found, resolve}
use vodoge_cloud.Tenant.Laws.{IsKeyed, resolve-slug}
use vodoge_cloud.Middleware.{
  Environment, Request, Answer, next, put, put_some, signed_in, region_name, forwarded_headers,
  admit, answer, classify_request, middleware, route, to_redirect,
}

-- Whatever address the caller claims in the internal header, what goes on is the address that the
-- proxies attest, or no address; the tenant headers are the tenant's, and the authorization is the
-- session's where the path is the gateway's, and the caller's own elsewhere.
pub record IsForwarded (request : Request) (t : Tenant) (out : Headers) : Type 0 where
  pub client : out "x-vodoge-client-address" ≡ forwarded_client_address request.headers
  pub tenant_id : out "x-vodoge-tenant-id" ≡ some t.tenant_id
  pub slug : out "x-vodoge-slug" ≡ some t.slug
  pub region : out "x-vodoge-region" ≡ some (region_name t.region)
  pub status : out "x-vodoge-status" ≡ some t.status
  pub authorization :
      out "authorization"
      ≡ or_else
          (gateway_auth_header request.pathname request.session)
          (request.headers "authorization")

put_some-client :
    (v : Option Text) (h : Headers)
    → put_some "x-vodoge-client-address" v
        (put "x-vodoge-client-address" none h)
        "x-vodoge-client-address"
      ≡ v
put_some-client none h = refl
put_some-client (some a) h = refl

put_some-other_client :
    (v : Option Text) (h : Headers)
    → put_some "authorization" v h "x-vodoge-client-address" ≡ h "x-vodoge-client-address"
put_some-other_client none h = refl
put_some-other_client (some a) h = refl

put_some-authorization :
    (v w : Option Text) (h : Headers)
    → put_some "authorization" v
        (put_some "x-vodoge-client-address" w (put "x-vodoge-client-address" none h))
        "authorization"
      ≡ or_else v (h "authorization")
put_some-authorization none none h = refl
put_some-authorization none (some a) h = refl
put_some-authorization (some a) w h = refl

pub forwarded_headers-IsForwarded :
    (request : Request) (t : Tenant) → IsForwarded request t (forwarded_headers request t)
unfolding forwarded_headers
forwarded_headers-IsForwarded request t =
    let client = forwarded_client_address request.headers in
    let bearer = gateway_auth_header request.pathname request.session in
    record {
      client =
          put_some-other_client bearer (
            put_some "x-vodoge-client-address" client
              (put "x-vodoge-client-address" none request.headers))
          ∙ put_some-client client request.headers;
      tenant_id = refl;
      slug = refl;
      region = refl;
      status = refl;
      authorization = put_some-authorization bearer client request.headers;
    }

to_redirect-ne-next : (target : Text) (out : Headers) → to_redirect target ≢ next out
unfolding to_redirect
to_redirect-ne-next target out e = elim (others-cases (split_first b'?' target).1) [
  | inl empty ↦ absurd (ground arith)
  | inr (q, qs, full) ↦ absurd (ground arith)
]
  where
    others-cases : (l : List Text) → (l ≡ []) ⊎ ((q : Text) × (qs : List Text) × (l ≡ q ∷ qs))
    others-cases [] = inl refl
    others-cases (q ∷ qs) = inr (q, qs, refl)

-- The request's tenant is the one that its host names, and it is on a public path or carries a
-- session cookie that is not empty.
pub record IsLetThrough (lower : Text → Text) (c : HostClassification) (request : Request)
    (out : Headers) : Type 0 where
  pub host : Text
  pub slug : Text
  pub owner : Tenant
  pub named : c ≡ tenant host slug
  pub same_slug : owner.slug ≡ slug
  pub folded : owner.slug ≡ lower (trim slug)
  pub allowed : (is_public_path request.pathname ≡ true) ⊎ (signed_in request.session ≡ true)
  pub forwarded : IsForwarded request owner out

admit-next :
    (c : HostClassification) (request : Request) (u : Tenant) (out : Headers)
    → admit c request (some u) ≡ next out
    → (decide_tenant_route c (some u.slug) ≡ TenantRouteDecision.tenant)
      × ((is_public_path request.pathname ≡ true) ⊎ (signed_in request.session ≡ true))
      × (forwarded_headers request u ≡ out)
unfolding admit
admit-next c request u out e =
    elim (Bool-cases (not (is_public_path request.pathname) && not (signed_in request.session))) [
      | inl stopped ↦ elim (Option-cases (login_redirect request.pathname)) [
        | inl throws ↦ absurd (ground arith)
        | inr (target, got) ↦ absurd (ground (arith, to_redirect-ne-next target out))
      ]
      | inr free ↦ (ground arith, ground arith, next-injective (ground arith))
    ]
  where
    headers_of : Answer → Headers
    headers_of (next h) = h
    headers_of _ = request.headers

    next-injective : {h k : Headers} → next h ≡ next k → h ≡ k
    next-injective q = ap headers_of q

admit-none :
    (c : HostClassification) (request : Request) (out : Headers) → admit c request none ≢ next out
unfolding admit
admit-none c request out e = absurd (ground arith)

admit_complete :
    (c : HostClassification) (request : Request) (u : Tenant)
    → decide_tenant_route c (some u.slug) ≡ TenantRouteDecision.tenant
    → (is_public_path request.pathname ≡ true) ⊎ (signed_in request.session ≡ true)
    → admit c request (some u) ≡ next (forwarded_headers request u)
unfolding admit
admit_complete c request u d a = ground arith

module _ (lower : Text → Text) (lookup : Text → Lookup) where
  route-next :
      (cache : Cache) (request : Request) (c : HostClassification) (out : Headers)
      → IsKeyed cache
      → (route lower lookup cache request c).1 ≡ next out
      → IsLetThrough lower c request out
  unfolding route
  route-next cache request (apex host) out keyed e = absurd (ground arith)
  route-next cache request (unknown host) out keyed e = absurd (ground arith)
  route-next cache request (tenant host slug) out keyed e =
      let (t, found_t) = found_by (resolve lower lookup cache slug).1 e in
      let (decided, allowed, same) =
        admit-next (tenant host slug) request t out
          (sym (ap (λ r. answer (tenant host slug) request r) found_t) ∙ e) in
      let (h, s, named, known) = (decide_tenant_route_iff _ _).0 decided in
      record {
        host = host;
        slug = slug;
        owner = t;
        named = refl;
        same_slug = cc;
        folded = (resolve-slug lower lookup cache slug t keyed found_t).0;
        allowed = allowed;
        forwarded = rw (← same) (forwarded_headers-IsForwarded request t);
      }
    where
      found_by :
          (r : Lookup)
          → answer (tenant host slug) request r ≡ next out
          → (t : Tenant) × (r ≡ found (some t))
      found_by threw q = absurd (ground arith)
      found_by (found none) q = absurd (admit-none (tenant host slug) request out q)
      found_by (found (some t)) q = (t, refl)

-- What is let through: a request goes on only to the tenant that its host names, whose slug is the
-- host's label, as it stands and trimmed and in lower case, and only on a public path or with a
-- session cookie that is not empty. The client address that goes on is the one the proxies attest,
-- never the caller's own; the tenant headers are the tenant's; the authorization is the session's
-- where the path is the gateway's. The cache is one whose entries stand under their own slugs.
pub middleware-next :
    (lower : Text → Text) (lookup : Text → Lookup) (env : Environment) (cache : Cache)
    (request : Request) (out : Headers)
    → IsKeyed cache
    → (middleware lower lookup env cache request).1 ≡ next out
    → IsLetThrough lower (classify_request lower env request) request out
unfolding middleware
middleware-next lower lookup env cache request out keyed e =
    route-next lower lookup cache request (classify_request lower env request) out keyed e

-- The other way round, nobody who may pass is held up: a request on a tenant's host goes on when the
-- directory finds the tenant of that very slug, on a public path or with a session cookie that is
-- not empty.
pub middleware_passes :
    (lower : Text → Text) (lookup : Text → Lookup) (env : Environment) (cache : Cache)
    (request : Request) (host slug : Text) (t : Tenant)
    → classify_request lower env request ≡ tenant host slug
    → (resolve lower lookup cache slug).1 ≡ found (some t)
    → t.slug ≡ slug
    → (is_public_path request.pathname ≡ true) ⊎ (signed_in request.session ≡ true)
    → (middleware lower lookup env cache request).1 ≡ next (forwarded_headers request t)
unfolding middleware route
middleware_passes lower lookup env cache request host slug t c f s a =
    let decided =
      (decide_tenant_route_iff (tenant host slug) (some t.slug)).1
        (host, slug, refl, ap (λ u. some u) s) in
    rw (c, route)
      (ap (λ r. answer (tenant host slug) request r) f
        ∙ admit_complete (tenant host slug) request t decided a)
