-- ===== src/TenantHeaders.antt =====
-- apps/console/lib/tenant-headers.ts: what a page reads of the headers that the middleware set. A value
-- that the platform would change on its way through a header is not modelled.
use vodoge_cloud.Prelude.{◌≡◌, refl, false, Option, none, some, ◌>>=◌, or_default, if◌then◌else◌}
use vodoge_cloud.Text.{Text, units, text_eq, is_empty}
use vodoge_cloud.Host.{Headers, request_host, trusts_forwarded_host}
use vodoge_cloud.Tenant.{Tenant, TenantRegion, cn, intl, tenant_region}
use vodoge_cloud.Middleware.{Environment, Request, region_name}
use vodoge_cloud.Middleware.Laws.{IsForwarded}

-- A header that is there and not empty.
abbrev pub filled : Option Text → Option Text
filled none = none
filled (some s) = if is_empty s then none else some s

abbrev pub tenant_from : Option Text → Option Text → Option Text → Option Text → Option Tenant
tenant_from (some tenant_id) (some slug) (some region) status = tenant_region region >>= λ region.
    some (record {
      tenant_id = tenant_id;
      slug = slug;
      region = region;
      status = or_default status (units "unknown");
    })
tenant_from _ _ _ _ = none

unfoldable pub get_tenant_from_headers : Headers → Option Tenant
get_tenant_from_headers headers =
    tenant_from (filled (headers "x-vodoge-tenant-id")) (filled (headers "x-vodoge-slug"))
      (filled (headers "x-vodoge-region")) (filled (headers "x-vodoge-status"))

-- `requestHost` of this file, which hands on to the one of lib/host.ts.
unfoldable pub page_host : Environment → Headers → Text
page_host env headers = request_host headers (trusts_forwarded_host env.trust_forwarded_host)

filled-some : (s : Text) → is_empty s ≡ false → filled (some s) ≡ some s
filled-some s h = rw (h) refl

tenant_region-region_name : (r : TenantRegion) → tenant_region (region_name r) ≡ some r
unfolding tenant_region region_name units text_eq
tenant_region-region_name cn = refl
tenant_region-region_name intl = refl

region_filled : (r : TenantRegion) → filled (some (region_name r)) ≡ some (region_name r)
unfolding region_name units
region_filled cn = refl
region_filled intl = refl

tenant_from-region_name :
    (t : Tenant)
    → tenant_from (some t.tenant_id) (some t.slug) (some (region_name t.region)) (some t.status)
      ≡ some t
tenant_from-region_name t = rw (tenant_region-region_name t.region) refl

-- A page behind the middleware reads the tenant that the request was let in for, where that tenant's
-- identifier, slug and status are not empty.
pub get_tenant_from_headers-forwarded :
    (request : Request) (t : Tenant) (out : Headers)
    → IsForwarded request t out
    → is_empty t.tenant_id ≡ false
    → is_empty t.slug ≡ false
    → is_empty t.status ≡ false
    → get_tenant_from_headers out ≡ some t
unfolding get_tenant_from_headers
get_tenant_from_headers-forwarded request t out f id slug status =
    rw
      (
        f.tenant_id,
        f.slug,
        f.region,
        f.status,
        filled-some t.tenant_id id,
        filled-some t.slug slug,
        region_filled t.region,
        filled-some t.status status,
      )
      (tenant_from-region_name t)
