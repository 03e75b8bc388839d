-- ===== src/Tests/Gate.antt =====
-- Hosts, sessions, tenants and the middleware on concrete inputs. The folding of case is that of ASCII.
use vodoge_cloud.Prelude.{
  ℕ, ◌+◌, ◌≡◌, refl, ◌↔◌, ◌⊎◌, true, false, ◌&&◌, none, some, [], ◌∷◌, ◌++◌, map, arith, leb,
  if◌then◌else◌, All,
}
use text.Mathlib.Text.{◌==◌ as str_eq}
use vodoge_cloud.Text.{
  Text, units, trim, has_unit, cut_last, is_number, text_eq, ends_with, starts_with, before_first,
  split_first, last_or,
}
use vodoge_cloud.Host.{
  Headers, tenant, slug_from_host, strip_port, normalize_base_domain, classify_host,
  decide_tenant_route, request_host, forwarded_client_address, normalise_address,
  default_base_domain, trusts_forwarded_host, last_part,
}
use vodoge_cloud.Host.Laws.{IsLabel, slug_from_host_iff}
use vodoge_cloud.Host.Routing.{classify_host-label}
use vodoge_cloud.Host.Client.{forwarded_client_address-appended}
use vodoge_cloud.Session.{
  public_paths, is_public_path, bearer, gateway_prefix, gateway_auth_header, bearer_header,
  is_site_path, safe_next, login_redirect, login_path, login_query, encode_uri_component,
  code_points, encode_points, is_unreserved, percent_all, utf8, hex_digit,
}
use vodoge_cloud.Session.Laws.{safe_next_iff, IsOneSlash}
use vodoge_cloud.Session.Encoding.{IsEncoded, login_redirect-target}
use vodoge_cloud.Assoc.{get, set}
use vodoge_cloud.Tenant.{Tenant, intl, Lookup, found, resolve_begin, resolve_end, resolve, store}
use vodoge_cloud.Tenant.Laws.{IsKeyed, Keeps, here, next as step, Steps-Keeps, resolve-slug}
use vodoge_cloud.Middleware.{
  Environment, Request, redirect, middleware, classify_request, route, admit, forwarded_headers,
  to_redirect,
}
use vodoge_cloud.Middleware.Laws.{IsLetThrough, middleware-next}

ascii_unit : ℕ → ℕ
ascii_unit c = if leb 65 c && leb c 90 then c + 32 else c

ascii : Text → Text
unfolding ascii_unit
ascii s = map ascii_unit s

hosts : Unit {0}
unfolding classify_host slug_from_host normalize_base_domain strip_port ascii units trim cut_last
    is_number text_eq ends_with before_first decide_tenant_route request_host
    forwarded_client_address normalise_address split_first last_or default_base_domain
    trusts_forwarded_host last_part
hosts = tt

sessions : Unit {0}
unfolding hosts public_paths is_public_path bearer gateway_prefix gateway_auth_header bearer_header
    is_site_path safe_next login_redirect login_path login_query encode_uri_component code_points
    encode_points is_unreserved starts_with percent_all utf8 hex_digit
sessions = tt

gate : Unit {0}
unfolding sessions get set resolve_begin resolve_end resolve store middleware classify_request route
    admit to_redirect
gate = tt

abbrev base : Text
base = b'v' ∷ b'.' ∷ b'c' ∷ []

abbrev label : Text
label = b'a' ∷ []

classify_upper : classify_host ascii (units " A.V.c:443 ") base ≡ tenant (units "a.v.c") (units "a")
unfolding hosts
classify_upper = refl

-- A second port is cut off by the second call of `stripPort`, and stays in the classified host.
classify_two_ports :
    classify_host ascii (units "a.v.c:80:90") base ≡ tenant (units "a.v.c:80") (units "a")
unfolding hosts
classify_two_ports = refl

strip_ipv6 : strip_port (units "[::1]:8080") ≡ units "::1"
unfolding hosts
strip_ipv6 = refl

spoofed_chain :
    forwarded_client_address
      (λ k. if str_eq k "x-forwarded-for" then some (units "6.6.6.6, 9.9.9.9:1") else none)
    ≡ some (units "9.9.9.9")
unfolding hosts
spoofed_chain = refl

redirect_query :
    login_redirect (units "/devices/a b") ≡ some (units "/login?next=%2Fdevices%2Fa%20b")
unfolding sessions
redirect_query = refl

label-IsLabel : IsLabel label
label-IsLabel = record { nonempty = refl; single = refl; not_www = λ e. cc }

slug_from_host_iff_example : (slug_from_host ascii (units "A.v.c:1") base ≡ some label) ↔ (
    (ascii (strip_port (units "A.v.c:1")) ≡ label ++ b'.' ∷ normalize_base_domain ascii (some base))
    × IsLabel label)
slug_from_host_iff_example = slug_from_host_iff ascii (units "A.v.c:1") base label

classify_host-label_example :
    classify_host ascii ((label ++ b'.' ∷ base) ++ b':' ∷ b'8' ∷ []) base
    ≡ tenant (label ++ b'.' ∷ base) label
unfolding hosts
classify_host-label_example =
    classify_host-label ascii base label (b'8' ∷ []) label-IsLabel
      (record { no_colon = refl; no_bracket = refl; nonempty = refl }) refl refl refl refl refl

abbrev forged : Headers
forged k =
    if str_eq k "host"
    then some (units "v.c")
    else if str_eq k "x-forwarded-host"
    then some (units "a.v.c")
    else none

abbrev honest : Headers
honest k = if str_eq k "host" then some (units "v.c") else none

abbrev chained : Headers
chained k = if str_eq k "x-forwarded-for" then some (label ++ b',' ∷ base) else none

forwarded_client_address-appended_example :
    forwarded_client_address chained ≡ normalise_address (some base)
unfolding hosts
forwarded_client_address-appended_example =
    forwarded_client_address-appended chained label base refl refl refl

abbrev front : Text
front = b'/' ∷ []

safe_next_iff_example : (safe_next (some (units "//evil")) ≡ front) ↔ (
    ((some (units "//evil") ≡ some front) × IsOneSlash front)
    ⊎ ((front ≡ front) × ((p : Text) → some (units "//evil") ≡ some p → ¬ IsOneSlash p)))
safe_next_iff_example = safe_next_iff (some (units "//evil")) front

abbrev inbox : Text
inbox = b'/' ∷ b'i' ∷ b'?' ∷ []

abbrev inbox_login : Text
inbox_login =
    b'/' ∷ b'l' ∷ b'o' ∷ b'g' ∷ b'i' ∷ b'n' ∷ b'?' ∷ b'n' ∷ b'e' ∷ b'x' ∷ b't' ∷ b'=' ∷ b'%' ∷ b'2'
    ∷ b'F' ∷ b'i' ∷ b'%' ∷ b'3' ∷ b'F' ∷ []

login_redirect-target_example :
    (inbox_login ≡ login_path)
    ⊎ ((e : Text) × (inbox_login ≡ login_path ++ (login_query ++ e))
        × (encode_uri_component inbox ≡ some e)
        × (is_site_path inbox ≡ true)
        × (is_public_path inbox ≡ false)
        × All IsEncoded e
        × (has_unit b'?' e ≡ false))
unfolding sessions
login_redirect-target_example = login_redirect-target inbox inbox_login (omega arith) refl

abbrev acme : Tenant
acme = record { tenant_id = base; slug = label; region = intl; status = base }

abbrev directory : Text → Lookup
directory key = found (some acme)

empty-IsKeyed : IsKeyed []
unfolding get
empty-IsKeyed k t e = cc

resolve-slug_example :
    (acme.slug ≡ ascii (trim (units " A"))) × IsKeyed (resolve ascii directory [] (units " A")).0
unfolding gate
resolve-slug_example = resolve-slug ascii directory [] (units " A") acme empty-IsKeyed refl

Steps-Keeps_example : Keeps [] (resolve_end [] label (found (some acme))).0
Steps-Keeps_example = Steps-Keeps (step here label (found (some acme)))

abbrev env : Environment
env = record { trust_forwarded_host = none; base_domain = some base }

abbrev call : Request
call = record {
  headers = λ k. if str_eq k "host" then some (label ++ b'.' ∷ base) else none;
  pathname = inbox;
  session = some label;
}

middleware-next_example :
    IsLetThrough ascii (classify_request ascii env call) call (forwarded_headers call acme)
unfolding gate
middleware-next_example =
    middleware-next ascii directory env [] call (forwarded_headers call acme) empty-IsKeyed refl

-- Without a session the same request is sent to the sign-in page.
signed_out :
    (middleware ascii directory env [] (record call { session = none })).1
    ≡ redirect (units "/login") (units "?next=%2Fi%3F")
unfolding gate
signed_out = refl
