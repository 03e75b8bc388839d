-- ===== src/Tests/Entrance.antt =====
-- Signing in, the headers of a page and the list of modules on concrete inputs.
use vodoge_cloud.Prelude.{ℕ, ◌≡◌, refl, true, false, none, some, List, [], ◌∷◌, length, arith}
use vodoge_cloud.Prelude.Int.{ℤ, pos, negsuc, ◌-ℤ◌}
use vodoge_cloud.Text.{Text, units, text_eq, is_empty}
use vodoge_cloud.Json.{Json, null, str, prop, obj, end, field, lookup, cast_record, as_string}
use vodoge_cloud.Host.{Headers}
use vodoge_cloud.Tenant.{Tenant, cn, Reply, unreachable, response}
use vodoge_cloud.Session.{session_cookie, session_cookie_name}
use vodoge_cloud.Middleware.{Request, forwarded_headers}
use vodoge_cloud.Middleware.Laws.{forwarded_headers-IsForwarded}
use vodoge_cloud.TenantHeaders.{get_tenant_from_headers, get_tenant_from_headers-forwarded}
use vodoge_cloud.SignIn.{
  LoginRequest, LoginCall, login_call, login_body, login_reply, login_payload, login, signed_in,
  refused, unavailable,
}
use vodoge_cloud.SignIn.Granted.{IsGranted, login-IsGranted}
use vodoge_cloud.Esim.Reads.{insert, sort}
use vodoge_cloud.Catalog.Modem.{ModemRow}
use vodoge_cloud.TableQuery.{by}
use vodoge_cloud.TableQuery.Laws.{IsFair}
use vodoge_cloud.Fleet.{signal_order, comparisons, order_modems}
use vodoge_cloud.Fleet.Place.{IsPlaced, order_modems-IsPlaced}
use mathlib.Core.List.{Perm}

abbrev no_headers : Headers
no_headers name = none

abbrev credential : Json
unfolding units
credential =
    obj (prop (units "email") (str (units "a@b")) (prop (units "password") (str (units "x")) end))

abbrev posted : LoginRequest
posted = record { headers = no_headers; body = some credential; is_https = true }

abbrev grant : Json
unfolding units
grant =
    obj
      (prop (units "token") (str (units "t")) (prop (units "expires_at") (str (units "later")) end))

abbrev granting : LoginCall → Reply
granting call = response 200 (some grant)

abbrev date : Text → ℕ
date s = 7

entrance : Unit {0}
unfolding units text_eq field lookup cast_record as_string session_cookie session_cookie_name
    login_call login_body login_reply login_payload login
entrance = tt

granted : login granting date posted ≡ signed_in (session_cookie (units "t") 7 true)
unfolding entrance
granted = refl

wrong_password : login (λ call. response 401 none) date posted ≡ refused 401
unfolding entrance
wrong_password = refl

unreachable_gateway : login (λ call. unreachable) date posted ≡ unavailable
unfolding entrance
unreachable_gateway = refl

null_body : login granting date (record posted { body = some null }) ≡ unavailable
unfolding entrance
null_body = refl

login-IsGranted_example :
    (payload : Json) × (call : LoginCall) × (posted.body ≡ some payload)
    × (login_call posted.headers payload ≡ some call)
    × IsGranted date posted.is_https (granting call) (session_cookie (units "t") 7 true)
login-IsGranted_example =
    login-IsGranted granting date posted (session_cookie (units "t") 7 true) granted

abbrev acme : Tenant
unfolding units
acme = record { tenant_id = units "t1"; slug = units "acme"; region = cn; status = units "active" }

abbrev visit : Request
unfolding units
visit = record { headers = no_headers; pathname = units "/login"; session = none }

has_id : is_empty acme.tenant_id ≡ false
unfolding acme units
has_id = refl

has_slug : is_empty acme.slug ≡ false
unfolding acme units
has_slug = refl

has_status : is_empty acme.status ≡ false
unfolding acme units
has_status = refl

get_tenant_from_headers-forwarded_example :
    get_tenant_from_headers (forwarded_headers visit acme) ≡ some acme
get_tenant_from_headers-forwarded_example =
    get_tenant_from_headers-forwarded visit acme (forwarded_headers visit acme)
      (forwarded_headers-IsForwarded visit acme) has_id has_slug has_status

-- A collation by length.
abbrev by_length : Text → Text → ℤ
by_length s t = pos (length s) -ℤ pos (length t)

by_length-IsFair : IsFair by_length
unfolding ◌-ℤ◌
by_length-IsFair = record {
  behind = λ a b h. ground arith;
  ahead = λ a b h. ground arith;
  chain = λ a b c h k. ground arith;
}

abbrev unmeasured : ModemRow
unmeasured = record {
  id = [];
  device_id = [];
  imei = [];
  family = [];
  iccid = none;
  state = none;
  registration = none;
  signal_dbm = none;
  rsrp = none;
  rsrq = none;
  sinr = none;
  discovery = none;
  manageable = none;
  home_plmn = none;
  serving_plmn = none;
  sms_mo = none;
  sms_mt = none;
  carrier_profile = none;
  capability_origin = none;
  last_seen = none;
  firmware = none;
  msisdn = none;
  msisdn_pending = false;
  control_port = none;
  usb_device = none;
  apn_contexts = none;
  adoption_note = none;
  adopted_at = none;
  adopted_by = none;
  observed = false;
}

abbrev weak : ModemRow
weak = record unmeasured { signal_dbm = some (negsuc 99) }

abbrev strong : ModemRow
strong = record unmeasured { signal_dbm = some (negsuc 59) }

abbrev fleet : List ModemRow
fleet = unmeasured ∷ weak ∷ strong ∷ []

-- The strongest first, and the one that was not measured last.
strongest_first : order_modems by_length fleet (units "signal") ≡ strong ∷ weak ∷ unmeasured ∷ []
unfolding entrance order_modems comparisons by signal_order sort insert ◌-ℤ◌
strongest_first = refl

order_modems-IsPlaced_example :
    IsPlaced by_length (units "signal") (order_modems by_length fleet (units "signal"))
    × Perm (order_modems by_length fleet (units "signal")) fleet
order_modems-IsPlaced_example =
    order_modems-IsPlaced by_length by_length-IsFair fleet (units "signal")
