-- ===== src/SignIn.antt =====
-- apps/console/app/api/auth/login/route.ts and logout/route.ts: a credential for a session cookie, and
-- the end of a session. `gateway` is what the fetch of the gateway settles to.
--
-- A token or an expiry that is no text is not modelled. `date` is the instant that a text names.
pub mod Granted
use vodoge_cloud.Prelude.{
  ℕ, Bool, true, false, not, Option, none, some, ◌==◌, ◌>>=◌, or_default, if◌then◌else◌, [],
}
use vodoge_cloud.Text.{Text, units, is_empty}
use vodoge_cloud.Json.{Json, null, str, Props, field, cast_record, text_at}
use vodoge_cloud.Host.{Headers, forwarded_client_address}
use vodoge_cloud.Tenant.{Reply, unreachable, response, is_ok}
use vodoge_cloud.Session.{CookieAttributes, session_cookie, cleared_session_cookie, bearer_header}

pub record LoginRequest : Type 0 where
  pub headers : Headers
  -- `request.json()`, which throws where there is none
  pub body : Option Json
  pub is_https : Bool

-- What the gateway is asked.
pub record LoginCall : Type 0 where
  pub forwarded_host : Text
  pub client_address : Option Text
  pub email : Json
  pub password : Json

-- `value ?? ""`
abbrev pub or_blank : Option Json → Json
or_blank none = str []
or_blank (some null) = str []
or_blank (some v) = v

-- Reading a field of null throws, and is caught with the fetch.
unfoldable pub login_call : Headers → Json → Option LoginCall
login_call headers payload = cast_record payload >>= λ row. some (record {
  forwarded_host = or_default (headers "host") [];
  client_address = forwarded_client_address headers;
  email = or_blank (field "email" row);
  password = or_blank (field "password" row);
})

pub data LoginAnswer : Type 0 where
  invalid_request : LoginAnswer
  unavailable : LoginAnswer
  refused : (status : ℕ) → LoginAnswer
  -- an answer of the gateway that cannot be read, which is not caught
  crashed : LoginAnswer
  signed_in : CookieAttributes → LoginAnswer

abbrev pub cookie_of : (Text → ℕ) → Bool → Option Text → Option Text → LoginAnswer
cookie_of date is_https (some token) (some expires_at) =
    signed_in (session_cookie token (date expires_at) is_https)
cookie_of date is_https _ _ = unavailable

unfoldable pub login_body : (Text → ℕ) → Bool → Option Json → LoginAnswer
login_body date is_https none = crashed
login_body date is_https (some body) = elim (cast_record body) [
  | none ↦ crashed
  | some row ↦ cookie_of date is_https (text_at "token" row) (text_at "expires_at" row)
]

unfoldable pub login_reply : (Text → ℕ) → Bool → Reply → LoginAnswer
login_reply date is_https unreachable = unavailable
login_reply date is_https (response status body) =
    if not (is_ok status)
    then refused (if status == 401 then 401 else 502)
    else login_body date is_https body

module _ (gateway : LoginCall → Reply) (date : Text → ℕ) where
  unfoldable pub login_payload : LoginRequest → Json → LoginAnswer
  login_payload request payload = elim (login_call request.headers payload) [
    | none ↦ unavailable
    | some call ↦ login_reply date request.is_https (gateway call)
  ]

  unfoldable pub login : LoginRequest → LoginAnswer
  login request = elim request.body [
    | none ↦ invalid_request
    | some payload ↦ login_payload request payload
  ]

pub record LogoutCall : Type 0 where
  pub forwarded_host : Text
  pub authorization : Option Text

-- What the gateway is told, where there is a session; whatever it answers, the cookie goes.
unfoldable pub logout : Headers → Option Text → Bool → Option LogoutCall × CookieAttributes
logout headers session is_https =
    let call : LogoutCall = record {
      forwarded_host = or_default (headers "host") [];
      authorization = bearer_header session;
    } in
    (if is_empty (or_default session []) then none else some call, cleared_session_cookie is_https)
