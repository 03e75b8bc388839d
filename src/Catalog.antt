-- ===== src/Catalog.antt =====
-- apps/console/lib/catalog.ts: the client of the gateway's catalog. `fetchImpl` is a function from the
-- request to what the promise settles to; the timeout is one of its failures.
pub mod Device
pub mod Modem
pub mod Message
pub mod Enrollment
pub mod Operations
pub mod Activity
pub mod Proxy
pub mod Audit
pub mod Client
pub mod Rows
pub mod Screen
use vodoge_cloud.Prelude.{
  ◌≡◌, refl, ℕ, String, Bool, true, false, ◌||◌, not, Option, none, some, List, [], ◌∷◌, ◌++◌, ◌==◌,
  if◌then◌else◌, filter_map,
}
use vodoge_cloud.Text.{Text, units, text_eq}
use vodoge_cloud.Json.{Json, Props, end, field, as_record, cast_record, array_of, any_string}
use vodoge_cloud.Session.{ConsoleRole, admin, readonly, bearer_header}
use vodoge_cloud.Tenant.{Reply, unreachable, response, is_ok}

-- What a promise of the client settles to; `failed` is any error but `UnauthorizedError`.
pub data Result {ℓ} (A : Type ℓ) : Type ℓ where
  ok : A → Result A
  unauthorized : Result A
  failed : Result A

infixl 5 ◌>>=◌
abbrev pub ◌>>=◌ {ℓ κ} : {A : Type ℓ} {B : Type κ} → Result A → (A → Result B) → Result B
ok a >>= k = k a
unauthorized >>= k = unauthorized
failed >>= k = failed

-- What a successful chain went through.
pub >>=-eq-ok {ℓ κ} :
    {A : Type ℓ} {B : Type κ} (m : Result A) (k : A → Result B) {b : B}
    → (m >>= k) ≡ ok b
    → (a : A) × (m ≡ ok a) × (k a ≡ ok b)
>>=-eq-ok (ok a) k h = (a, refl, h)
>>=-eq-ok unauthorized k h = cc
>>=-eq-ok failed k h = cc

-- The parts of the request that vary.
pub record CatalogRequest : Type 0 where
  pub url : Text
  pub forwarded_host : Text
  pub authorization : Option Text

abbrev pub Fetch : Type 0
Fetch = CatalogRequest → Reply

-- The session and the host that every call of the client takes.
pub record Session : Type 0 where
  pub base_url : Text
  pub host : Text
  pub token : Option Text

unfoldable pub request_for : Session → Text → CatalogRequest
request_for session path = record {
  url = session.base_url ++ path;
  forwarded_host = session.host;
  authorization = bearer_header session.token;
}

abbrev pub body_of : Option Json → Result Props
body_of none = failed
body_of (some body) = elim (as_record (some body)) [ none ↦ ok end | some row ↦ ok row ]

unfoldable pub read_catalog : Reply → Result Props
read_catalog unreachable = failed
read_catalog (response status body) =
    if status == 404
    then unauthorized
    else if status == 401 || status == 403
    then unauthorized
    else if not (is_ok status)
    then failed
    else body_of body

unfoldable pub get_catalog : Fetch → Session → Text → Result Props
get_catalog fetch_impl session path = read_catalog (fetch_impl (request_for session path))

-- `arrayOf(body.key).map(parse).filter((row) => row !== null)`
unfoldable pub parsed_rows : {A : Type 0} → (Json → Option A) → String → Props → List A
parsed_rows parse key body = filter_map parse (array_of (field key body))

-- `arrayOf(body.key).map((value) => { const row = value as …; … })`, which throws on a null row.
unfoldable pub cast_rows : {A : Type 0} → (Props → A) → List Json → Result (List A)
cast_rows read [] = ok []
cast_rows read (v ∷ vs) = elim (cast_record v) [
  | none ↦ failed
  | some row ↦ cast_rows read vs >>= λ rows. ok (read row ∷ rows)
]

-- The same with `flatMap`, where a row may be dropped.
unfoldable pub flat_rows : {A : Type 0} → (Props → Option A) → List Json → Result (List A)
flat_rows read [] = ok []
flat_rows read (v ∷ vs) = elim (cast_record v) [
  | none ↦ failed
  | some row ↦
      flat_rows read vs >>= λ rows. elim (read row) [ none ↦ ok rows | some r ↦ ok (r ∷ rows) ]
]

unfoldable pub session_endpoint : Text
unfolding units
session_endpoint = units "/v1/auth/session"

-- apps/console/lib/session.ts
unfoldable pub role_from_session_body : Option Json → ConsoleRole
unfolding units
role_from_session_body body = elim (as_record body) [
  | none ↦ readonly
  | some row ↦ elim (any_string (field "role" row)) [
    | none ↦ readonly
    | some role ↦ if text_eq role (units "admin") then admin else readonly
  ]
]

abbrev pub role_of_body : Option Json → ConsoleRole
role_of_body none = readonly
role_of_body (some body) = role_from_session_body (some body)

unfoldable pub read_role : Reply → ConsoleRole
read_role unreachable = readonly
read_role (response status body) = if not (is_ok status) then readonly else role_of_body body

unfoldable pub fetch_console_role : Fetch → Session → ConsoleRole
fetch_console_role fetch_impl session =
    read_role (fetch_impl (request_for session session_endpoint))
