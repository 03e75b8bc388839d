-- ===== src/Session.antt =====
-- apps/console/lib/session.ts: which paths need no session, the header that carries the token, and
-- where a visitor is sent to sign in and comes back to.
pub mod Laws
pub mod Encoding
use vodoge_cloud.Prelude.{
  ℕ, ◌+◌, ◌*◌, ◌/◌, ◌%◌, ◌-◌, String, Bool, true, false, ◌&&◌, ◌||◌, not, Option, none, some, List,
  [], ◌∷◌, ◌++◌, ◌==◌, ltb, leb, if◌then◌else◌, any, or_default,
}
use vodoge_cloud.Text.{Text, units, text_eq, is_empty, trim, starts_with}
use mathlib.Core.Option

unfoldable pub public_paths : List Text
unfolding units
public_paths =
    units "/login"
    ∷ units "/api/auth/login"
    ∷ units "/api/auth/logout"
    ∷ units "/unknown-tenant"
    ∷ units "/not-a-tenant"
    ∷ []

-- `pathname === allowed || pathname.startsWith(`${allowed}/`)`
abbrev pub is_under : Text → Text → Bool
is_under pathname allowed = text_eq pathname allowed || starts_with pathname (allowed ++ b'/' ∷ [])

unfoldable pub is_public_path : Text → Bool
is_public_path pathname = any (is_under pathname) public_paths

-- `CookieAttributes`; the fields that are one literal type (httpOnly, sameSite, path) are left out.
pub record CookieAttributes : Type 0 where
  pub name : Text
  pub value : Text
  pub secure : Bool
  pub max_age : Option ℕ
  pub expires : Option ℕ

unfoldable pub session_cookie_name : Text
unfolding units
session_cookie_name = units "vodoge_session"

unfoldable pub session_cookie : Text → ℕ → Bool → CookieAttributes
session_cookie token expires_at secure = record {
  name = session_cookie_name;
  value = token;
  secure = secure;
  max_age = none;
  expires = some expires_at;
}

unfoldable pub cleared_session_cookie : Bool → CookieAttributes
cleared_session_cookie secure = record {
  name = session_cookie_name;
  value = [];
  secure = secure;
  max_age = some 0;
  expires = none;
}

unfoldable pub bearer : Text
unfolding units
bearer = units "Bearer "

-- The entry `authorization` of the returned object, `none` for the empty object.
unfoldable pub bearer_header : Option Text → Option Text
bearer_header token =
    let trimmed = trim (or_default token []) in
    if is_empty trimmed then none else some (bearer ++ trimmed)

unfoldable pub gateway_prefix : Text
unfolding units
gateway_prefix = units "/v1"

unfoldable pub gateway_auth_header : Text → Option Text → Option Text
gateway_auth_header pathname token =
    if not (starts_with pathname (gateway_prefix ++ b'/' ∷ [])) then none else bearer_header token

-- `p.startsWith("/") && !p.startsWith("//")`
unfoldable pub is_site_path : Text → Bool
unfolding starts_with
is_site_path p = starts_with p (b'/' ∷ []) && not (starts_with p (b'/' ∷ b'/' ∷ []))

-- encodeURIComponent of ECMA-262. These units stand for themselves: A-Z a-z 0-9 - _ . ! ~ * ' ( )
unfoldable pub is_unreserved : ℕ → Bool
is_unreserved c =
    (leb 48 c && leb c 57)
    || (leb 65 c && leb c 90)
    || (leb 97 c && leb c 122)
    || c == b'-'
    || c == b'_'
    || c == b'.'
    || c == b'!'
    || c == b'~'
    || c == b'*'
    || c == 39
    || c == b'('
    || c == b')'

-- One hexadecimal digit, in upper case.
unfoldable pub hex_digit : ℕ → ℕ
hex_digit n = if ltb n 10 then 48 + n else 55 + n

abbrev pub percent : ℕ → Text
percent byte = b'%' ∷ hex_digit (byte / 16) ∷ hex_digit (byte % 16) ∷ []

-- The UTF-8 bytes of a code point.
unfoldable pub utf8 : ℕ → List ℕ
utf8 c =
    if ltb c 0x80
    then c ∷ []
    else if ltb c 0x800
    then (192 + c / 64) ∷ (128 + c % 64) ∷ []
    else if ltb c 0x10000
    then (224 + c / 4096) ∷ (128 + c / 64 % 64) ∷ (128 + c % 64) ∷ []
    else (240 + c / 262144) ∷ (128 + c / 4096 % 64) ∷ (128 + c / 64 % 64) ∷ (128 + c % 64) ∷ []

unfoldable pub percent_all : List ℕ → Text
percent_all [] = []
percent_all (b ∷ bs) = percent b ++ percent_all bs

abbrev pub is_high : ℕ → Bool
is_high c = leb 0xd800 c && ltb c 0xdc00

abbrev pub is_low : ℕ → Bool
is_low c = leb 0xdc00 c && ltb c 0xe000

-- The code points of a text; `none` at a lone surrogate, where encodeURIComponent throws URIError.
unfoldable pub code_points : Text → Option (List ℕ)
code_points [] = some []
code_points (c ∷ []) = if is_high c || is_low c then none else some (c ∷ [])
code_points (c ∷ d ∷ s) =
    let pair =
      Option.map (λ r. (0x10000 + (c - 0xd800) * 1024 + (d - 0xdc00)) ∷ r) (code_points s) in
    let single = Option.map (λ r. c ∷ r) (code_points (d ∷ s)) in
    if is_low c then none else if is_high c then (if is_low d then pair else none) else single

unfoldable pub encode_points : List ℕ → Text
encode_points [] = []
encode_points (c ∷ cs) =
    (if is_unreserved c then c ∷ [] else percent_all (utf8 c)) ++ encode_points cs

unfoldable pub encode_uri_component : Text → Option Text
encode_uri_component s = Option.map encode_points (code_points s)

unfoldable pub login_path : Text
unfolding units
login_path = units "/login"

unfoldable pub login_query : Text
unfolding units
login_query = units "?next="

-- `none` is the URIError of a path with a lone surrogate.
unfoldable pub login_redirect : Text → Option Text
login_redirect pathname =
    let safe = if is_site_path pathname then pathname else b'/' ∷ [] in
    if text_eq safe (b'/' ∷ []) || is_public_path safe
    then some login_path
    else Option.map (λ e. login_path ++ (login_query ++ e)) (encode_uri_component safe)

unfoldable pub safe_next : Option Text → Text
safe_next none = b'/' ∷ []
safe_next (some next) = if is_empty next || not (is_site_path next) then b'/' ∷ [] else next

pub data ConsoleRole : Type 0 where
  admin readonly : ConsoleRole

unfoldable pub may_write : ConsoleRole → Bool
may_write admin = true
may_write readonly = false
