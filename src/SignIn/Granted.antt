-- ===== src/SignIn/Granted.antt =====
-- What a session cookie holds (apps/console/app/api/auth/login/route.ts).
use vodoge_cloud.Prelude.{
  ℕ, ◌≡◌, refl, sym, inl, inr, Bool, true, Option, none, some, arith, Bool-cases, Option-cases,
}
use vodoge_cloud.Text.{Text}
use vodoge_cloud.Json.{Json, Props, cast_record, text_at}
use vodoge_cloud.Tenant.{Reply, unreachable, response, is_ok}
use vodoge_cloud.Session.{CookieAttributes, session_cookie}
use vodoge_cloud.SignIn.{
  LoginRequest, LoginCall, login_call, signed_in, cookie_of, login_body, login_reply, login_payload,
  login,
}

-- An answer that is 2xx, with a token and an expiry, and the cookie that holds them.
abbrev pub IsGranted : (Text → ℕ) → Bool → Reply → CookieAttributes → Type 0
IsGranted date is_https reply cookie =
    (status : ℕ) × (body : Json) × (row : Props) × (token : Text) × (expires_at : Text) × (reply
      ≡ response status (some body))
    × (is_ok status ≡ true)
    × (cast_record body ≡ some row)
    × (text_at "token" row ≡ some token)
    × (text_at "expires_at" row ≡ some expires_at)
    × (cookie ≡ session_cookie token (date expires_at) is_https)

made : {a b : CookieAttributes} → signed_in a ≡ signed_in b → a ≡ b
made e = ground arith

cookie_of-signed_in :
    (date : Text → ℕ) (is_https : Bool) (token expires_at : Option Text) (cookie : CookieAttributes)
    → cookie_of date is_https token expires_at ≡ signed_in cookie
    → (t : Text) × (x : Text) × (token ≡ some t)
      × (expires_at ≡ some x)
      × (cookie ≡ session_cookie t (date x) is_https)
cookie_of-signed_in date is_https none x cookie e = absurd (ground arith)
cookie_of-signed_in date is_https (some t) none cookie e = absurd (ground arith)
cookie_of-signed_in date is_https (some t) (some x) cookie e = (t, x, refl, refl, sym (made e))

login_reply-IsGranted :
    (date : Text → ℕ) (is_https : Bool) (reply : Reply) (cookie : CookieAttributes)
    → login_reply date is_https reply ≡ signed_in cookie
    → IsGranted date is_https reply cookie
unfolding login_reply login_body
login_reply-IsGranted date is_https unreachable cookie e = absurd (ground arith)
login_reply-IsGranted date is_https (response status none) cookie e =
    elim (Bool-cases (is_ok status)) [
      | inl fine ↦ absurd (ground arith)
      | inr bad ↦ absurd (ground arith)
    ]
login_reply-IsGranted date is_https (response status (some body)) cookie e =
    elim (Bool-cases (is_ok status)) [
      | inr bad ↦ absurd (ground arith)
      | inl fine ↦ elim (Option-cases (cast_record body)) [
        | inl unread ↦ absurd (ground arith)
        | inr (row, read) ↦
            let (token, expires_at, t, x, same) =
              cookie_of-signed_in date is_https (text_at "token" row) (text_at "expires_at" row)
                cookie (ground arith) in
            (status, body, row, token, expires_at, refl, fine, read, t, x, same)
      ]
    ]

-- A sign-in sets a cookie only for a request whose body could be read and was sent to the gateway, and
-- only the token and the expiry of an answer that is 2xx.
pub login-IsGranted :
    (gateway : LoginCall → Reply) (date : Text → ℕ) (request : LoginRequest)
    (cookie : CookieAttributes)
    → login gateway date request ≡ signed_in cookie
    → (payload : Json) × (call : LoginCall) × (request.body ≡ some payload)
      × (login_call request.headers payload ≡ some call)
      × IsGranted date request.is_https (gateway call) cookie
unfolding login login_payload
login-IsGranted gateway date request cookie e = elim (Option-cases request.body) [
  | inl none_read ↦ absurd (ground arith)
  | inr (payload, got) ↦ elim (Option-cases (login_call request.headers payload)) [
    | inl no_call ↦ absurd (ground arith)
    | inr (call, made_call) ↦ (
      payload,
      call,
      got,
      made_call,
      login_reply-IsGranted date request.is_https (gateway call) cookie (ground arith),
    )
  ]
]
