-- ===== src/Catalog/Client.antt =====
-- What the catalog's client makes of the gateway's answers (apps/console/lib/catalog.ts, `getCatalog`
-- and `fetchConsoleRole`).
use vodoge_cloud.Prelude.{
  ℕ, ◌≡◌, refl, sym, ap, ◌∙◌, ◌↔◌, ◌⊎◌, ◌≢◌, inl, inr, Option, none, some, arith, Option-cases,
  or_default, ◌≤◌,
}
use vodoge_cloud.Text.{Text, units}
use vodoge_cloud.Text.Laws.{text_eq_iff}
use vodoge_cloud.Json.{
  Json, null, bool, num, arr, obj, Props, end, field, as_record, any_string, str,
}
use vodoge_cloud.Session.{admin}
use vodoge_cloud.Tenant.{Reply, unreachable, response}
use vodoge_cloud.Catalog.{
  ok, unauthorized, Fetch, Session, request_for, read_catalog, get_catalog, body_of,
  session_endpoint, role_from_session_body, read_role, fetch_console_role,
}

-- A body that is no object reads as one with no properties.
abbrev pub record_of : Json → Props
record_of body = or_default (as_record (some body)) end

body_of_iff :
    (body : Option Json) (row : Props)
    → (body_of body ≡ ok row) ↔ ((json : Json) × (body ≡ some json) × (row ≡ record_of json))
body_of_iff none row = (λ e. absurd (ground arith), λ (j, e, q). absurd (ground arith))
body_of_iff (some json) row = (λ e. (json, refl, ground arith), λ (j, e, q). ground arith)

read_catalog_iff :
    (reply : Reply) (row : Props)
    → (read_catalog reply ≡ ok row) ↔ (
        (status : ℕ) × (json : Json) × (reply ≡ response status (some json))
        × (200 ≤ status)
        × (status ≤ 299)
        × (row ≡ record_of json))
unfolding read_catalog
read_catalog_iff unreachable row = (λ e. absurd (ground arith), λ r. absurd (ground arith))
read_catalog_iff (response status body) row = (
  λ e.
      let (json, b, q) = (body_of_iff body row).0 (ground arith) in
      (status, json, ap (λ x. response status x) b, ground arith, ground arith, q),
  λ (s, json, e, lo, hi, q). ground (arith, (body_of_iff (some json) row).1 (json, refl, q)),
)

body_of-ne-unauthorized : (body : Option Json) → body_of body ≢ unauthorized
body_of-ne-unauthorized none e = absurd (ground arith)
body_of-ne-unauthorized (some json) e = absurd (ground arith)

read_catalog-unauthorized_iff :
    (reply : Reply)
    → (read_catalog reply ≡ unauthorized) ↔ (
        (status : ℕ) × (body : Option Json) × (reply ≡ response status body)
        × ((status ≡ 404) ⊎ ((status ≡ 401) ⊎ (status ≡ 403))))
unfolding read_catalog
read_catalog-unauthorized_iff unreachable = (λ e. absurd (ground arith), λ r. absurd (ground arith))
read_catalog-unauthorized_iff (response status body) = (
  λ e. (status, body, refl, ground (arith, body_of-ne-unauthorized body)),
  λ (s, b, e, h). ground arith,
)

module _ (fetch_impl : Fetch) (session : Session) where
  -- The client hands over a body exactly when the gateway answered with a status of the two hundreds
  -- and JSON: no refusal, no missing tenant and no failure reads as an empty list.
  pub get_catalog_iff :
      (path : Text) (row : Props)
      → (get_catalog fetch_impl session path ≡ ok row) ↔ (
          (status : ℕ) × (json : Json) × (fetch_impl (request_for session path)
            ≡ response status (some json))
          × (200 ≤ status)
          × (status ≤ 299)
          × (row ≡ record_of json))
  unfolding get_catalog
  get_catalog_iff path row = read_catalog_iff (fetch_impl (request_for session path)) row

  -- The session is reported as refused exactly when the gateway answered 401, 403 or 404.
  pub get_catalog-unauthorized_iff :
      (path : Text)
      → (get_catalog fetch_impl session path ≡ unauthorized) ↔ (
          (status : ℕ) × (body : Option Json) × (fetch_impl (request_for session path)
            ≡ response status body)
          × ((status ≡ 404) ⊎ ((status ≡ 401) ⊎ (status ≡ 403))))
  unfolding get_catalog
  get_catalog-unauthorized_iff path =
      read_catalog-unauthorized_iff (fetch_impl (request_for session path))

any_string_iff : (v : Option Json) (s : Text) → (any_string v ≡ some s) ↔ (v ≡ some (str s))
unfolding any_string
any_string_iff none s = ground arith
any_string_iff (some null) s = ground arith
any_string_iff (some (bool b)) s = ground arith
any_string_iff (some (num n)) s = ground arith
any_string_iff (some (str t)) s = ground arith
any_string_iff (some (arr vs)) s = ground arith
any_string_iff (some (obj ps)) s = ground arith

role_from_session_body_iff :
    (body : Option Json)
    → (role_from_session_body body ≡ admin) ↔ (
        (row : Props) × (as_record body ≡ some row)
        × (field "role" row ≡ some (str (units "admin"))))
unfolding role_from_session_body
role_from_session_body_iff body = elim (Option-cases (as_record body)) [
  | inl none_there ↦ (λ e. absurd (ground arith), λ (r, e, q). absurd (ground arith))
  | inr (row, there) ↦
      let read = any_string_iff (field "role" row) (units "admin") in
      (
        λ e. elim (Option-cases (any_string (field "role" row))) [
          | inl no_text ↦ absurd (ground arith)
          | inr (role, got) ↦
              let same : role ≡ units "admin" =
                (text_eq_iff role (units "admin")).0 (ground arith) in
              (row, there, read.0 (got ∙ ap (λ t. some t) same))
        ],
        λ (r, e, q).
            let same : row ≡ r = ground arith in
            ground (
              arith,
              read.1 (ap (λ r. field "role" r) same ∙ q),
              (text_eq_iff (units "admin") (units "admin")).1 refl,
            ),
      )
]

read_role_iff :
    (reply : Reply)
    → (read_role reply ≡ admin) ↔ (
        (status : ℕ) × (json : Json) × (row : Props) × (reply ≡ response status (some json))
        × (200 ≤ status)
        × (status ≤ 299)
        × (as_record (some json) ≡ some row)
        × (field "role" row ≡ some (str (units "admin"))))
unfolding read_role
read_role_iff unreachable = (λ e. absurd (ground arith), λ r. absurd (ground arith))
read_role_iff (response status none) =
    (λ e. absurd (ground arith), λ (s, j, r, e, lo, hi, there, role). absurd (ground arith))
read_role_iff (response status (some json)) = (
  λ e.
      let (row, there, role) = (role_from_session_body_iff (some json)).0 (ground arith) in
      (status, json, row, refl, ground arith, ground arith, there, role),
  λ (s, j, r, e, lo, hi, there, role).
      let same : j ≡ json = ground arith in
      ground (
        arith,
        (role_from_session_body_iff (some json)).1
            (r, ap (λ x. as_record (some x)) (sym same) ∙ there, role),
      ),
)

-- An account is drawn as an administrator exactly when the gateway answered with a status of the two
-- hundreds and an object whose role is the text `admin`: every failure is read-only.
pub fetch_console_role_iff :
    (fetch_impl : Fetch) (session : Session)
    → (fetch_console_role fetch_impl session ≡ admin) ↔ (
        (status : ℕ) × (json : Json) × (row : Props) × (fetch_impl
            (request_for session session_endpoint)
          ≡ response status (some json))
        × (200 ≤ status)
        × (status ≤ 299)
        × (as_record (some json) ≡ some row)
        × (field "role" row ≡ some (str (units "admin"))))
unfolding fetch_console_role
fetch_console_role_iff fetch_impl session =
    read_role_iff (fetch_impl (request_for session session_endpoint))
