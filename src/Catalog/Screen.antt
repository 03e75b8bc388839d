-- ===== src/Catalog/Screen.antt =====
-- The audit page never shows the empty state over a log that it could not read
-- (apps/console/lib/catalog.ts, `loadAudit` and `auditScreen`).
use vodoge_cloud.Prelude.{
  ℕ, ◌≡◌, refl, ap, ◌∙◌, ◌↔◌, ◌≢◌, inl, inr, Option, none, arith, ◌<◌, subst, Option-cases, List,
  [], ◌∷◌, All, filter_map, length,
}
use vodoge_cloud.Json.{Json, Props, field, array_of}
use vodoge_cloud.Catalog.{Result, Fetch, Session, get_catalog, parsed_rows}
use vodoge_cloud.Text.{units}
use vodoge_cloud.Catalog.Audit.{
  AuditRow, parse_audit_event, AuditLoad, unreadable, audit_load, load_of, load_audit, AuditScreen,
  audit_screen,
}

-- There is a table exactly when there is no placeholder, and an error line only over a placeholder.
pub record IsExclusive (screen : AuditScreen) : Type 0 where
  pub table : (screen.rows ≢ []) ↔ (screen.placeholder ≡ none)
  pub error : screen.error_key ≢ none → screen.placeholder ≢ none

audit_load-IsExclusive :
    (received : List Json) (events : List AuditRow)
    → IsExclusive (audit_screen (audit_load received events))
unfolding audit_screen
audit_load-IsExclusive received (event ∷ events) = record {
  table = (λ h. refl, λ e q. cc);
  error = λ h e. h refl;
}
audit_load-IsExclusive [] [] = record { table = (λ h. absurd (h refl), λ e. cc); error = λ h e. cc }
audit_load-IsExclusive (v ∷ vs) [] = record {
  table = (λ h. absurd (h refl), λ e. cc);
  error = λ h e. cc;
}

failed-IsExclusive : IsExclusive (audit_screen AuditLoad.failed)
unfolding audit_screen
failed-IsExclusive = record { table = (λ h. absurd (h refl), λ e. cc); error = λ h e. cc }

load_of-IsExclusive : (r : Result Props) → IsExclusive (audit_screen (load_of r))
unfolding load_of
load_of-IsExclusive (Result.ok body) = audit_load-IsExclusive _ _
load_of-IsExclusive Result.unauthorized = failed-IsExclusive
load_of-IsExclusive Result.failed = failed-IsExclusive

-- Whatever the gateway answers, the audit page draws the table or a placeholder and never both or
-- neither, and an error line only above a placeholder.
pub load_audit-IsExclusive :
    (fetch_impl : Fetch) (session : Session)
    → IsExclusive (audit_screen (load_audit fetch_impl session))
unfolding load_audit
load_audit-IsExclusive fetch_impl session =
    load_of-IsExclusive (get_catalog fetch_impl session (units "/v1/audit"))

filter_map-nil_iff :
    {A : Type 0} (parse : Json → Option A) (vs : List Json)
    → (filter_map parse vs ≡ []) ↔ All (λ v. parse v ≡ none) vs
filter_map-nil_iff parse [] = (λ e. tt, λ h. refl)
filter_map-nil_iff parse (v ∷ vs) =
    let (to, from) = filter_map-nil_iff parse vs in
    elim (Option-cases (parse v)) [
      | inl dropped ↦ (λ e. (dropped, to (ground arith)), λ (p, h). ground (arith, from h))
      | inr (a, kept) ↦ (λ e. absurd (ground arith), λ (p, h). absurd (ground arith))
    ]

audit_load-unreadable_iff :
    (received : List Json) (events : List AuditRow) (n : ℕ)
    → (audit_load received events ≡ unreadable n)
      ↔ ((n ≡ length received) × (0 < n) × (events ≡ []))
audit_load-unreadable_iff received (event ∷ events) n =
    (λ e. absurd (ground arith), λ (a, b, c). cc)
audit_load-unreadable_iff [] [] n = (λ e. absurd (ground arith), λ (a, b, c). absurd (omega arith))
audit_load-unreadable_iff (v ∷ vs) [] n = (λ e. ground arith, λ (a, b, c). ground arith)

load_of-unreadable_iff :
    (r : Result Props) (n : ℕ)
    → (load_of r ≡ unreadable n) ↔ (
        (body : Props) × (r ≡ Result.ok body)
        × (n ≡ length (array_of (field "events" body)))
        × (0 < n)
        × All (λ v. parse_audit_event v ≡ none) (array_of (field "events" body)))
unfolding load_of parsed_rows
load_of-unreadable_iff (Result.ok body) n =
    let received = array_of (field "events" body) in
    let (to, from) = audit_load-unreadable_iff received (filter_map parse_audit_event received) n in
    let (lost, dropped) = filter_map-nil_iff parse_audit_event received in
    (
      λ e. let (a, b, c) = to e in (body, refl, a, b, lost c),
      λ (b, e, a, p, h).
          let same : b ≡ body = ground arith in
          from (
            a ∙ ap (λ r. length (array_of (field "events" r))) same,
            p,
            dropped (
                subst (λ r. All (λ v. parse_audit_event v ≡ none) (array_of (field "events" r)))
                  same h),
          ),
    )
load_of-unreadable_iff Result.unauthorized n =
    (λ e. absurd (ground arith), λ (b, e, a, p, h). absurd (ground arith))
load_of-unreadable_iff Result.failed n =
    (λ e. absurd (ground arith), λ (b, e, a, p, h). absurd (ground arith))

-- The log is reported as unreadable, with the number of events that came, exactly when the gateway
-- answered, sent at least one event, and the parser refused every one.
pub load_audit-unreadable_iff :
    (fetch_impl : Fetch) (session : Session) (n : ℕ)
    → (load_audit fetch_impl session ≡ unreadable n) ↔ (
        (body : Props) × (get_catalog fetch_impl session (units "/v1/audit") ≡ Result.ok body)
        × (n ≡ length (array_of (field "events" body)))
        × (0 < n)
        × All (λ v. parse_audit_event v ≡ none) (array_of (field "events" body)))
unfolding load_audit
load_audit-unreadable_iff fetch_impl session n =
    load_of-unreadable_iff (get_catalog fetch_impl session (units "/v1/audit")) n
