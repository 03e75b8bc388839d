-- ===== src/Catalog/Audit.antt =====
-- apps/console/lib/catalog.ts: the audit log, what one load of it turned out to be, and the screen.
use vodoge_cloud.Prelude.{
  ℕ, String, Option, none, some, List, [], ◌∷◌, ◌>>=◌ as bind, or_default, or_else, length,
}
use vodoge_cloud.Text.{Text, units}
use vodoge_cloud.Json.{Json, Props, field, as_record, array_of, text_at}
use vodoge_cloud.Catalog.{Result, Fetch, Session, get_catalog, parsed_rows}

pub record AuditRow : Type 0 where
  pub actor : Text
  pub action : Text
  pub target : Text

-- `eitherCase`: the name, and the name with its first letter in upper case.
abbrev pub either_case : Props → String → String → Option Text
either_case row name go_name = or_else (text_at name row) (text_at go_name row)

unfoldable pub parse_audit_event : Json → Option AuditRow
parse_audit_event value = bind (as_record (some value)) λ row.
    bind (either_case row "action" "Action") λ action. some (record {
      actor = or_default (either_case row "actor" "Actor") [];
      action = action;
      target = or_default (either_case row "target" "Target") [];
    })

pub data AuditLoad : Type 0 where
  loaded : List AuditRow → AuditLoad
  empty : AuditLoad
  unreadable : (received : ℕ) → AuditLoad
  failed : AuditLoad

abbrev pub audit_load : List Json → List AuditRow → AuditLoad
audit_load received (event ∷ events) = loaded (event ∷ events)
audit_load [] [] = empty
audit_load (v ∷ vs) [] = unreadable (length (v ∷ vs))

unfoldable pub load_of : Result Props → AuditLoad
load_of (Result.ok body) =
    audit_load (array_of (field "events" body)) (parsed_rows parse_audit_event "events" body)
load_of _ = failed

unfoldable pub load_audit : Fetch → Session → AuditLoad
unfolding units
load_audit fetch_impl session = load_of (get_catalog fetch_impl session (units "/v1/audit"))

pub record Placeholder : Type 0 where
  pub title_key : Text
  pub description_key : Text
  pub count : Option ℕ

pub record AuditScreen : Type 0 where
  pub rows : List AuditRow
  pub error_key : Option Text
  pub placeholder : Option Placeholder

unfoldable pub audit_screen : AuditLoad → AuditScreen
unfolding units
audit_screen (loaded events) = record { rows = events; error_key = none; placeholder = none }
audit_screen empty = record {
  rows = [];
  error_key = none;
  placeholder = some (record {
    title_key = units "empty.audit.title";
    description_key = units "empty.audit.desc";
    count = none;
  });
}
audit_screen (unreadable received) = record {
  rows = [];
  error_key = some (units "audit.unreadableError");
  placeholder = some (record {
    title_key = units "empty.audit.unreadableTitle";
    description_key = units "empty.audit.unreadableDesc";
    count = some received;
  });
}
audit_screen failed = record {
  rows = [];
  error_key = some (units "audit.loadError");
  placeholder = some (record {
    title_key = units "empty.audit.failedTitle";
    description_key = units "empty.audit.failedDesc";
    count = none;
  });
}
