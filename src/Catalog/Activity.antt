-- ===== src/Catalog/Activity.antt =====
-- apps/console/lib/catalog.ts: sessions, the journal, alerts and a device's uptime. `search_params` is
-- what `URLSearchParams` writes; a number in a query is handed in as its text.
use vodoge_cloud.Prelude.{Option, none, some, List, [], ◌∷◌, ◌++◌, if◌then◌else◌, or_default}
use vodoge_cloud.Prelude.Int.{ℤ, pos}
use vodoge_cloud.Text.{Text, units, is_empty}
use vodoge_cloud.Json.{
  Json, Props, field, as_record, array_of, any_string, text_at, text_or, number_at, number_or,
}
use vodoge_cloud.Session.{encode_uri_component}
use vodoge_cloud.Catalog.{
  Fetch, Session, Result, failed, ok, ◌>>=◌, get_catalog, parsed_rows, cast_rows,
}
use vodoge_cloud.Catalog.Operations.{UptimeHourRow, uptime_of, AlertRow, alerts_of}

pub record SessionRow : Type 0 where
  pub peer : Text
  pub count : ℤ
  pub last_body : Text
  pub last_received_at : ℤ
  pub device_id : Text

-- A row that lacks one of the five is dropped; the body alone may be empty.
unfoldable pub session_row :
    Option Text → Option Text → Option Text → Option ℤ → Option ℤ → Option SessionRow
session_row (some peer) (some last_body) (some device_id) (some count) (some last_received_at) =
    some (record {
      peer = peer;
      count = count;
      last_body = last_body;
      last_received_at = last_received_at;
      device_id = device_id;
    })
session_row _ _ _ _ _ = none

unfoldable pub parse_session : Json → Option SessionRow
parse_session value = elim (as_record (some value)) [
  | none ↦ none
  | some row ↦
      session_row (text_at "peer" row) (any_string (field "last_body" row))
        (text_at "device_id" row) (number_at "count" row) (number_at "last_received_at" row)
]

unfoldable pub fetch_sessions : Fetch → Session → Result (List SessionRow)
unfolding units
fetch_sessions fetch_impl session =
    get_catalog fetch_impl session (units "/v1/sessions") >>= λ body.
    ok (parsed_rows parse_session "sessions" body)

pub record JournalEvent : Type 0 where
  pub seq : ℤ
  pub device_id : Text
  pub kind : Text
  pub received_at : ℤ
  pub payload : Option Json

unfoldable pub journal_event : Props → JournalEvent
journal_event row = record {
  seq = number_or (pos 0) "seq" row;
  device_id = text_or [] "device_id" row;
  kind = text_or [] "kind" row;
  received_at = number_or (pos 0) "received_at" row;
  payload = field "payload" row;
}

-- `if (value) query.set(key, value)`
abbrev pub set_given : Text → Option Text → List (Text × Text) → List (Text × Text)
set_given key none query = query
set_given key (some value) query = if is_empty value then query else query ++ ((key, value) ∷ [])

module _ (search_params : List (Text × Text) → Text) (fetch_impl : Fetch) (session : Session) where
  unfoldable pub fetch_journal :
      Option Text → Option Text → Option Text → Result (List JournalEvent)
  unfolding units
  fetch_journal kind device_id limit =
      let given = set_given (units "device_id") device_id (set_given (units "kind") kind []) in
      let query = given ++ ((units "limit", or_default limit (units "100")) ∷ []) in
      get_catalog fetch_impl session (units "/v1/journal?" ++ search_params query) >>= λ body.
      cast_rows journal_event (array_of (field "events" body))

  unfoldable pub fetch_alerts : Option Text → Text → Result (List AlertRow)
  unfolding units
  fetch_alerts device_id limit =
      let query = set_given (units "device_id") device_id ((units "limit", limit) ∷ []) in
      get_catalog fetch_impl session (units "/v1/alerts?" ++ search_params query) >>= alerts_of

-- `encodeURIComponent` throws at a lone surrogate, before anything is fetched.
unfoldable pub fetch_device_uptime : Fetch → Session → Text → Text → Result (List UptimeHourRow)
unfolding units
fetch_device_uptime fetch_impl session device_id hours = elim (encode_uri_component device_id) [
  | none ↦ failed
  | some encoded ↦
      get_catalog fetch_impl session
        (units "/v1/devices/" ++ (encoded ++ (units "/uptime?hours=" ++ hours)))
      >>= uptime_of
]
