-- ===== src/Catalog/Operations.antt =====
-- apps/console/lib/catalog.ts: candidates, alerts, uptime and rules.
use vodoge_cloud.Prelude.{
  ℕ, ◌*◌, Bool, ◌||◌, Option, none, some, List, [], ◌∷◌, ◌>>=◌ as bind, or_default, if◌then◌else◌,
  length,
}
use vodoge_cloud.Prelude.Int.{ℤ, pos, ◌+ℤ◌}
use vodoge_cloud.Text.{Text, units, text_eq}
use vodoge_cloud.Json.{
  Json, arr, obj, cons, cast_record, Props, prop, end, field, as_record, array_of, any_string,
  text_at, text_or, number_at, number_or, true_at,
}
use vodoge_cloud.Catalog.{Result, ok, Fetch, Session, get_catalog, parsed_rows, flat_rows, ◌>>=◌}

pub record CandidateRow : Type 0 where
  pub device_id : Text
  pub candidate_key : Text
  pub usb_device : Option Text
  pub transport : Text
  pub control_port : Text
  pub vendor_id : Option Text
  pub product_id : Option Text
  pub state : Text
  pub imei : Option Text
  pub detail : Text
  pub last_seen : Option ℤ

unfoldable pub candidate_row : Props → Text → CandidateRow
unfolding units
candidate_row row key = record {
  device_id = text_or [] "device_id" row;
  candidate_key = key;
  usb_device = text_at "usb_device" row;
  transport = text_or (units "at") "transport" row;
  control_port = text_or [] "control_port" row;
  vendor_id = text_at "vendor_id" row;
  product_id = text_at "product_id" row;
  state = text_or (units "found") "state" row;
  imei = text_at "imei" row;
  detail = text_or [] "detail" row;
  last_seen = number_at "last_seen" row;
}

abbrev pub candidate : Props → Option CandidateRow
candidate row = bind (text_at "candidate_key" row) λ key. some (candidate_row row key)

unfoldable pub fetch_candidates : Fetch → Session → Result (List CandidateRow)
unfolding units
fetch_candidates fetch_impl session = do
  body ← get_catalog fetch_impl session (units "/v1/candidates")
  flat_rows candidate (array_of (field "candidates" body))

pub record AlertRow : Type 0 where
  pub id : Text
  pub device_id : Text
  pub level : Text
  pub code : Text
  pub message : Text
  pub context : Props
  pub occurred_at : ℤ

unfoldable pub alert_row : Props → Text → AlertRow
unfolding units
alert_row row id = record {
  id = id;
  device_id = text_or [] "device_id" row;
  level = text_or (units "error") "level" row;
  code = text_or (units "unknown") "code" row;
  message = text_or [] "message" row;
  context = or_default (as_record (field "context" row)) end;
  occurred_at = number_or (pos 0) "occurred_at" row;
}

abbrev pub alert : Props → Option AlertRow
alert row = bind (text_at "id" row) λ id. some (alert_row row id)

pub record UptimeHourRow : Type 0 where
  pub hour : ℤ
  pub minutes_online : ℤ

abbrev pub uptime_hour : Props → Option UptimeHourRow
uptime_hour row = bind (number_at "hour" row) λ hour.
    bind (number_at "minutes_online" row)
      λ minutes. some (record { hour = hour; minutes_online = minutes })

unfoldable pub uptime_of : Props → Result (List UptimeHourRow)
uptime_of body = flat_rows uptime_hour (array_of (field "uptime" body))

unfoldable pub alerts_of : Props → Result (List AlertRow)
alerts_of body = flat_rows alert (array_of (field "alerts" body))

abbrev pub minutes_of : List UptimeHourRow → ℤ
minutes_of [] = pos 0
minutes_of (row ∷ rows) = row.minutes_online +ℤ minutes_of rows

-- The ratio as its numerator and its denominator.
unfoldable pub uptime_ratio : List UptimeHourRow → Option (ℤ × ℕ)
uptime_ratio [] = none
uptime_ratio (row ∷ rows) = some (minutes_of (row ∷ rows), length (row ∷ rows) * 60)

pub data AlertTone : Type 0 where
  bad warn info neutral : AlertTone

unfoldable pub alert_tone : Text → AlertTone
unfolding units
alert_tone level =
    if text_eq level (units "critical") || text_eq level (units "error")
    then bad
    else if text_eq level (units "warning")
    then warn
    else if text_eq level (units "info")
    then info
    else neutral

pub record RuleRow : Type 0 where
  pub id : Text
  pub name : Text
  pub enabled : Option Json

-- `isRule`, with the row that the filter lets through as it is.
unfoldable pub rule_row : Json → Option RuleRow
rule_row value = bind (as_record (some value)) λ row. bind (any_string (field "id" row)) λ id.
    bind (any_string (field "name" row))
      λ name. some (record { id = id; name = name; enabled = field "enabled" row })

unfoldable pub fetch_rules : Fetch → Session → Result (List RuleRow)
unfolding units
fetch_rules fetch_impl session = do
  body ← get_catalog fetch_impl session (units "/v1/rules")
  ok (parsed_rows rule_row "rules" body)

pub record Selector : Type 0 where
  pub mode : Text
  pub device_id : Option Text
  pub iccid : Option Text
  pub modem_imei : Option Text

pub record ScheduleRow : Type 0 where
  pub id : Text
  pub name : Text
  pub enabled : Bool
  pub action : Text
  pub command_kind : Option Text
  pub selector : Selector
  pub interval_seconds : ℤ
  pub next_due_at : Option ℤ
  pub last_run_at : Option ℤ
  pub last_status : Option Text
  pub last_command_id : Option Text
  pub last_detail : Option Text

-- `(record.selector ?? {}) as Record<string, unknown>`
abbrev pub selector_record : Option Json → Props
selector_record none = end
selector_record (some v) = or_default (cast_record v) end

unfoldable pub selector_of : Props → Selector
unfolding units
selector_of selector = record {
  mode = text_or (units "unknown") "mode" selector;
  device_id = text_at "device_id" selector;
  iccid = text_at "iccid" selector;
  modem_imei = text_at "modem_imei" selector;
}

-- `JSON.stringify` is a parameter: `Object.keys(detail).length > 0` is an object or an array that is
-- not empty.
unfoldable pub detail_of : (Json → Text) → Option Json → Option Text
detail_of stringify (some (obj (prop k v ps))) = some (stringify (obj (prop k v ps)))
detail_of stringify (some (arr (cons v vs))) = some (stringify (arr (cons v vs)))
detail_of stringify _ = none

unfoldable pub schedule_row : (Json → Text) → Props → Text → Text → ScheduleRow
unfolding units
schedule_row stringify row id name = record {
  id = id;
  name = name;
  enabled = true_at "enabled" row;
  action = text_or (units "command") "action" row;
  command_kind = text_at "command_kind" row;
  selector = selector_of (selector_record (field "selector" row));
  interval_seconds = number_or (pos 0) "interval_seconds" row;
  next_due_at = number_at "next_due_at" row;
  last_run_at = number_at "last_run_at" row;
  last_status = text_at "last_status" row;
  last_command_id = text_at "last_command_id" row;
  last_detail = detail_of stringify (field "last_detail" row);
}

unfoldable pub parse_schedule : (Json → Text) → Json → Option ScheduleRow
parse_schedule stringify value = bind (as_record (some value)) λ row.
    bind (text_at "id" row)
      λ id. bind (text_at "name" row) λ name. some (schedule_row stringify row id name)

unfoldable pub fetch_schedules : (Json → Text) → Fetch → Session → Result (List ScheduleRow)
unfolding units
fetch_schedules stringify fetch_impl session = do
  body ← get_catalog fetch_impl session (units "/v1/schedules")
  ok (parsed_rows (parse_schedule stringify) "schedules" body)
