-- ===== src/Tests/Gateway.antt =====
-- The catalog's client on concrete answers of the gateway.
use vodoge_cloud.Prelude.{ℕ, ◌≡◌, refl, ◌↔◌, none, some, [], ◌∷◌, ◌≤◌}
use vodoge_cloud.Prelude.Int.{pos}
use vodoge_cloud.Text.{Text, units, text_eq}
use vodoge_cloud.Json.{
  lookup, Json, null, str, arr, obj, nil, cons, prop, end, field, as_record, array_of, elements,
  as_string, as_number, any_string,
}
use vodoge_cloud.Tenant.{response}
use vodoge_cloud.Catalog.{
  ok, Fetch, Session, request_for, get_catalog, read_catalog, fetch_console_role, parsed_rows,
}
use vodoge_cloud.Catalog.Client.{record_of, get_catalog_iff}
use vodoge_cloud.Catalog.Device.{DeviceRow, device_row, parse_device, fetch_devices}
use vodoge_cloud.Catalog.Message.{MessageRow, parse_message}
use vodoge_cloud.Catalog.Rows.{message_json, parse_message-message_json}
use vodoge_cloud.Catalog.Audit.{parse_audit_event, unreadable, load_audit, load_of}

abbrev word : Text
word = b'x' ∷ []

abbrev caller : Session
caller = record { base_url = word; host = word; token = some word }

-- One device that can be read, one without a name, and one that is no object.
abbrev fleet : Json
fleet = obj (
    prop (units "devices")
      (arr (
        cons (obj (prop (units "id") (str word) (prop (units "name") (str word) end)))
          (cons (obj (prop (units "id") (str word) end)) (cons null nil))))
      (prop (units "role") (str (units "admin")) (prop (units "events") (arr (cons null nil)) end)))

abbrev serving : Fetch
serving request = response 200 (some fleet)

abbrev refusing : Fetch
refusing request = response 403 none

gateway : Unit {0}
unfolding get_catalog read_catalog parsed_rows parse_device device_row fetch_devices field lookup
    as_record array_of elements as_string as_number any_string fetch_console_role text_eq load_audit
    load_of parse_audit_event
gateway = tt

get_catalog_iff_example : (get_catalog serving caller word ≡ ok (record_of fleet)) ↔ (
    (status : ℕ) × (json : Json) × (serving (request_for caller word) ≡ response status (some json))
    × (200 ≤ status)
    × (status ≤ 299)
    × (record_of fleet ≡ record_of json))
get_catalog_iff_example = get_catalog_iff serving caller word (record_of fleet)

abbrev only_device : DeviceRow
unfolding gateway units
only_device =
    device_row (prop (units "id") (str word) (prop (units "name") (str word) end)) word word

abbrev note : MessageRow
note = record {
  id = word;
  device_id = word;
  direction = word;
  peer = word;
  body = [];
  bearer = word;
  received_at = pos 7;
  seq = pos 1;
}

parse_message-message_json_example : parse_message (message_json note) ≡ some note
parse_message-message_json_example = parse_message-message_json note refl refl refl refl refl

-- The event that came is no object, so the log is reported as unreadable and not as empty.
unreadable_log : load_audit serving caller ≡ unreadable 1
unfolding gateway
unreadable_log = refl
