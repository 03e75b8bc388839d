-- ===== src/Catalog/Rows.antt =====
-- What every row that is fetched has (apps/console/lib/catalog.ts), and the round trip of a message.
use vodoge_cloud.Prelude.{
  ◌≡◌, refl, inl, inr, false, Option, none, some, arith, Option-cases, List, [], ◌∷◌, All,
  filter_map,
}
use vodoge_cloud.Text.{Text, units, text_eq, is_empty}
use vodoge_cloud.Json.{
  lookup, Json, null, bool, num, str, arr, obj, finite, Props, prop, end, field, as_record,
  any_string, as_string, as_number, array_of, text_at,
}
use vodoge_cloud.Catalog.{ok, Fetch, Session, get_catalog, parsed_rows, >>=-eq-ok}
use vodoge_cloud.Catalog.Device.{DeviceRow, device_row, parse_device, fetch_devices}
use vodoge_cloud.Catalog.Message.{MessageRow, parse_message}

-- Whatever holds of each row that a parser accepts holds of each row that is fetched.
filter_map-All :
    {A : Type 0} (parse : Json → Option A) (P : A → Type 0)
    → ((v : Json) (a : A) → parse v ≡ some a → P a)
    → (vs : List Json) → All P (filter_map parse vs)
filter_map-All parse P each [] = tt
filter_map-All parse P each (v ∷ vs) = elim (Option-cases (parse v)) [
  | inl dropped ↦ rw (dropped, filter_map) (filter_map-All parse P each vs)
  | inr (a, kept) ↦ rw (kept, filter_map) (each v a kept, filter_map-All parse P each vs)
]

text_at-nonempty : (v : Option Json) (s : Text) → as_string v ≡ some s → is_empty s ≡ false
unfolding as_string
text_at-nonempty none s e = absurd (ground arith)
text_at-nonempty (some null) s e = absurd (ground arith)
text_at-nonempty (some (bool b)) s e = absurd (ground arith)
text_at-nonempty (some (num n)) s e = absurd (ground arith)
text_at-nonempty (some (str t)) s e = ground arith
text_at-nonempty (some (arr vs)) s e = absurd (ground arith)
text_at-nonempty (some (obj ps)) s e = absurd (ground arith)

-- A device row has an identifier and a name that are not empty.
abbrev pub IsNamed : DeviceRow → Type 0
IsNamed row = (is_empty row.id ≡ false) × (is_empty row.name ≡ false)

device_row-id : (row : Props) (id name : Text) → (device_row row id name).id ≡ id
unfolding device_row
device_row-id row id name = refl

device_row-name : (row : Props) (id name : Text) → (device_row row id name).name ≡ name
unfolding device_row
device_row-name row id name = refl

parse_device-IsNamed : (v : Json) (row : DeviceRow) → parse_device v ≡ some row → IsNamed row
unfolding parse_device
parse_device-IsNamed v row e = elim (Option-cases (as_record (some v))) [
  | inl nothing ↦ absurd (ground arith)
  | inr (r, there) ↦ elim (Option-cases (text_at "id" r)) [
    | inl no_id ↦ absurd (ground arith)
    | inr (id, got_id) ↦ elim (Option-cases (text_at "name" r)) [
      | inl no_name ↦ absurd (ground arith)
      | inr (name, got_name) ↦
          let same : device_row r id name ≡ row = ground arith in
          rw (← same, device_row-id r id name, device_row-name r id name)
            (
              text_at-nonempty (field "id" r) id got_id,
              text_at-nonempty (field "name" r) name got_name,
            )
    ]
  ]
]

-- Every device that is fetched has an identifier and a name that are not empty, whatever the gateway
-- sent in its list.
pub fetch_devices-IsNamed :
    (fetch_impl : Fetch) (session : Session) (rows : List DeviceRow)
    → fetch_devices fetch_impl session ≡ ok rows
    → All IsNamed rows
unfolding fetch_devices parsed_rows
fetch_devices-IsNamed fetch_impl session rows e =
    let (body, got, same) =
      >>=-eq-ok (get_catalog fetch_impl session (units "/v1/devices"))
        (λ body. ok (filter_map parse_device (array_of (field "devices" body)))) e in
    let read : filter_map parse_device (array_of (field "devices" body)) ≡ rows = ground arith in
    rw (← read)
      (filter_map-All parse_device IsNamed parse_device-IsNamed (array_of (field "devices" body)))

-- A message as the gateway sends it.
pub message_json : MessageRow → Json
message_json m = obj (
    prop (units "id") (str m.id) (
      prop (units "device_id") (str m.device_id) (
        prop (units "direction") (str m.direction) (
          prop (units "peer") (str m.peer) (
            prop (units "body") (str m.body) (
              prop (units "bearer") (str m.bearer) (
                prop (units "received_at") (num (finite m.received_at))
                  (prop (units "seq") (num (finite m.seq)) end))))))))

-- A message whose texts are not empty is read back as it was sent; its body may be empty.
pub parse_message-message_json :
    (m : MessageRow)
    → is_empty m.id ≡ false
    → is_empty m.device_id ≡ false
    → is_empty m.direction ≡ false
    → is_empty m.peer ≡ false
    → is_empty m.bearer ≡ false
    → parse_message (message_json m) ≡ some m
unfolding parse_message message_json as_record as_string any_string as_number field lookup units
    text_eq
parse_message-message_json m a b c d e = rw (a, b, c, d, e) refl
