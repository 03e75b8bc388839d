-- ===== src/Catalog/Message.antt =====
-- apps/console/lib/catalog.ts: messages, sessions, threads and contacts.
use vodoge_cloud.Prelude.{Bool, Option, none, some, List, [], ◌++◌, ◌>>=◌ as bind}
use vodoge_cloud.Prelude.Int.{ℤ, pos}
use vodoge_cloud.Text.{Text, units}
use vodoge_cloud.Json.{
  Json, Props, field, as_record, array_of, any_string, text_at, text_or, number_at, number_or,
  true_at,
}
use vodoge_cloud.Session.{encode_uri_component}
use vodoge_cloud.Catalog.{
  Result, ok, failed, Fetch, Session, get_catalog, parsed_rows, cast_rows, ◌>>=◌,
}

pub record MessageRow : Type 0 where
  pub id : Text
  pub device_id : Text
  pub direction : Text
  pub peer : Text
  pub body : Text
  pub bearer : Text
  pub received_at : ℤ
  pub seq : ℤ

-- The body may be empty; every other field must be there, the texts not empty.
unfoldable pub parse_message : Json → Option MessageRow
parse_message value = bind (as_record (some value)) λ row. bind (text_at "id" row) λ id.
    bind (text_at "device_id" row) λ device_id. bind (text_at "direction" row) λ direction.
      bind (text_at "peer" row) λ peer. bind (any_string (field "body" row)) λ body.
        bind (text_at "bearer" row) λ bearer. bind (number_at "received_at" row) λ received_at.
          bind (number_at "seq" row) λ seq. some (record {
            id = id;
            device_id = device_id;
            direction = direction;
            peer = peer;
            body = body;
            bearer = bearer;
            received_at = received_at;
            seq = seq;
          })

unfoldable pub fetch_messages : Fetch → Session → Result (List MessageRow)
unfolding units
fetch_messages fetch_impl session = do
  body ← get_catalog fetch_impl session (units "/v1/messages")
  ok (parsed_rows parse_message "messages" body)

pub record ThreadRow : Type 0 where
  pub peer : Text
  pub name : Text
  pub device_id : Text
  pub messages : ℤ
  pub unsent : ℤ
  pub unread : ℤ
  pub last_body : Text
  pub last_at : ℤ
  pub last_inbound : Bool

unfoldable pub thread_row : Props → ThreadRow
unfolding units
thread_row row = record {
  peer = text_or [] "peer" row;
  name = text_or [] "name" row;
  device_id = text_or [] "device_id" row;
  messages = number_or (pos 0) "messages" row;
  unsent = number_or (pos 0) "unsent" row;
  unread = number_or (pos 0) "unread" row;
  last_body = text_or [] "last_body" row;
  last_at = number_or (pos 0) "last_at" row;
  last_inbound = true_at "last_inbound" row;
}

unfoldable pub fetch_threads : Fetch → Session → Result (List ThreadRow)
unfolding units
fetch_threads fetch_impl session = do
  body ← get_catalog fetch_impl session (units "/v1/messages/threads")
  cast_rows thread_row (array_of (field "threads" body))

pub record ContactRow : Type 0 where
  pub peer : Text
  pub name : Text
  pub note : Text
  pub updated_at : ℤ

unfoldable pub contact_row : Props → ContactRow
unfolding units
contact_row row = record {
  peer = text_or [] "peer" row;
  name = text_or [] "name" row;
  note = text_or [] "note" row;
  updated_at = number_or (pos 0) "updated_at" row;
}

unfoldable pub fetch_contacts : Fetch → Session → Result (List ContactRow)
unfolding units
fetch_contacts fetch_impl session = do
  body ← get_catalog fetch_impl session (units "/v1/messages/contacts")
  cast_rows contact_row (array_of (field "contacts" body))

pub record ThreadMessage : Type 0 where
  pub id : Text
  pub device_id : Text
  pub direction : Text
  pub peer : Text
  pub body : Text
  pub bearer : Text
  pub encoding : Text
  pub iccid : Option Text
  pub status : Text
  pub received_at : ℤ
  pub delivered_at : Option ℤ
  pub read_at : Option ℤ
  pub failure_reason : Option Text

unfoldable pub thread_message : Props → ThreadMessage
unfolding units
thread_message row = record {
  id = text_or [] "id" row;
  device_id = text_or [] "device_id" row;
  direction = text_or [] "direction" row;
  peer = text_or [] "peer" row;
  body = text_or [] "body" row;
  bearer = text_or [] "bearer" row;
  encoding = text_or (units "unknown") "encoding" row;
  iccid = text_at "iccid" row;
  status = text_or [] "status" row;
  received_at = number_or (pos 0) "received_at" row;
  delivered_at = number_at "delivered_at" row;
  read_at = number_at "read_at" row;
  failure_reason = text_at "failure_reason" row;
}

-- `encodeURIComponent` throws at a lone surrogate, before anything is fetched.
unfoldable pub fetch_thread : Fetch → Session → Text → Result (List ThreadMessage)
unfolding units
fetch_thread fetch_impl session peer = elim (encode_uri_component peer) [
  | none ↦ failed
  | some encoded ↦
      get_catalog fetch_impl session (units "/v1/messages/thread?peer=" ++ encoded) >>= λ body.
      cast_rows thread_message (array_of (field "messages" body))
]
