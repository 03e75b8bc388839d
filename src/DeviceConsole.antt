-- ===== src/DeviceConsole.antt =====
-- apps/console/components/device-console.tsx, `useDeviceCommands` and what it stands on: how a control
-- of the device page reaches the gateway.
--
-- The hook is a machine over events. An event sees the state that the last one left: two calls between
-- two renderings, which would share what the first saw, are not modelled. The selected module is an
-- argument of an event, for it may have moved since the last. What is left of a page that is gone is not
-- modelled.
pub mod Answered
pub mod Body
use vodoge_cloud.Prelude.{
  Bool, true, false, ◌&&◌, ◌||◌, not, Option, none, some, List, [], ◌∷◌, ◌++◌, ◌>>=◌, any,
  filter_map, or_default, if◌then◌else◌,
}
use vodoge_cloud.Prelude.Int.{ℤ, pos}
use vodoge_cloud.Text.{Text, units, text_eq, is_empty, trim}
use vodoge_cloud.Json.{
  Json, bool, str, arr, num, Number, finite, Props, prop, end, Items, elements, field, as_record,
  any_string, text_of,
}
use vodoge_cloud.Settings.{put}
use vodoge_cloud.Guards.{CommandGuard}
use vodoge_cloud.Guards.Table.{device_command_guard}

pub record CommandRow : Type 0 where
  pub id : Text
  pub kind : Text
  pub status : Text
  pub issued_at : ℤ
  pub completed_at : Option ℤ
  pub payload : Option Props
  pub result : Option Json

unfoldable pub is_terminal : Text → Bool
unfolding units
is_terminal status = any (text_eq status) (
    units "succeeded" ∷ units "failed" ∷ units "expired" ∷ units "cancelled" ∷ units "unknown" ∷ [])

-- Polling goes on while this holds.
unfoldable pub is_outstanding : List CommandRow → Bool
is_outstanding commands = any (λ row. not (is_terminal row.status)) commands

unfoldable pub is_register_write : Text → Bool
unfolding units
is_register_write kind = any (text_eq kind) (
    units "create_modem"
    ∷ units "register_modem"
    ∷ units "unregister_modem"
    ∷ units "update_modem"
    ∷ units "claim_modem_candidate"
    ∷ units "revoke_modem_candidate"
    ∷ [])

-- The buttons of the danger zone, and what they send: `TURNS_OFF[kind] ?? {}`.
unfoldable pub disruptive : List Text
unfolding units
disruptive =
    units "restart_modem"
    ∷ units "reset_modem_usb"
    ∷ units "scan_operators"
    ∷ units "rotate_ip"
    ∷ units "set_radio"
    ∷ units "set_data_network"
    ∷ units "reregister_network"
    ∷ units "unregister_modem"
    ∷ []

unfoldable pub turns_off : Text → Props
unfolding units
turns_off kind =
    if text_eq kind (units "set_radio") || text_eq kind (units "set_data_network")
    then prop (units "enabled") (bool false) end
    else end

-- A command waiting for the operator to answer for it.
pub record Pending : Type 0 where
  pub kind : Text
  pub extra : Props
  pub consequence : Text
  pub title : Text

-- `{ ...base, ...extra }`
unfoldable pub spread : Props → Props → Props
spread end base = base
spread (prop key value ps) base = spread ps (put key value base)

-- What the guard is asked about.
unfoldable pub payload_of : Text → Props → Props
unfolding units
payload_of imei extra = spread extra (prop (units "modem_imei") (str imei) end)

-- A command on its way to the gateway.
pub record Command : Type 0 where
  pub imei : Text
  pub kind : Text
  pub extra : Props

unfoldable pub body_of : Text → Command → Props
unfolding units
body_of device_id command = spread command.extra (
    prop (units "device_id") (str device_id)
      (prop (units "kind") (str command.kind) (prop (units "modem_imei") (str command.imei) end)))

-- `labels[kind] ?? kind`, where `labels` is the object's look-up.
abbrev pub command_label : (Text → Option Text) → Text → Text
command_label labels kind = or_default (labels kind) kind

unfoldable pub confirmation_title :
    (Json → Text) → (Text → Option Text) → Text → Props → Text → Text
unfolding units
confirmation_title show labels kind extra imei =
    let target = or_default (any_string (field "modem_imei" extra)) imei in
    let what =
      if text_eq kind (units "run_at_command")
      then text_of show (field "command" extra)
      else command_label labels kind in
    if is_empty target then what else what ++ (units " — " ++ target)

-- What `refresh` meets: an exception, an answer that is not ok, or the rows.
pub data Refresh : Type 0 where
  broken : Refresh
  unread : Refresh
  rows : List CommandRow → Refresh

-- What `runNow` meets: an exception, a refusal with its text, or an accepted command and the refresh.
pub data Reply : Type 0 where
  threw : Reply
  refused : Text → Reply
  accepted : Refresh → Reply

pub data Event : Type 0 where
  requested : Text → Text → Props → Event
  proceeded : Text → Event
  cancelled : Event
  settled : Text → Reply → Event
  polled : Refresh → Event

pub record Machine : Type 0 where
  pub commands : List CommandRow
  pub busy : Bool
  pub error : Option Text
  pub pending : Option Pending

abbrev pub start : Machine
start = record { commands = []; busy = false; error = none; pending = none }

abbrev pub refreshed : Refresh → Machine → Machine
refreshed (rows commands) m = record m { commands = commands }
refreshed _ m = m

-- The first lines of `runNow`, up to its `fetch`.
abbrev pub run_now : Machine → Machine
run_now m = record m { busy = true; error = none }

-- The rest of it. `failed` is the page's own word for a failure.
unfoldable pub settle : Text → Reply → Machine → Machine
settle failed threw m = record m { error = some failed; busy = false }
settle failed (refused text) m = record m {
  error = some (if is_empty (trim text) then failed else trim text);
  busy = false;
}
settle failed (accepted broken) m = record m { error = some failed; busy = false }
settle failed (accepted refresh) m = record (refreshed refresh m) { busy = false }

-- Whether the server draws the page again, `router.refresh()`.
unfoldable pub is_redrawn : Text → Reply → Bool
is_redrawn kind (accepted broken) = false
is_redrawn kind (accepted refresh) = is_register_write kind
is_redrawn kind reply = false

unfoldable pub consequence_of : (Json → Text) → Text → Text → Props → Option Text
consequence_of show imei kind extra =
    (device_command_guard show kind (payload_of imei extra)).consequence

module _ (show : Json → Text) (labels : Text → Option Text) (failed : Text) where
  -- `request`: send at once, or ask first.
  unfoldable pub request : Option Text → Text → Text → Props → Machine → Machine × Option Command
  request none imei kind extra m =
      (run_now m, some (record { imei = imei; kind = kind; extra = extra }))
  request (some consequence) imei kind extra m = (
    record m {
      pending = some (record {
        kind = kind;
        extra = extra;
        consequence = consequence;
        title = confirmation_title show labels kind extra imei;
      });
    },
    none,
  )

  unfoldable pub proceed : Option Pending → Text → Machine → Machine × Option Command
  proceed none imei m = (m, none)
  proceed (some p) imei m = (
    run_now (record m { pending = none }),
    some (record { imei = imei; kind = p.kind; extra = p.extra }),
  )

  -- The state behind an event, and what goes to the gateway on it.
  unfoldable pub step : Event → Machine → Machine × Option Command
  step (requested imei kind extra) m =
      request (consequence_of show imei kind extra) imei kind extra m
  step (proceeded imei) m = proceed m.pending imei m
  step cancelled m = (record m { pending = none }, none)
  step (settled kind reply) m = (settle failed reply m, none)
  step (polled refresh) m = (refreshed refresh m, none)

  -- After the events of a list, the last first.
  unfoldable pub after : List Event → Machine
  after [] = start
  after (event ∷ events) = (step event (after events)).0

pub record LogLine : Type 0 where
  pub at : Number
  pub text : Text

-- `typeof row.at === "number" ? row.at : 0`
abbrev pub number_or_zero : Option Json → Number
number_or_zero (some (num n)) = n
number_or_zero _ = finite (pos 0)

unfoldable pub log_line : Json → Option LogLine
log_line entry = as_record (some entry) >>= λ row. any_string (field "text" row) >>= λ text.
    some (record { at = number_or_zero (field "at" row); text = text })

abbrev pub items_in : Option Json → Option (List Json)
items_in (some (arr vs)) = some (elements vs)
items_in _ = none

unfoldable pub agent_log_lines : Option Json → Option (List LogLine)
agent_log_lines details = as_record details >>= λ row.
    items_in (field "lines" row) >>= λ lines. some (filter_map log_line lines)
