-- ===== src/SmsSafety.antt =====
-- apps/console/lib/sms-safety.ts: the modules that no message is sent from, and the hold on sending.
-- An IMEI named like a property of `Object.prototype` is not modelled.
pub mod Laws
use vodoge_cloud.Prelude.{Bool, not, Option, none, some, List, [], ◌∷◌, filter_map, if◌then◌else◌}
use vodoge_cloud.Text.{Text, units, text_eq}

pub record BlockedEntry : Type 0 where
  pub why : Text
  pub cost : Text

pub record SmsBlockedModule : Type 0 where
  pub imei : Text
  pub why : Text
  pub cost : Text

-- `table[imei]`
unfoldable pub sms_blocked_modules : Text → Option BlockedEntry
unfolding units
sms_blocked_modules imei =
    if text_eq imei (units "867018069509705")
    then some (record { why = units "inbox.smsBlockedWhy"; cost = units "inbox.smsBlockedCost" })
    else none

-- What of a modem the form reads.
pub record SendModem : Type 0 where
  pub device_id : Text
  pub imei : Text

-- One turn of the loop.
unfoldable pub blocked_module : Text → SendModem → Option SmsBlockedModule
blocked_module device_id modem =
    if not (text_eq modem.device_id device_id)
    then none
    else elim (sms_blocked_modules modem.imei) [
      | none ↦ none
      | some entry ↦ some (record { imei = modem.imei; why = entry.why; cost = entry.cost })
    ]

unfoldable pub blocked_send_modules : List SendModem → Text → List SmsBlockedModule
blocked_send_modules modems device_id = filter_map (blocked_module device_id) modems

-- The answer null is `none` of an `Option`.
pub data SendHold : Type 0 where
  blocked_module_hold : SendHold
  modules_unknown : SendHold

unfoldable pub send_hold : Bool → List SmsBlockedModule → Option SendHold
send_hold modems_known (m ∷ blocked) = some blocked_module_hold
send_hold modems_known [] = if not modems_known then some modules_unknown else none
