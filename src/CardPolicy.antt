-- ===== src/CardPolicy.antt =====
-- apps/console/lib/tokens.ts, `CardPolicyEdit` to `cardPolicyPatch`, apps/console/lib/card-capability.ts,
-- and apps/console/components/card-policies.tsx: how an edit of a card's policy reaches the gateway.
--
-- The component is a machine over events: a control proposes an edit, the dialog confirms or drops it,
-- the gateway answers. What it was drawn with (`policies`) comes with the confirmation.
pub mod Asked
pub mod Saved
use vodoge_cloud.Prelude.{
  Bool, true, false, not, Option, none, some, List, [], ◌∷◌, ◌>>=◌, or_default, if◌then◌else◌, any,
  select,
}
use vodoge_cloud.Text.{Text, units, text_eq, is_empty, trim}
use vodoge_cloud.Catalog.Enrollment.{CardPolicyRow}

pub data CardCapabilityOperation : Type 0 where
  sms_send sms_receive carries_data voice : CardCapabilityOperation

unfoldable pub card_capability_label_key : CardCapabilityOperation → Text
unfolding units
card_capability_label_key sms_send = units "cards.capabilitySmsSend"
card_capability_label_key sms_receive = units "cards.capabilitySmsReceive"
card_capability_label_key carries_data = units "cards.capabilityData"
card_capability_label_key voice = units "cards.capabilityVoice"

pub data CardPolicyEdit : Type 0 where
  cellular : Bool → CardPolicyEdit
  vertical : Text → Text → CardPolicyEdit
  capability : CardCapabilityOperation → Option Bool → CardPolicyEdit
  add : CardPolicyEdit
  remove : CardPolicyEdit

pub data CardPolicyGuard : Type 0 where
  cellular_off cellular_on change_vertical add_policy remove_policy : CardPolicyGuard
  capability_off capability_on capability_clear : CardPolicyGuard

unfoldable pub card_policy_guard_for : CardPolicyEdit → Option CardPolicyGuard
card_policy_guard_for (cellular enabled) = some (if enabled then cellular_on else cellular_off)
card_policy_guard_for (vertical old new) = if text_eq new old then none else some change_vertical
card_policy_guard_for (capability operation (some false)) = some capability_off
card_policy_guard_for (capability operation (some true)) = some capability_on
card_policy_guard_for (capability operation none) = some capability_clear
card_policy_guard_for add = some add_policy
card_policy_guard_for remove = some remove_policy

-- A field that an edit leaves alone is `none`; a declaration that it clears is `some none`.
pub record CardPolicyPatch : Type 0 where
  pub cellular_enabled : Option Bool
  pub vertical : Option Text
  pub sms_send : Option (Option Bool)
  pub sms_receive : Option (Option Bool)
  pub carries_data : Option (Option Bool)
  pub voice : Option (Option Bool)

abbrev pub no_patch : CardPolicyPatch
no_patch = record {
  cellular_enabled = none;
  vertical = none;
  sms_send = none;
  sms_receive = none;
  carries_data = none;
  voice = none;
}

-- `{ [edit.operation]: edit.value }`
abbrev pub declaration : CardCapabilityOperation → Option Bool → CardPolicyPatch
declaration sms_send value = record no_patch { sms_send = some value }
declaration sms_receive value = record no_patch { sms_receive = some value }
declaration carries_data value = record no_patch { carries_data = some value }
declaration voice value = record no_patch { voice = some value }

-- An edit that removes the policy has no patch.
unfoldable pub card_policy_patch : CardPolicyEdit → Option CardPolicyPatch
unfolding units
card_policy_patch (cellular enabled) = some (record no_patch { cellular_enabled = some enabled })
card_policy_patch (vertical old new) = some (record no_patch { vertical = some new })
card_policy_patch (capability operation value) = some (declaration operation value)
card_policy_patch add =
    some (record no_patch { cellular_enabled = some true; vertical = some (units "cn") })
card_policy_patch remove = none

pub record PolicyBody : Type 0 where
  pub cellular_enabled : Bool
  pub vertical : Text
  pub apn : Option Text
  pub note : Text
  pub sms_send : Option Bool
  pub sms_receive : Option Bool
  pub carries_data : Option Bool
  pub voice : Option Bool

-- `edited !== undefined ? edited : (existing ?? null)`
abbrev pub declared : Option (Option Bool) → Option (Option Bool) → Option Bool
declared (some edited) existing = edited
declared none existing = or_default existing none

-- `policies.find((policy) => policy.iccid === iccid)`
unfoldable pub find_policy : Text → List CardPolicyRow → Option CardPolicyRow
find_policy iccid [] = none
find_policy iccid (policy ∷ policies) =
    let rest = find_policy iccid policies in
    if text_eq policy.iccid iccid then some policy else rest

-- `edited ?? existing ?? other`
abbrev pub patched {ℓ} : {A : Type ℓ} → Option A → Option A → A → A
patched edited existing other = or_default edited (or_default existing other)

-- No edit patches the access point or the note.
unfoldable pub save_body : CardPolicyPatch → Option CardPolicyRow → PolicyBody
unfolding units
save_body patch existing = record {
  cellular_enabled =
      patched patch.cellular_enabled (existing >>= λ row. some row.cellular_enabled) true;
  vertical = patched patch.vertical (existing >>= λ row. some row.vertical) (units "cn");
  apn = existing >>= λ row. row.apn;
  note = or_default (existing >>= λ row. some row.note) [];
  sms_send = declared patch.sms_send (existing >>= λ row. some row.sms_send);
  sms_receive = declared patch.sms_receive (existing >>= λ row. some row.sms_receive);
  carries_data = declared patch.carries_data (existing >>= λ row. some row.carries_data);
  voice = declared patch.voice (existing >>= λ row. some row.voice);
}

-- What goes to `/v1/cards/<iccid>/policy`.
pub data PolicyRequest : Type 0 where
  put_policy : Text → PolicyBody → PolicyRequest
  delete_policy : Text → PolicyRequest

pub record Pending : Type 0 where
  pub iccid : Text
  pub change : CardPolicyEdit
  pub guard : CardPolicyGuard

pub data Reply : Type 0 where
  threw : Reply
  refused : Text → Reply
  accepted : Reply

pub data Event : Type 0 where
  proposed : Text → CardPolicyEdit → Event
  confirmed : List CardPolicyRow → Event
  dropped : Event
  answered : Reply → Event

pub record Machine : Type 0 where
  pub busy : Bool
  pub error : Option Text
  pub pending : Option Pending

abbrev pub start : Machine
start = record { busy = false; error = none; pending = none }

-- `propose`, where `guard` is what the edit needs.
unfoldable pub propose : Option CardPolicyGuard → Text → CardPolicyEdit → Machine → Machine
propose none iccid change m = m
propose (some guard) iccid change m = record m {
  error = none;
  pending = some (record { iccid = iccid; change = change; guard = guard });
}

abbrev pub send : Machine → Machine
send m = record m { pending = none; busy = true; error = none }

abbrev pub request_of : Option CardPolicyPatch → Text → List CardPolicyRow → PolicyRequest
request_of none iccid policies = delete_policy iccid
request_of (some patch) iccid policies =
    put_policy iccid (save_body patch (find_policy iccid policies))

-- The dialog is drawn, and can confirm, only while an edit is pending.
unfoldable pub confirm :
    Option Pending → List CardPolicyRow → Machine → Machine × Option PolicyRequest
confirm none policies m = (m, none)
confirm (some p) policies m =
    (send m, some (request_of (card_policy_patch p.change) p.iccid policies))

-- The rest of `save` and `removePolicy`. A fetch that throws is not caught: the component stays busy.
-- `failed` is the page's own word for a failure.
unfoldable pub answer : Text → Reply → Machine → Machine
answer failed threw m = m
answer failed (refused text) m = record m {
  busy = false;
  error = some (if is_empty (trim text) then failed else trim text);
}
answer failed accepted m = record m { busy = false }

module _ (writable : Bool) (failed : Text) where
  -- The state behind an event, and what goes to the gateway on it.
  unfoldable pub step : Event → Machine → Machine × Option PolicyRequest
  step (proposed iccid change) m =
      (if writable then propose (card_policy_guard_for change) iccid change m else m, none)
  step (confirmed policies) m = if writable then confirm m.pending policies m else (m, none)
  step dropped m = (record m { pending = none }, none)
  step (answered reply) m = (answer failed reply m, none)

  -- After the events of a list, the last first.
  unfoldable pub after : List Event → Machine
  after [] = start
  after (event ∷ events) = (step event (after events)).0

-- The cards that have no policy yet, by their identifiers.
unfoldable pub unpolicied : List Text → List CardPolicyRow → List Text
unpolicied cards policies =
    select (λ iccid. not (any (λ policy. text_eq policy.iccid iccid) policies)) cards
