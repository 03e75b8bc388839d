-- ===== src/Esim/Switch.antt =====
-- apps/console/lib/tokens.ts, `esimSwitchVerdict`: whether a read of the chip agrees with a switch.
pub mod Verdict
use vodoge_cloud.Prelude.{
  Bool, true, false, ◌&&◌, Option, none, some, List, ◌>>=◌, or_default, if◌then◌else◌,
}
use vodoge_cloud.Prelude.Int.{ℤ, pos, ltb_ℤ}
use vodoge_cloud.Text.{Text, units, text_eq, is_empty}
use vodoge_cloud.Json.{Json, Props, field, any_string, text_of}
use vodoge_cloud.Newest.{only, newest_from}

pub data EsimSwitchState : Type 0 where
  unverified confirmed contradicted : EsimSwitchState

pub record EsimSwitchVerdict : Type 0 where
  pub target_iccid : Text
  pub modem_imei : Option Text
  pub state : EsimSwitchState
  pub read_at : Option ℤ
  pub observed : Option Text

pub record SwitchCommand : Type 0 where
  pub kind : Text
  pub status : Text
  pub completed_at : Option ℤ
  pub payload : Option Props

pub record ObservedProfile : Type 0 where
  pub iccid : Text
  pub state : Text
  pub collected_at : ℤ

unfoldable pub is_switch : SwitchCommand → Bool
unfolding units
is_switch row =
    text_eq row.kind (units "switch_esim_profile") && text_eq row.status (units "succeeded")

-- `row.completed_at ?? 0`
abbrev pub switched_at : SwitchCommand → ℤ
switched_at row = or_default row.completed_at (pos 0)

unfoldable pub newest_switch : List SwitchCommand → Option SwitchCommand
newest_switch commands = newest_from switched_at (only is_switch) none commands

-- `String(newest.payload?.target_iccid ?? "")`
unfoldable pub target_of : (Json → Text) → SwitchCommand → Text
target_of show newest = text_of show (newest.payload >>= λ payload. field "target_iccid" payload)

-- A read of the profile that was asked for, taken after the switch.
unfoldable pub is_read_after : Text → ℤ → ObservedProfile → Bool
is_read_after target at profile = text_eq profile.iccid target && ltb_ℤ at profile.collected_at

unfoldable pub latest_read : Text → ℤ → List ObservedProfile → Option ObservedProfile
latest_read target at observed =
    newest_from (λ profile. profile.collected_at) (only (is_read_after target at)) none observed

unfoldable pub state_of : Option ObservedProfile → EsimSwitchState
unfolding units
state_of none = unverified
state_of (some latest) = if text_eq latest.state (units "enabled") then confirmed else contradicted

unfoldable pub verdict_of : (Json → Text) → SwitchCommand → List ObservedProfile → EsimSwitchVerdict
verdict_of show newest observed =
    let latest = latest_read (target_of show newest) (switched_at newest) observed in
    record {
      target_iccid = target_of show newest;
      modem_imei = newest.payload >>= λ payload. any_string (field "modem_imei" payload);
      state = state_of latest;
      read_at = latest >>= λ profile. some profile.collected_at;
      observed = latest >>= λ profile. some profile.state;
    }

unfoldable pub esim_switch_verdict :
    (Json → Text) → List SwitchCommand → List ObservedProfile → Option EsimSwitchVerdict
esim_switch_verdict show commands observed = newest_switch commands >>= λ newest.
    if is_empty (target_of show newest) then none else some (verdict_of show newest observed)
