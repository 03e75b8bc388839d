-- ===== src/Tests/Switch.antt =====
-- The verdict on a switch and what is broken now, on concrete commands.
use vodoge_cloud.Prelude.{◌≡◌, refl, none, some, [], ◌∷◌}
use vodoge_cloud.Prelude.Int.{pos}
use vodoge_cloud.Text.{Text, units, text_eq}
use vodoge_cloud.Json.{Json, str, prop, end, lookup, field, any_string, to_text}
use vodoge_cloud.Newest.{newest_from, IsLatest}
use vodoge_cloud.Pattern.{star_rests, flat_map, rests, matches_at_start}
use vodoge_cloud.Esim.Switch.{
  SwitchCommand, ObservedProfile, EsimSwitchVerdict, is_switch, switched_at, newest_switch,
  target_of, is_read_after, latest_read, state_of, verdict_of, esim_switch_verdict, confirmed,
  unverified,
}
use vodoge_cloud.Esim.Switch.Verdict.{IsSupported, esim_switch_verdict-IsSupported}
use vodoge_cloud.Esim.Reads.{EsimCommandRow}
use vodoge_cloud.Esim.Panel.{
  note_attempt, note_attempts, unless_mended, newest_failure_after_success,
}
use vodoge_cloud.Esim.Panel.Broken.{broken_now, newest_failure_after_success-broken_now}

abbrev show : Json → Text
show v = []

abbrev switch : SwitchCommand
switch = record {
  kind = units "switch_esim_profile";
  status = units "succeeded";
  completed_at = some (pos 5);
  payload = some (prop (units "target_iccid") (str (units "89")) end);
}

abbrev seen : ObservedProfile
seen = record { iccid = units "89"; state = units "enabled"; collected_at = pos 6 }

abbrev verdict : EsimSwitchVerdict
verdict = record {
  target_iccid = units "89";
  modem_imei = none;
  state = confirmed;
  read_at = some (pos 6);
  observed = some (units "enabled");
}

switches : Unit {0}
unfolding units text_eq lookup field any_string to_text newest_from is_switch newest_switch
    target_of is_read_after latest_read state_of verdict_of esim_switch_verdict note_attempt
    note_attempts unless_mended newest_failure_after_success star_rests flat_map rests
    matches_at_start
switches = tt

switch_confirmed : esim_switch_verdict show (switch ∷ []) (seen ∷ []) ≡ some verdict
unfolding switches
switch_confirmed = refl

-- A read from before the switch says nothing about it.
abbrev stale : ObservedProfile
stale = record seen { collected_at = pos 5 }

switch_unverified :
    esim_switch_verdict show (switch ∷ []) (stale ∷ [])
    ≡ some (record verdict { state = unverified; read_at = none; observed = none })
unfolding switches
switch_unverified = refl

esim_switch_verdict-IsSupported_example :
    (newest : SwitchCommand) × IsLatest is_switch switched_at newest (switch ∷ [])
    × (verdict.target_iccid ≡ target_of show newest)
    × IsSupported newest (seen ∷ []) verdict
esim_switch_verdict-IsSupported_example =
    esim_switch_verdict-IsSupported show (switch ∷ []) (seen ∷ []) verdict switch_confirmed

abbrev failure : EsimCommandRow
failure = record {
  kind = units "read_esim_info";
  status = units "failed";
  completed_at = some (pos 7);
  payload = none;
  result = none;
}

abbrev success : EsimCommandRow
success = record failure { status = units "succeeded"; completed_at = some (pos 8) }

still_broken : newest_failure_after_success (failure ∷ []) (units "read_esim_info") ≡ some failure
unfolding switches
still_broken = refl

mended : newest_failure_after_success (success ∷ failure ∷ []) (units "read_esim_info") ≡ none
unfolding switches
mended = refl

newest_failure_after_success-broken_now_example :
    newest_failure_after_success (success ∷ failure ∷ []) (units "read_esim_info")
    ≡ broken_now (success ∷ failure ∷ []) (units "read_esim_info")
newest_failure_after_success-broken_now_example =
    newest_failure_after_success-broken_now (success ∷ failure ∷ []) (units "read_esim_info")

-- \d*$
