-- ===== src/Tests/Esim.antt =====
-- Chips, profiles and failures on concrete rows.
use vodoge_cloud.Prelude.{arith, ◌≡◌, refl, true, false, none, some, List, [], ◌∷◌, ◌++◌, All, Any}
use vodoge_cloud.Prelude.Int.{ℤ, pos, ◌-ℤ◌}
use vodoge_cloud.Text.{Text, units, text_eq, is_empty, includes, starts_with}
use vodoge_cloud.Json.{
  lookup, str, prop, end, field, as_record, as_string, as_boolean, as_number, any_string,
}
use vodoge_cloud.Assoc.{get, set, values}
use vodoge_cloud.Assoc.Newest.{keep, collect}
use vodoge_cloud.Esim.{EsimProfileRow, inventory, read, parse_esim_info_result}
use vodoge_cloud.Esim.Reads.{EsimCommandRow, insert, sort, is_chip_command}
use vodoge_cloud.Esim.Merge.{
  esim_state_rank, keyed_profile, profile_order, merge_esim_profiles, merge_batch, merge_batches,
  merge_command_batches,
}
use vodoge_cloud.Esim.Merge.Batches.{IsDistinct, joined, merge_command_batches-IsDistinct}
use vodoge_cloud.Esim.Merge.Apart.{IsPairwise, IsSlashless}
use vodoge_cloud.Esim.Merge.Profiles.{IsRowOf, IsCovered, IsApart, merge_esim_profiles-covers}
use vodoge_cloud.Esim.Failures.{
  no_euicc, refused_isdr_channel, note_known, known_of, on_success, failure_of, on_failure, attempt,
  read_row, read_rows, is_broken_now, with_cause, esim_read_failures,
}
use vodoge_cloud.Esim.Failures.Current.{IsCurrent, esim_read_failures-IsCurrent}

-- A collation that orders texts by their first unit.
abbrev by_first : Text → Text → ℤ
by_first [] t = pos 0
by_first (a ∷ s) [] = pos 1
by_first (a ∷ s) (b ∷ t) = pos a -ℤ pos b

abbrev stored : EsimProfileRow
stored = record {
  eid = units "e";
  iccid = units "1";
  state = units "deleted";
  nickname = none;
  modem_imei = some (units "m");
  collected_at = pos 5;
  source = inventory;
}

abbrev reread : EsimProfileRow
reread = record stored { state = units "enabled"; source = read }

abbrev other : EsimProfileRow
other = record stored { iccid = units "2" }

abbrev refusal : EsimCommandRow
refusal = record {
  kind = units "read_esim_info";
  status = units "failed";
  completed_at = some (pos 7);
  payload = some (prop (units "modem_imei") (str (units "n")) end);
  result =
      some (record {
        status = none;
        reason = some (units "Open ISD-R channel: 6A82");
        details = none;
      });
}

abbrev success : EsimCommandRow
success = record refusal { status = units "succeeded"; completed_at = some (pos 8) }

esim : Unit {0}
unfolding units text_eq includes starts_with field lookup as_record as_string as_boolean as_number
    any_string get set values keep collect parse_esim_info_result insert sort is_chip_command
    esim_state_rank keyed_profile profile_order merge_esim_profiles merge_batch merge_batches
    merge_command_batches refused_isdr_channel note_known known_of on_success failure_of on_failure
    attempt read_row read_rows is_broken_now with_cause esim_read_failures ◌-ℤ◌
esim = tt

-- A tie goes to the reading, and what is on the chip comes first.
reading_wins :
    merge_esim_profiles by_first (other ∷ stored ∷ []) (reread ∷ []) ≡ reread ∷ other ∷ []
unfolding esim
reading_wins = refl

-- A refused channel on a module with no history is no fault, and a later success silences it.
refusal_is_no_euicc :
    esim_read_failures by_first (refusal ∷ []) (stored ∷ [])
    ≡ record (failure_of (units "n") refusal) { cause = no_euicc } ∷ []
unfolding esim
refusal_is_no_euicc = refl

success_silences : esim_read_failures by_first (refusal ∷ success ∷ []) (stored ∷ []) ≡ []
unfolding esim
success_silences = refl

abbrev batches : List (List Text)
batches = (units "a" ∷ units "b" ∷ []) ∷ (units "b" ∷ units "c" ∷ []) ∷ []

abbrev itself : Text → Text
itself id = id

each_once : merge_command_batches itself batches ≡ units "a" ∷ units "b" ∷ units "c" ∷ []
unfolding esim
each_once = refl

merge_command_batches-IsDistinct_example :
    IsDistinct itself (merge_command_batches itself batches)
    × All (λ o. Any (λ r. r ≡ o) (joined itself batches)) (merge_command_batches itself batches)
    × All
        (λ r.
          Any (λ o. text_eq (itself r) (itself o) ≡ true) (merge_command_batches itself batches))
        (joined itself batches)
merge_command_batches-IsDistinct_example = merge_command_batches-IsDistinct itself batches

plain_chips : All (λ row. IsSlashless row.eid) ((other ∷ stored ∷ []) ++ (reread ∷ []))
unfolding units
plain_chips = (
  (λ e. absurd (ground arith), tt),
  ((λ e. absurd (ground arith), tt), ((λ e. absurd (ground arith), tt), tt)),
)

merge_esim_profiles-covers_example :
    All
      (IsRowOf ((other ∷ stored ∷ []) ++ (reread ∷ [])))
      (merge_esim_profiles by_first (other ∷ stored ∷ []) (reread ∷ []))
    × IsPairwise IsApart (merge_esim_profiles by_first (other ∷ stored ∷ []) (reread ∷ []))
    × All
        (λ row.
          is_empty row.eid ≡ false
          → is_empty row.iccid ≡ false
          → IsCovered (merge_esim_profiles by_first (other ∷ stored ∷ []) (reread ∷ [])) row)
        ((other ∷ stored ∷ []) ++ (reread ∷ []))
merge_esim_profiles-covers_example =
    merge_esim_profiles-covers by_first (other ∷ stored ∷ []) (reread ∷ []) plain_chips

esim_read_failures-IsCurrent_example :
    All
      (IsCurrent (refusal ∷ []) (stored ∷ []))
      (esim_read_failures by_first (refusal ∷ []) (stored ∷ []))
esim_read_failures-IsCurrent_example =
    esim_read_failures-IsCurrent by_first (refusal ∷ []) (stored ∷ [])
