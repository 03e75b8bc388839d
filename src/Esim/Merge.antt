-- ===== src/Esim/Merge.antt =====
-- apps/console/lib/catalog.ts, `mergeEsimProfiles` and `mergeCommandBatches`.
pub mod Apart
pub mod Batches
pub mod Profiles
use vodoge_cloud.Prelude.{
  zero, suc, Bool, true, false, ◌||◌, Option, none, some, List, [], ◌∷◌, ◌++◌, any, if◌then◌else◌,
}
use vodoge_cloud.Prelude.Int.{ℤ, pos, negsuc, ltb_ℤ, ◌-ℤ◌}
use vodoge_cloud.Text.{Text, units, text_eq, is_empty}
use vodoge_cloud.Assoc.{values}
use vodoge_cloud.Assoc.Newest.{collect}
use vodoge_cloud.Esim.{EsimProfileRow}
use vodoge_cloud.Esim.Reads.{sort}

unfoldable pub esim_state_rank : Text → ℤ
unfolding units
esim_state_rank state =
    if text_eq state (units "enabled")
    then pos 0
    else if text_eq state (units "disabled")
    then pos 1
    else if text_eq state (units "deleted")
    then pos 2
    else pos 3

-- `${row.eid}/${row.iccid}`
abbrev pub profile_key : EsimProfileRow → Text
profile_key row = row.eid ++ b'/' ∷ row.iccid

unfoldable pub keyed_profile : EsimProfileRow → Option (Text × EsimProfileRow)
keyed_profile row =
    if is_empty row.eid || is_empty row.iccid then none else some (profile_key row, row)

-- `existing.collectedAt > row.collectedAt`
abbrev pub is_older_profile : EsimProfileRow → EsimProfileRow → Bool
is_older_profile row existing = ltb_ℤ row.collected_at existing.collected_at

-- `left || right` on the results of comparisons
abbrev pub or_next : ℤ → ℤ → ℤ
or_next (pos zero) next = next
or_next (pos (suc n)) next = pos (suc n)
or_next (negsuc n) next = negsuc n

module _ (locale : Text → Text → ℤ) where
  unfoldable pub profile_order : EsimProfileRow → EsimProfileRow → ℤ
  profile_order left right = or_next (locale left.eid right.eid) (
      or_next (esim_state_rank left.state -ℤ esim_state_rank right.state)
        (locale left.iccid right.iccid))

  unfoldable pub merge_esim_profiles :
      List EsimProfileRow → List EsimProfileRow → List EsimProfileRow
  merge_esim_profiles inventory from_reads =
      sort profile_order
        (values (collect keyed_profile is_older_profile (inventory ++ from_reads) []))

-- `seen.has(id)`, for a set as the list of its members
abbrev pub has : Text → List Text → Bool
has id seen = any (text_eq id) seen

module _ {T : Type 0} (id : T → Text) where
  -- One batch: the rows that go out, and what is seen by then.
  unfoldable pub merge_batch : List Text → List T → List T × List Text
  merge_batch seen [] = ([], seen)
  merge_batch seen (row ∷ rows) =
      let (out, seen') = merge_batch (if has (id row) seen then seen else id row ∷ seen) rows in
      (if has (id row) seen then out else row ∷ out, seen')

  unfoldable pub merge_batches : List Text → List (List T) → List T
  merge_batches seen [] = []
  merge_batches seen (batch ∷ batches) =
      let (out, seen') = merge_batch seen batch in out ++ merge_batches seen' batches

  unfoldable pub merge_command_batches : List (List T) → List T
  merge_command_batches batches = merge_batches [] batches
