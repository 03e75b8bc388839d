-- ===== src/Esim/Merge/Profiles.antt =====
-- What the merged table of profiles has (apps/console/lib/catalog.ts, `mergeEsimProfiles`).
use vodoge_cloud.Prelude.{
  ◌≡◌, ◌≢◌, refl, sym, ap, ◌∙◌, subst, ◌⊎◌, inl, inr, false, ◌||◌, some, List, [], ◌∷◌, ◌++◌, All,
  Any, arith, Bool-cases,
}
use vodoge_cloud.Prelude.Int.{ℤ, pos, ltb_ℤ, ◌≤ℤ◌}
use vodoge_cloud.Text.{Text, is_empty}
use vodoge_cloud.Assoc.{values}
use vodoge_cloud.Assoc.Newest.{collect, values-collect, collect-newest, All-map, All-Any, IsOrdered}
use vodoge_cloud.Esim.{EsimProfileRow}
use vodoge_cloud.Esim.Reads.{insert, sort}
use vodoge_cloud.Esim.Merge.Apart.{
  IsPairwise, sort-All, sort-IsPairwise, IsFiled, collect-IsFiled, IsFiled-apart, IsSlashless,
  key_parts,
}
use vodoge_cloud.Esim.Merge.{
  profile_key, keyed_profile, is_older_profile, profile_order, merge_esim_profiles,
}

-- Sorting keeps what holds of some row.
module _ {V : Type 0} (order : V → V → ℤ) (P : V → Type 0) where
  insert-Any : (v : V) (ws : List V) → P v ⊎ Any P ws → Any P (insert order v ws)
  unfolding insert
  insert-Any v [] h = h
  insert-Any v (w ∷ ws) h = elim (Bool-cases (ltb_ℤ (pos 0) (order v w))) [
    | inl behind ↦ rw (behind) (elim h [
      | inl p ↦ inr (insert-Any v ws (inl p))
      | inr (inl q) ↦ inl q
      | inr (inr r) ↦ inr (insert-Any v ws (inr r))
    ])
    | inr before ↦ rw (before) h
  ]

  pub sort-Any : (vs : List V) → Any P vs → Any P (sort order vs)
  unfolding sort
  sort-Any [] h = elim h [ ]
  sort-Any (v ∷ vs) (inl p) = insert-Any v (sort order vs) (inl p)
  sort-Any (v ∷ vs) (inr h) = insert-Any v (sort order vs) (inr (sort-Any vs h))

is_older_profile-IsOrdered : IsOrdered (λ row. row.collected_at) is_older_profile
is_older_profile-IsOrdered = (λ v e h. ground arith, λ v e h. ground arith)

keyed_profile-some :
    (row : EsimProfileRow) (k : Text) (v : EsimProfileRow)
    → keyed_profile row ≡ some (k, v)
    → (v ≡ row) × (profile_key v ≡ k) × (is_empty v.eid ≡ false) × (is_empty v.iccid ≡ false)
unfolding keyed_profile
keyed_profile-some row k v e = elim (Bool-cases (is_empty row.eid || is_empty row.iccid)) [
  | inl missing ↦ absurd (ground arith)
  | inr named ↦
      let key : profile_key row ≡ k = ground arith in
      let same : row ≡ v = ground arith in
      (
        sym same,
        ap profile_key (sym same) ∙ key,
        subst (λ x. is_empty x.eid ≡ false) same (ground arith),
        subst (λ x. is_empty x.iccid ≡ false) same (ground arith),
      )
]

keyed_profile-named :
    (row : EsimProfileRow)
    → is_empty row.eid ≡ false
    → is_empty row.iccid ≡ false
    → keyed_profile row ≡ some (profile_key row, row)
unfolding keyed_profile
keyed_profile-named row a b = rw (a, b) refl

-- The table is a selection of the named rows.
abbrev pub IsRowOf : List EsimProfileRow → EsimProfileRow → Type 0
IsRowOf rows w = Any (λ x. x ≡ w) rows × (is_empty w.eid ≡ false) × (is_empty w.iccid ≡ false)

-- The table has a row of the same profile of the same chip that was not collected earlier.
abbrev pub IsCovered : List EsimProfileRow → EsimProfileRow → Type 0
IsCovered table row =
    (w : EsimProfileRow) × Any (λ x. x ≡ w) table
    × (w.eid ≡ row.eid)
    × (w.iccid ≡ row.iccid)
    × (row.collected_at ≤ℤ w.collected_at)

-- The rows are of different profiles: two of one chip differ in the ICCID.
abbrev pub IsApart : EsimProfileRow → EsimProfileRow → Type 0
IsApart v w = ¬ ((v.eid ≡ w.eid) × (v.iccid ≡ w.iccid))

IsPairwise-map :
    {V : Type 0} (R S : V → V → Type 0)
    → ((v w : V) → R v w → S v w)
    → (vs : List V) → IsPairwise R vs
    → IsPairwise S vs
IsPairwise-map R S f [] h = tt
IsPairwise-map R S f (v ∷ vs) (p, h) = (All-map (f v) vs p, IsPairwise-map R S f vs h)

All-member :
    {V : Type 0} (P : V → Type 0) (vs : List V) (w : V) → All P vs → Any (λ x. x ≡ w) vs → P w
All-member P [] w h k = elim k [ ]
All-member P (v ∷ vs) w (p, h) (inl same) = subst P same p
All-member P (v ∷ vs) w (p, h) (inr k) = All-member P vs w h k

different : (v w : EsimProfileRow) → profile_key v ≢ profile_key w → IsApart v w
different v w apart (eid, iccid) =
    apart (ap (λ e. e ++ b'/' ∷ v.iccid) eid ∙ ap (λ i. w.eid ++ b'/' ∷ i) iccid)

All-both :
    {V : Type 0} {P Q S : V → Type 0}
    → ((v : V) → P v → Q v → S v)
    → (vs : List V) → All P vs
    → All Q vs
    → All S vs
All-both f [] p q = tt
All-both f (v ∷ vs) (p, ps) (q, qs) = (f v p q, All-both f vs ps qs)

is_row_of :
    (locale : Text → Text → ℤ) (inventory from_reads : List EsimProfileRow)
    → All (IsRowOf (inventory ++ from_reads)) (merge_esim_profiles locale inventory from_reads)
unfolding merge_esim_profiles values
is_row_of locale inventory from_reads =
    let rows = inventory ++ from_reads in
    sort-All (profile_order locale) (IsRowOf rows)
      (values (collect keyed_profile is_older_profile rows []))
      (values-collect keyed_profile is_older_profile (IsRowOf rows) rows []
        (All-map
          (λ row is k v e.
            let (same, _, a, b) = keyed_profile-some row k v e in
            (subst (λ z. Any (λ x. x ≡ z) rows) (sym same) is, a, b))
          rows (All-Any rows))
        tt)

is_apart :
    (locale : Text → Text → ℤ) (inventory from_reads : List EsimProfileRow)
    → IsPairwise IsApart (merge_esim_profiles locale inventory from_reads)
unfolding merge_esim_profiles IsFiled
is_apart locale inventory from_reads =
    let m = collect keyed_profile is_older_profile (inventory ++ from_reads) [] in
    let filed : IsFiled profile_key m =
      collect-IsFiled profile_key keyed_profile is_older_profile
        (λ row k v e. (keyed_profile-some row k v e).1) (inventory ++ from_reads) [] tt in
    sort-IsPairwise (profile_order locale) IsApart
      (λ v w apart (eid, iccid). apart (sym eid, sym iccid)) (values m)
      (IsPairwise-map (λ v w. profile_key v ≢ profile_key w) IsApart different (values m)
        (IsFiled-apart profile_key m filed))

keyed_cover :
    (locale : Text → Text → ℤ) (inventory from_reads : List EsimProfileRow)
    → All
        (λ row.
          is_empty row.eid ≡ false
          → is_empty row.iccid ≡ false
          → (w : EsimProfileRow) × Any
              (λ x. x ≡ w)
              (merge_esim_profiles locale inventory from_reads)
            × (profile_key w ≡ profile_key row)
            × (row.collected_at ≤ℤ w.collected_at))
        (inventory ++ from_reads)
unfolding merge_esim_profiles
keyed_cover locale inventory from_reads =
    let rows = inventory ++ from_reads in
    All-map
      (λ row h a b.
        let (w, there, key, newer) = h (profile_key row) row (keyed_profile-named row a b) in
        (
          w,
          sort-Any (profile_order locale) (λ x. x ≡ w)
              (values (collect keyed_profile is_older_profile rows [])) there,
          key,
          newer,
        ))
      rows
      (collect-newest keyed_profile is_older_profile (λ row. row.collected_at)
        (λ k v. profile_key v ≡ k) is_older_profile-IsOrdered
        (λ row k v e. (keyed_profile-some row k v e).1) rows)

-- Every row of the merged table is one of the inventory or of the readings that names its chip and its
-- profile, no two rows of it are of the same profile of the same chip, and, where no chip's identifier
-- has a slash, every such row of the inventory or the readings has one of its chip and profile in the
-- table that was not collected earlier.
pub merge_esim_profiles-covers :
    (locale : Text → Text → ℤ) (inventory from_reads : List EsimProfileRow)
    → All (λ row. IsSlashless row.eid) (inventory ++ from_reads)
    → All (IsRowOf (inventory ++ from_reads)) (merge_esim_profiles locale inventory from_reads)
      × IsPairwise IsApart (merge_esim_profiles locale inventory from_reads)
      × All
          (λ row.
            is_empty row.eid ≡ false
            → is_empty row.iccid ≡ false
            → IsCovered (merge_esim_profiles locale inventory from_reads) row)
          (inventory ++ from_reads)
merge_esim_profiles-covers locale inventory from_reads plain =
    let rows = inventory ++ from_reads in
    let table = merge_esim_profiles locale inventory from_reads in
    let selected = is_row_of locale inventory from_reads in
    (
      selected,
      is_apart locale inventory from_reads,
      All-both
          (λ row here h a b.
            let (w, there, key, newer) = h a b in
            let (found, _, _) = All-member (IsRowOf rows) table w selected there in
            let clean = All-member (λ x. IsSlashless x.eid) rows w plain found in
            let (eid, iccid) = key_parts w.eid row.eid w.iccid row.iccid clean here key in
            (w, there, eid, iccid, newer))
          rows plain (keyed_cover locale inventory from_reads),
    )
