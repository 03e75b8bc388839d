-- ===== src/Esim/Merge/Batches.antt =====
-- What merged command batches have (apps/console/lib/catalog.ts, `mergeCommandBatches`).
use vodoge_cloud.Prelude.{
  ◌≡◌, refl, sym, ap, ◌∙◌, ◌⊎◌, inl, inr, true, false, List, [], ◌∷◌, ◌++◌, All, Any, arith, subst,
  Bool-cases,
}
use vodoge_cloud.Text.{Text, text_eq}
use vodoge_cloud.Text.Laws.{text_eq_refl}
use vodoge_cloud.Assoc.Newest.{All-map, All-Any}
use vodoge_cloud.Esim.Merge.{has, merge_batch, merge_batches, merge_command_batches}

module _ {T : Type 0} (id : T → Text) where
  -- No two rows have the same identifier.
  abbrev pub IsDistinct : List T → Type 0
  IsDistinct [] = Unit
  IsDistinct (x ∷ xs) = All (λ y. text_eq (id y) (id x) ≡ false) xs × IsDistinct xs

  -- The rows of all batches, one batch after the other.
  abbrev pub joined : List (List T) → List T
  joined [] = []
  joined (batch ∷ batches) = batch ++ joined batches

  merge_batch-append :
      (seen : List Text) (xs ys : List T)
      → (merge_batch id seen (xs ++ ys)).0
        ≡ (merge_batch id seen xs).0 ++ (merge_batch id (merge_batch id seen xs).1 ys).0
  unfolding merge_batch
  merge_batch-append seen [] ys = refl
  merge_batch-append seen (x ∷ xs) ys = elim (Bool-cases (has (id x) seen)) [
    | inl old ↦ rw (old) (merge_batch-append seen xs ys)
    | inr new ↦ rw (new) (ap (λ r. x ∷ r) (merge_batch-append (id x ∷ seen) xs ys))
  ]

  merge_batches-joined :
      (seen : List Text) (batches : List (List T))
      → merge_batches id seen batches ≡ (merge_batch id seen (joined batches)).0
  unfolding merge_batches merge_batch
  merge_batches-joined seen [] = refl
  merge_batches-joined seen (batch ∷ batches) =
      ap (λ r. (merge_batch id seen batch).0 ++ r)
        (merge_batches-joined (merge_batch id seen batch).1 batches)
      ∙ sym (merge_batch-append seen batch (joined batches))

  merge_batch-new :
      (seen : List Text) (rows : List T)
      → All (λ r. has (id r) seen ≡ false) (merge_batch id seen rows).0
        × IsDistinct (merge_batch id seen rows).0
  unfolding merge_batch
  merge_batch-new seen [] = (tt, tt)
  merge_batch-new seen (row ∷ rows) = elim (Bool-cases (has (id row) seen)) [
    | inl old ↦ rw (old) (merge_batch-new seen rows)
    | inr new ↦
        let (fresh, distinct) = merge_batch-new (id row ∷ seen) rows in
        rw (new) (
          (new, All-map (λ r h. ground arith) (merge_batch id (id row ∷ seen) rows).0 fresh),
          (All-map (λ r h. ground arith) (merge_batch id (id row ∷ seen) rows).0 fresh, distinct),
        )
  ]

  -- A row is seen before, or its identifier is among those that go out.
  abbrev IsCovered : List Text → List T → T → Type 0
  IsCovered seen out r = (has (id r) seen ≡ true) ⊎ Any (λ o. text_eq (id r) (id o) ≡ true) out

  merge_batch-old :
      (seen : List Text) (row : T) (rows : List T)
      → has (id row) seen ≡ true
      → (merge_batch id seen (row ∷ rows)).0 ≡ (merge_batch id seen rows).0
  unfolding merge_batch
  merge_batch-old seen row rows old = rw (old) refl

  merge_batch-fresh :
      (seen : List Text) (row : T) (rows : List T)
      → has (id row) seen ≡ false
      → (merge_batch id seen (row ∷ rows)).0 ≡ row ∷ (merge_batch id (id row ∷ seen) rows).0
  unfolding merge_batch
  merge_batch-fresh seen row rows new = rw (new) refl

  seen_before :
      (seen : List Text) (out : List T) (row r : T)
      → IsCovered (id row ∷ seen) out r
      → IsCovered seen (row ∷ out) r
  seen_before seen out row r (inl there) = elim (Bool-cases (text_eq (id r) (id row))) [
    | inl here ↦ inr (inl here)
    | inr other ↦ inl (ground arith)
  ]
  seen_before seen out row r (inr later) = inr (inr later)

  merge_batch-covers :
      (seen : List Text) (rows : List T) → All (IsCovered seen (merge_batch id seen rows).0) rows
  merge_batch-covers seen [] = tt
  merge_batch-covers seen (row ∷ rows) = elim (Bool-cases (has (id row) seen)) [
    | inl old ↦
        subst (λ out. All (IsCovered seen out) (row ∷ rows))
          (sym (merge_batch-old seen row rows old)) (inl old, merge_batch-covers seen rows)
    | inr new ↦
        let out = (merge_batch id (id row ∷ seen) rows).0 in
        subst (λ out. All (IsCovered seen out) (row ∷ rows))
          (sym (merge_batch-fresh seen row rows new))
          (
            inr (inl (text_eq_refl (id row))),
            All-map (seen_before seen out row) rows (merge_batch-covers (id row ∷ seen) rows),
          )
  ]

  merge_batch-All :
      (P : T → Type 0) (seen : List Text) (rows : List T)
      → All P rows
      → All P (merge_batch id seen rows).0
  unfolding merge_batch
  merge_batch-All P seen [] h = tt
  merge_batch-All P seen (row ∷ rows) (p, h) = elim (Bool-cases (has (id row) seen)) [
    | inl old ↦ rw (old) (merge_batch-All P seen rows h)
    | inr new ↦ rw (new) (p, merge_batch-All P (id row ∷ seen) rows h)
  ]

  -- The merged rows have distinct identifiers, each of them is a row of a batch, and each row of a batch
  -- has its identifier among them.
  pub merge_command_batches-IsDistinct :
      (batches : List (List T))
      → IsDistinct (merge_command_batches id batches)
        × All (λ o. Any (λ r. r ≡ o) (joined batches)) (merge_command_batches id batches)
        × All
            (λ r. Any (λ o. text_eq (id r) (id o) ≡ true) (merge_command_batches id batches))
            (joined batches)
  unfolding merge_command_batches
  merge_command_batches-IsDistinct batches =
      let rows = joined batches in
      rw (merge_batches-joined [] batches) (
        (merge_batch-new [] rows).1,
        merge_batch-All (λ o. Any (λ r. r ≡ o) rows) [] rows (All-Any rows),
        All-map (λ r h. elim h [ inl seen ↦ absurd (ground arith) | inr out ↦ out ]) rows
            (merge_batch-covers [] rows),
      )
