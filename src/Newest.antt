-- ===== src/Newest.antt =====
-- A loop over rows that keeps the entry of the latest time, the first of equals, and what it ends with.
use vodoge_cloud.Prelude.{
  ◌≡◌, refl, sym, ap, ◌∙◌, subst, ◌⊎◌, inl, inr, Bool, true, false, Option, none, some, List, [],
  ◌∷◌, All, Any, arith, Option-cases, Bool-cases, if◌then◌else◌,
}
use vodoge_cloud.Prelude.Int.{ℤ, ◌≤ℤ◌, ltb_ℤ}

-- The rows that pass a test, as entries.
abbrev pub only {ℓ} : {A : Type ℓ} → (A → Bool) → A → Option A
only test row = if test row then some row else none

pub only_iff :
    {A : Type 0} (test : A → Bool) (a b : A) → only test a ≡ some b → (test a ≡ true) × (a ≡ b)
only_iff test a b e = elim (Bool-cases (test a)) [
  | inl passes ↦ (passes, ground arith)
  | inr fails ↦ absurd (ground arith)
]

module _ {V : Type 0} (at : V → ℤ) where
  -- `!latest || at(v) > at(latest)`
  abbrev pub is_newer : V → Option V → Bool
  is_newer v none = true
  is_newer v (some latest) = ltb_ℤ (at latest) (at v)

  abbrev pub replaced : Option V → Option V → Option V
  replaced none latest = latest
  replaced (some v) latest = if is_newer v latest then some v else latest

  module _ {A : Type 0} (entry : A → Option V) where
    -- The loop, with what `latest` is before it goes on.
    unfoldable pub newest_from : Option V → List A → Option V
    newest_from latest [] = latest
    newest_from latest (a ∷ rows) = newest_from (replaced (entry a) latest) rows

  replaced_sound :
      (c latest : Option V) (m : V) → replaced c latest ≡ some m → (latest ≡ some m) ⊎ (c ≡ some m)
  replaced_sound none latest m e = inl e
  replaced_sound (some v) latest m e = elim (Bool-cases (is_newer v latest)) [
    | inl newer ↦ inr (ground arith)
    | inr older ↦ inl (ground arith)
  ]

  replaced-none : (c latest : Option V) → replaced c latest ≡ none → (latest ≡ none) × (c ≡ none)
  replaced-none none latest e = (e, refl)
  replaced-none (some v) none e = absurd (ground arith)
  replaced-none (some v) (some l) e = elim (Bool-cases (is_newer v (some l))) [
    | inl newer ↦ absurd (ground arith)
    | inr older ↦ absurd (ground arith)
  ]

  -- No older than the entry that was offered, and than the one that was there.
  replaced-offered :
      (v : V) (latest : Option V) → (m : V) × (replaced (some v) latest ≡ some m) × (at v ≤ℤ at m)
  replaced-offered v none = (v, refl, omega arith)
  replaced-offered v (some l) = elim (Bool-cases (ltb_ℤ (at l) (at v))) [
    | inl newer ↦ (v, rw (newer) refl, omega arith)
    | inr older ↦ (l, rw (older) refl, ground arith)
  ]

  replaced-kept : (c : Option V) (l : V) → (m : V) × (replaced c (some l) ≡ some m) × (at l ≤ℤ at m)
  replaced-kept none l = (l, refl, omega arith)
  replaced-kept (some v) l = elim (Bool-cases (ltb_ℤ (at l) (at v))) [
    | inl newer ↦ (v, rw (newer) refl, ground arith)
    | inr older ↦ (l, rw (older) refl, omega arith)
  ]

  ≤ℤ_trans : (a b c : ℤ) → a ≤ℤ b → b ≤ℤ c → a ≤ℤ c
  ≤ℤ_trans a b c h k = omega arith

  module _ {A : Type 0} (entry : A → Option V) where
    -- The entry of some row, which no row has a later one than.
    abbrev pub IsNewest : V → List A → Type 0
    IsNewest v rows =
        Any (λ a. entry a ≡ some v) rows × All (λ a. (w : V) → entry a ≡ some w → at w ≤ℤ at v) rows

    newest_from_sound :
        (latest : Option V) (rows : List A) (v : V)
        → newest_from entry latest rows ≡ some v
        → (latest ≡ some v) ⊎ Any (λ a. entry a ≡ some v) rows
    unfolding newest_from
    newest_from_sound latest [] v e = inl e
    newest_from_sound latest (a ∷ rows) v e =
        elim (newest_from_sound (replaced (entry a) latest) rows v e) [
          | inl start ↦ elim (replaced_sound (entry a) latest v start) [
            | inl before ↦ inl before
            | inr here ↦ inr (inl here)
          ]
          | inr later ↦ inr (inr later)
        ]

    newest_from-above :
        (l : V) (rows : List A)
        → (v : V) × (newest_from entry (some l) rows ≡ some v) × (at l ≤ℤ at v)
    unfolding newest_from
    newest_from-above l [] = (l, refl, omega arith)
    newest_from-above l (a ∷ rows) =
        let (m, e, h) = replaced-kept (entry a) l in
        let (v, found, k) = newest_from-above m rows in
        (v, ap (λ o. newest_from entry o rows) e ∙ found, ≤ℤ_trans (at l) (at m) (at v) h k)

    same_entry : {a b : V} → some a ≡ some b → a ≡ b
    same_entry e = ground arith

    newest_from-covers :
        (latest : Option V) (rows : List A) (v : V)
        → newest_from entry latest rows ≡ some v
        → All (λ a. (w : V) → entry a ≡ some w → at w ≤ℤ at v) rows
    unfolding newest_from
    newest_from-covers latest [] v e = tt
    newest_from-covers latest (a ∷ rows) v e = (
      λ w q.
          let (m, offered, h) = replaced-offered w latest in
          let (u, found, k) = newest_from-above m rows in
          let same : u ≡ v = same_entry (
            sym found
            ∙ sym (ap (λ o. newest_from entry o rows) (ap (λ c. replaced c latest) q ∙ offered))
            ∙ e) in
          ≤ℤ_trans (at w) (at m) (at v) h (subst (λ z. at m ≤ℤ at z) same k),
      newest_from-covers (replaced (entry a) latest) rows v e,
    )

    newest_from-none :
        (latest : Option V) (rows : List A)
        → newest_from entry latest rows ≡ none
        → (latest ≡ none) × All (λ a. entry a ≡ none) rows
    unfolding newest_from
    newest_from-none latest [] e = (e, tt)
    newest_from-none latest (a ∷ rows) e =
        let (start, others) = newest_from-none (replaced (entry a) latest) rows e in
        let (before, here) = replaced-none (entry a) latest start in (before, (here, others))

    -- Either no row has an entry, or the loop ends with a latest one.
    pub newest_from-cases :
        (rows : List A)
        → ((newest_from entry none rows ≡ none) × All (λ a. entry a ≡ none) rows)
          ⊎ ((v : V) × (newest_from entry none rows ≡ some v) × IsNewest v rows)
    newest_from-cases rows = elim (Option-cases (newest_from entry none rows)) [
      | inl nothing ↦ inl (nothing, (newest_from-none none rows nothing).1)
      | inr (v, found) ↦ elim (newest_from_sound none rows v found) [
        | inl before ↦ absurd (ground arith)
        | inr there ↦ inr (v, found, (there, newest_from-covers none rows v found))
      ]
    ]

-- The same for a test on the rows themselves.
module _ {A : Type 0} (test : A → Bool) (at : A → ℤ) where
  -- The row passes the test and is in the list, and no row that passes is later.
  abbrev pub IsLatest : A → List A → Type 0
  IsLatest r rows =
      (test r ≡ true) × Any (λ q. q ≡ r) rows × All (λ q. test q ≡ true → at q ≤ℤ at r) rows

  found_row :
      (r : A) (rows : List A)
      → Any (λ a. only test a ≡ some r) rows
      → (test r ≡ true) × Any (λ q. q ≡ r) rows
  found_row r [] h = elim h [ ]
  found_row r (a ∷ rows) (inl e) =
      let (passes, same) = only_iff test a r e in (subst (λ z. test z ≡ true) same passes, inl same)
  found_row r (a ∷ rows) (inr h) = let (passes, there) = found_row r rows h in (passes, inr there)

  not_later :
      (r : A) (rows : List A)
      → All (λ a. (w : A) → only test a ≡ some w → at w ≤ℤ at r) rows
      → All (λ q. test q ≡ true → at q ≤ℤ at r) rows
  not_later r [] h = tt
  not_later r (a ∷ rows) (first, h) = (λ passes. first a (rw (passes) refl), not_later r rows h)

  none_passes :
      (rows : List A) → All (λ a. only test a ≡ none) rows → All (λ q. test q ≡ false) rows
  none_passes [] h = tt
  none_passes (a ∷ rows) (first, h) = (
    elim (Bool-cases (test a)) [ inl passes ↦ absurd (ground arith) | inr fails ↦ fails ],
    none_passes rows h,
  )

  pub newest_row-cases :
      (rows : List A)
      → ((newest_from at (only test) none rows ≡ none) × All (λ q. test q ≡ false) rows)
        ⊎ ((r : A) × (newest_from at (only test) none rows ≡ some r) × IsLatest r rows)
  newest_row-cases rows = elim (newest_from-cases at (only test) rows) [
    | inl (nothing, h) ↦ inl (nothing, none_passes rows h)
    | inr (r, found, (there, later)) ↦
        let (passes, member) = found_row r rows there in
        inr (r, found, (passes, member, not_later r rows later))
  ]
