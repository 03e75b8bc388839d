-- ===== src/Fleet/Place.antt =====
-- Where a module stands in the list of modules (apps/console/app/devices/page.tsx, `orderModems`), said
-- without the comparisons that the code goes through.
use vodoge_cloud.Prelude.{
  ◌+◌, ◌≡◌, ◌≢◌, refl, ap, ◌⊎◌, inl, inr, true, false, Option, none, some, List, [], ◌∷◌, All,
  arith, Bool-cases, or_default, subst, if◌then◌else◌,
}
use vodoge_cloud.Prelude.Int.{ℤ, pos, ◌-ℤ◌, ◌≤ℤ◌, ltb_ℤ, pos_part, neg_part, eq_of_parts}
use vodoge_cloud.Text.{Text, units, text_eq}
use vodoge_cloud.Text.Laws.{text_eq_iff, text_eq_sound}
use vodoge_cloud.Catalog.Modem.{ModemRow}
use vodoge_cloud.Esim.Reads.{insert, sort}
use vodoge_cloud.TableQuery.{by, is_zero, biggest_first}
use vodoge_cloud.TableQuery.Laws.{IsFair}
use vodoge_cloud.Fleet.{signal_order, seen_order, comparisons, order_modems}
use vodoge_cloud.Fleet.Order.{IsSorted, order_modems-IsSorted}
use mathlib.Core.List.{Perm}
use mathlib.Core.List.Perm

-- The signal was measured, and the other was not or is the weaker one.
abbrev pub IsStronger : Option ℤ → Option ℤ → Type 0
IsStronger none weaker = ⊥
IsStronger (some s) none = Unit
IsStronger (some s) (some t) = ltb_ℤ t s ≡ true

-- A difference that does not put the first behind the second, where `v` decides on equal ones.
difference :
    (s t v : ℤ)
    → (if is_zero (t -ℤ s) then v else t -ℤ s) ≤ℤ pos 0
    → (ltb_ℤ t s ≡ true) ⊎ ((s ≡ t) × (v ≤ℤ pos 0))
unfolding ◌-ℤ◌
difference s t v h = elim (Bool-cases (ltb_ℤ t s)) [
  | inl less ↦ inl less
  | inr other ↦
      let parts : pos_part s + neg_part t ≡ pos_part t + neg_part s = ground arith in
      inr (eq_of_parts s t parts, ground arith)
]

split_signal :
    (x y : Option ℤ) (v : ℤ)
    → (if is_zero (biggest_first x y) then v else biggest_first x y) ≤ℤ pos 0
    → IsStronger x y ⊎ ((x ≡ y) × (v ≤ℤ pos 0))
unfolding biggest_first
split_signal none none v h = inr (refl, h)
split_signal none (some t) v h = absurd (ground arith)
split_signal (some s) none v h = inl tt
split_signal (some s) (some t) v h = elim (difference s t v h) [
  | inl less ↦ inl less
  | inr (same, next) ↦ inr (ap some same, next)
]

module _ (locale : Text → Text → ℤ) where
  abbrev pub IsByImei : ModemRow → ModemRow → Type 0
  IsByImei a b = locale a.imei b.imei ≤ℤ pos 0

  abbrev pub IsBySignal : ModemRow → ModemRow → Type 0
  IsBySignal a b =
      IsStronger a.signal_dbm b.signal_dbm ⊎ ((a.signal_dbm ≡ b.signal_dbm) × IsByImei a b)

  abbrev pub seen_at : ModemRow → ℤ
  seen_at a = or_default a.last_seen (pos 0)

  abbrev pub IsBySeen : ModemRow → ModemRow → Type 0
  IsBySeen a b = (ltb_ℤ (seen_at b) (seen_at a) ≡ true) ⊎ ((seen_at a ≡ seen_at b) × IsByImei a b)

  -- The first may stand before the second in the order that is asked for.
  abbrev pub IsBefore : Text → ModemRow → ModemRow → Type 0
  IsBefore order a b =
      ((order ≡ units "signal") × IsBySignal a b)
      ⊎ (((order ≡ units "seen") × IsBySeen a b)
          ⊎ ((order ≢ units "signal") × (order ≢ units "seen") × IsByImei a b))

  last_by :
      (a b : ModemRow)
      → (if is_zero (locale a.imei b.imei) then pos 0 else locale a.imei b.imei) ≤ℤ pos 0
      → IsByImei a b
  last_by a b h = ground arith

  signal-biggest_first :
      (a b : ModemRow) → signal_order a b ≡ biggest_first a.signal_dbm b.signal_dbm
  unfolding signal_order biggest_first
  signal-biggest_first a b = ground arith

  signal_split :
      (a b : ModemRow) → by (comparisons locale (units "signal")) a b ≤ℤ pos 0 → IsBySignal a b
  unfolding comparisons by text_eq
  signal_split a b h =
      let v = if is_zero (locale a.imei b.imei) then pos 0 else locale a.imei b.imei in
      elim (split_signal a.signal_dbm b.signal_dbm v
        (subst (λ d. (if is_zero d then v else d) ≤ℤ pos 0) (signal-biggest_first a b) h)) [
          | inl stronger ↦ inl stronger
          | inr (same, next) ↦ inr (same, last_by a b next)
        ]

  seen_split : (a b : ModemRow) → by (comparisons locale (units "seen")) a b ≤ℤ pos 0 → IsBySeen a b
  unfolding comparisons by seen_order text_eq
  seen_split a b h =
      let v = if is_zero (locale a.imei b.imei) then pos 0 else locale a.imei b.imei in
      elim (difference (seen_at a) (seen_at b) v h) [
        | inl later ↦ inl later
        | inr (same, next) ↦ inr (same, last_by a b next)
      ]

  imei_split :
      (order : Text) (a b : ModemRow)
      → text_eq order (units "signal") ≡ false
      → text_eq order (units "seen") ≡ false
      → by (comparisons locale order) a b ≤ℤ pos 0
      → IsByImei a b
  unfolding comparisons by
  imei_split order a b e f h =
      let only : comparisons locale order ≡ (λ left right. locale left.imei right.imei) ∷ [] =
        rw (e, f) refl in
      last_by a b (subst (λ cs. by cs a b ≤ℤ pos 0) only h)

  place :
      (order : Text) (a b : ModemRow)
      → by (comparisons locale order) a b ≤ℤ pos 0
      → IsBefore order a b
  place order a b h = elim (Bool-cases (text_eq order (units "signal"))) [
    | inl is ↦
        let same = text_eq_sound order (units "signal") is in
        inl (same, signal_split a b (subst (λ o. by (comparisons locale o) a b ≤ℤ pos 0) same h))
    | inr other ↦ elim (Bool-cases (text_eq order (units "seen"))) [
      | inl is ↦
          let same = text_eq_sound order (units "seen") is in
          inr (
            inl (same, seen_split a b (subst (λ o. by (comparisons locale o) a b ≤ℤ pos 0) same h)))
      | inr neither ↦ inr (
          inr (
            λ e. let found = (text_eq_iff order (units "signal")).1 e in absurd (ground arith),
            λ e. let found = (text_eq_iff order (units "seen")).1 e in absurd (ground arith),
            imei_split order a b other neither h,
          ))
    ]
  ]

  -- No row of the list comes before one that it should follow.
  abbrev pub IsPlaced : Text → List ModemRow → Type 0
  IsPlaced order [] = Unit
  IsPlaced order (a ∷ rows) = All (IsBefore order a) rows × IsPlaced order rows

  place_all :
      (order : Text) (a : ModemRow) (rows : List ModemRow)
      → All (λ b. by (comparisons locale order) a b ≤ℤ pos 0) rows
      → All (IsBefore order a) rows
  place_all order a [] h = tt
  place_all order a (b ∷ rows) (p, h) = (place order a b p, place_all order a rows h)

  IsSorted-IsPlaced :
      (order : Text) (rows : List ModemRow)
      → IsSorted (by (comparisons locale order)) rows
      → IsPlaced order rows
  IsSorted-IsPlaced order [] h = tt
  IsSorted-IsPlaced order (a ∷ rows) (first, h) =
      (place_all order a rows first, IsSorted-IsPlaced order rows h)

-- The sort loses and repeats nothing.
module _ {V : Type 0} (order : V → V → ℤ) where
  insert-Perm : (v : V) (vs : List V) → Perm (insert order v vs) (v ∷ vs)
  unfolding insert
  insert-Perm v [] = Perm.refl (v ∷ [])
  insert-Perm v (w ∷ ws) = elim (Bool-cases (ltb_ℤ (pos 0) (order v w))) [
    | inl behind ↦ rw (behind) (Perm.trans (Perm.cons w (insert-Perm v ws)) (Perm.swap v w ws))
    | inr before ↦ rw (before) (Perm.refl (v ∷ w ∷ ws))
  ]

  sort-Perm : (vs : List V) → Perm (sort order vs) vs
  unfolding sort
  sort-Perm [] = Perm.refl []
  sort-Perm (v ∷ vs) = Perm.trans (insert-Perm v (sort order vs)) (Perm.cons v (sort-Perm vs))

-- Whatever order is asked for, the list has each of the modules once and every two of them stand as that
-- order says, where the engine's collation reverses its verdict on exchanged texts and its verdicts
-- chain: by signal the strongest first, one that was not measured after all that were, and the IMEI
-- between equal ones; by "seen" the last seen first, and the IMEI between equal ones; else by the IMEI.
pub order_modems-IsPlaced :
    (locale : Text → Text → ℤ)
    → IsFair locale
    → (modems : List ModemRow) (order : Text)
    → IsPlaced locale order (order_modems locale modems order)
      × Perm (order_modems locale modems order) modems
unfolding order_modems
order_modems-IsPlaced locale fair modems order = (
  IsSorted-IsPlaced locale order (order_modems locale modems order)
      (order_modems-IsSorted locale fair modems order),
  sort-Perm (by (comparisons locale order)) modems,
)
