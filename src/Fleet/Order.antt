-- ===== src/Fleet/Order.antt =====
-- The order of the list of modules (apps/console/app/devices/page.tsx, `orderModems`).
use vodoge_cloud.Prelude.{
  ◌≡◌, refl, inl, inr, Bool, none, some, List, [], ◌∷◌, ◌++◌, All, All-append, arith, Bool-cases,
  if◌then◌else◌, if_both,
}
use vodoge_cloud.Prelude.Int.{ℤ, pos, ◌-ℤ◌, ◌≤ℤ◌, ltb_ℤ}
use vodoge_cloud.Text.{Text, units, text_eq}
use vodoge_cloud.Catalog.Modem.{ModemRow}
use vodoge_cloud.Esim.Reads.{insert, sort}
use vodoge_cloud.TableQuery.{by}
use vodoge_cloud.TableQuery.Laws.{IsFair, by-IsFair}
use vodoge_cloud.Fleet.{signal_order, seen_order, comparisons, order_modems}

module _ {V : Type 0} (order : V → V → ℤ) where
  -- No row is behind one that the comparison puts after it.
  abbrev pub IsSorted : List V → Type 0
  IsSorted [] = Unit
  IsSorted (v ∷ vs) = All (λ w. order v w ≤ℤ pos 0) vs × IsSorted vs

  module _ (P : V → Type 0) where
    insert-every : (v : V) (vs : List V) → P v → All P vs → All P (insert order v vs)
    unfolding insert
    insert-every v [] p h = (p, tt)
    insert-every v (w ∷ ws) p (q, h) =
        if_both (λ l. All P l) (ltb_ℤ (pos 0) (order v w)) (q, insert-every v ws p h) (p, (q, h))

  module _ (fair : IsFair order) where
    chained :
        (v w : V) (ws : List V)
        → order v w ≤ℤ pos 0
        → All (λ x. order w x ≤ℤ pos 0) ws
        → All (λ x. order v x ≤ℤ pos 0) ws
    chained v w [] h k = tt
    chained v w (x ∷ xs) h (k, ks) = (fair.chain v w x h k, chained v w xs h ks)

    insert-IsSorted : (v : V) (vs : List V) → IsSorted vs → IsSorted (insert order v vs)
    unfolding insert
    insert-IsSorted v [] h = (tt, tt)
    insert-IsSorted v (w ∷ ws) (first, others) = elim (Bool-cases (ltb_ℤ (pos 0) (order v w))) [
      | inl after ↦
          let turned = fair.ahead v w (ground arith) in
          rw (after)
            (insert-every (λ x. order w x ≤ℤ pos 0) v ws turned first, insert-IsSorted v ws others)
      | inr before ↦
          let here : order v w ≤ℤ pos 0 = ground arith in
          rw (before) ((here, chained v w ws here first), (first, others))
    ]

    sort-IsSorted : (vs : List V) → IsSorted (sort order vs)
    unfolding sort
    sort-IsSorted [] = tt
    sort-IsSorted (v ∷ vs) = insert-IsSorted v (sort order vs) (sort-IsSorted vs)

signal_order-IsFair : IsFair signal_order
unfolding signal_order ◌-ℤ◌
signal_order-IsFair = record {
  behind = λ a b h. ground arith;
  ahead = λ a b h. ground arith;
  chain = λ a b c h k. ground arith;
}

seen_order-IsFair : IsFair seen_order
unfolding seen_order ◌-ℤ◌
seen_order-IsFair = record {
  behind = λ a b h. ground arith;
  ahead = λ a b h. ground arith;
  chain = λ a b c h k. ground arith;
}

module _ (locale : Text → Text → ℤ) (fair : IsFair locale) where
  by_imei-IsFair : IsFair {T = ModemRow} (λ left right. locale left.imei right.imei)
  by_imei-IsFair = record {
    behind = λ a b h. fair.behind a.imei b.imei h;
    ahead = λ a b h. fair.ahead a.imei b.imei h;
    chain = λ a b c h k. fair.chain a.imei b.imei c.imei h k;
  }

  given :
      (b : Bool) (c : ModemRow → ModemRow → ℤ) → IsFair c → All IsFair (if b then c ∷ [] else [])
  given b c h = if_both (λ cs. All IsFair cs) b (h, tt) tt

  comparisons-All : (order : Text) → All IsFair (comparisons locale order)
  unfolding comparisons
  comparisons-All order =
      let by_signal = text_eq order (units "signal") in
      let by_seen = text_eq order (units "seen") in
      let imei : List (ModemRow → ModemRow → ℤ) =
        (λ left right. locale left.imei right.imei) ∷ [] in
      All-append IsFair (if by_signal then signal_order ∷ [] else [])
        ((if by_seen then seen_order ∷ [] else []) ++ imei)
        (given by_signal signal_order signal_order-IsFair)
        (All-append IsFair (if by_seen then seen_order ∷ [] else []) imei
          (given by_seen seen_order seen_order-IsFair) (by_imei-IsFair, tt))

  -- Whatever order is asked for, the list is in it: the strongest signal or the last seen first, and the
  -- IMEI for the rest, where the engine's collation reverses its verdict on exchanged texts and its
  -- verdicts chain.
  pub order_modems-IsSorted :
      (modems : List ModemRow) (order : Text)
      → IsSorted (by (comparisons locale order)) (order_modems locale modems order)
  unfolding order_modems
  order_modems-IsSorted modems order =
      sort-IsSorted (by (comparisons locale order))
        (by-IsFair (comparisons locale order) (comparisons-All order)) modems

  -- By signal, no module that was measured is put behind one that was not.
  pub measured_first :
      (a b : ModemRow) (s : ℤ)
      → a.signal_dbm ≡ none
      → b.signal_dbm ≡ some s
      → by (comparisons locale (units "signal")) a b ≡ pos 1
  unfolding comparisons by signal_order text_eq
  measured_first a b s e f = rw (e, f) refl
