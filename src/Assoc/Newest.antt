-- ===== src/Assoc/Newest.antt =====
-- A loop that keeps, for each key, one value of those that it meets, and what its result has.
use vodoge_cloud.Prelude.{
  ◌≡◌, refl, sym, ap, ◌∙◌, ◌⊎◌, inl, inr, Bool, true, false, Option, none, some, List, [], ◌∷◌, Any,
  All, arith, subst, Option-cases, Bool-cases, if◌then◌else◌,
}
use vodoge_cloud.Prelude.Int.{ℤ, ◌≤ℤ◌}
use vodoge_cloud.Text.{Text, text_eq}
use vodoge_cloud.Text.Laws.{text_eq_sound, text_eq_refl}
use vodoge_cloud.Assoc.{Assoc, get, set, values, get-set}

module _ {V : Type 0} where
  -- `if (existing && stale(existing)) continue; map.set(key, value);`
  unfoldable pub keep : (V → Bool) → Text → V → Assoc V → Assoc V
  keep stale k v m = elim (get k m) [
    | none ↦ set k v m
    | some existing ↦ if stale existing then m else set k v m
  ]

  -- The loop over rows, of which some give an entry.
  unfoldable pub collect :
      {A : Type 0} (entry : A → Option (Text × V)) (stale : V → V → Bool)
      → List A
      → Assoc V
      → Assoc V
  collect entry stale [] m = m
  collect entry stale (a ∷ rows) m =
      collect entry stale rows (elim (entry a) [ none ↦ m | some (k, v) ↦ keep (stale v) k v m ])

  get-values : (k : Text) (m : Assoc V) (v : V) → get k m ≡ some v → Any (λ w. w ≡ v) (values m)
  unfolding get values
  get-values k [] v e = absurd (ground arith)
  get-values k ((j, w) ∷ m) v e = elim (Bool-cases (text_eq j k)) [
    | inl here ↦ inl (ground arith)
    | inr there ↦ inr (get-values k m v (ground arith))
  ]

  pub values-set :
      (P : V → Type 0) (k : Text) (v : V) (m : Assoc V)
      → P v
      → All P (values m)
      → All P (values (set k v m))
  unfolding set values
  values-set P k v [] p h = (p, tt)
  values-set P k v ((j, w) ∷ m) p (q, h) = elim (Bool-cases (text_eq j k)) [
    | inl here ↦ rw (here) (p, h)
    | inr there ↦ rw (there) (q, values-set P k v m p h)
  ]

  -- The value is set where the key is new or its value goes, and else nothing changes.
  pub keep-cases :
      (stale : V → Bool) (k : Text) (v : V) (m : Assoc V)
      → ((keep stale k v m ≡ set k v m) × ((w : V) → get k m ≡ some w → stale w ≡ false))
        ⊎ ((w : V) × (get k m ≡ some w) × (stale w ≡ true) × (keep stale k v m ≡ m))
  unfolding keep
  keep-cases stale k v m = elim (Option-cases (get k m)) [
    | inl new ↦ inl (ground arith, λ w old. absurd (ground arith))
    | inr (w, old) ↦ elim (Bool-cases (stale w)) [
      | inl stays ↦ inr (w, old, stays, ground arith)
      | inr goes ↦ inl (ground arith, λ x q. ground arith)
    ]
  ]

  values-keep :
      (P : V → Type 0) (stale : V → Bool) (k : Text) (v : V) (m : Assoc V)
      → P v
      → All P (values m)
      → All P (values (keep stale k v m))
  values-keep P stale k v m p h = elim (keep-cases stale k v m) [
    | inl (e, _) ↦ rw (e) (values-set P k v m p h)
    | inr (w, _, _, e) ↦ rw (e) h
  ]

  -- What holds of the entry of every row holds of every value that is kept.
  pub values-collect :
      {A : Type 0} (entry : A → Option (Text × V)) (stale : V → V → Bool) (P : V → Type 0)
      (rows : List A) (m : Assoc V)
      → All (λ a. (k : Text) (v : V) → entry a ≡ some (k, v) → P v) rows
      → All P (values m)
      → All P (values (collect entry stale rows m))
  unfolding collect
  values-collect entry stale P [] m each h = h
  values-collect entry stale P (a ∷ rows) m (first, each) h = elim (Option-cases (entry a)) [
    | inl dropped ↦ rw (dropped) (values-collect entry stale P rows m each h)
    | inr ((k, v), kept) ↦ rw (kept) (
        values-collect entry stale P rows (keep (stale v) k v m) each
          (values-keep P (stale v) k v m (first k v kept) h))
  ]

  -- A value that stays is no older than the one that it keeps out, and the other way about.
  abbrev pub IsOrdered : (V → ℤ) → (V → V → Bool) → Type 0
  IsOrdered at stale =
      ((v e : V) → stale v e ≡ true → at v ≤ℤ at e) × ((v e : V) → stale v e ≡ false → at e ≤ℤ at v)

module _ {V : Type 0} (at : V → ℤ) where
  -- The map has a value under the key that is no older than `v`.
  abbrev Has : Text → V → Assoc V → Type 0
  Has k v m = (w : V) × (get k m ≡ some w) × (at v ≤ℤ at w)

  module _ (stale : V → V → Bool) (ordered : IsOrdered at stale) where
    keep-Has : (k : Text) (v : V) (m : Assoc V) → Has k v (keep (stale v) k v m)
    keep-Has k v m = elim (keep-cases (stale v) k v m) [
      | inl (e, _) ↦ (v, ap (get k) e ∙ get-set k k v m ∙ rw (text_eq_refl k) refl, omega arith)
      | inr (w, old, stays, e) ↦ (w, ap (get k) e ∙ old, ordered.0 v w stays)
    ]

    keep-grows : (k j : Text) (u v : V) (m : Assoc V) → Has j u m → Has j u (keep (stale v) k v m)
    keep-grows k j u v m (w, there, newer) = elim (keep-cases (stale v) k v m) [
      | inl (e, goes) ↦ elim (Bool-cases (text_eq k j)) [
        | inl same ↦
            let here : get k m ≡ some w = rw (text_eq_sound k j same) there in
            let later : at w ≤ℤ at v = ordered.1 v w (goes w here) in
            (v, ap (get j) e ∙ get-set k j v m ∙ rw (same) refl, omega arith)
        | inr other ↦ (w, ap (get j) e ∙ get-set k j v m ∙ rw (other) there, newer)
      ]
      | inr (x, _, _, e) ↦ (w, ap (get j) e ∙ there, newer)
    ]

    collect-grows :
        {A : Type 0} (entry : A → Option (Text × V)) (j : Text) (u : V) (rows : List A)
        (m : Assoc V)
        → Has j u m
        → Has j u (collect entry stale rows m)
    unfolding collect
    collect-grows entry j u [] m h = h
    collect-grows entry j u (a ∷ rows) m h = elim (Option-cases (entry a)) [
      | inl dropped ↦ rw (dropped) (collect-grows entry j u rows m h)
      | inr ((k, v), kept) ↦
          rw (kept) (collect-grows entry j u rows (keep (stale v) k v m) (keep-grows k j u v m h))
    ]

    collect-Has :
        {A : Type 0} (entry : A → Option (Text × V)) (rows : List A) (m : Assoc V)
        → All
            (λ a. (k : Text) (v : V) → entry a ≡ some (k, v) → Has k v (collect entry stale rows m))
            rows
    unfolding collect
    collect-Has entry [] m = tt
    collect-Has entry (a ∷ rows) m = (
      λ k v q. rw (q) (collect-grows entry k v rows (keep (stale v) k v m) (keep-Has k v m)),
      collect-Has entry rows (elim (entry a) [ none ↦ m | some (k, v) ↦ keep (stale v) k v m ]),
    )

module _ {V : Type 0} (Q : Text → V → Type 0) where
  -- What holds of each key with its value.
  abbrev Fits : Assoc V → Type 0
  Fits m = (j : Text) (w : V) → get j m ≡ some w → Q j w

  empty-Fits : Fits []
  unfolding get
  empty-Fits j w e = absurd (ground arith)

  keep-Fits :
      (stale : V → Bool) (k : Text) (v : V) (m : Assoc V) → Q k v → Fits m → Fits (keep stale k v m)
  keep-Fits stale k v m q h j w there = elim (keep-cases stale k v m) [
    | inl (e, _) ↦
        let read = sym (get-set k j v m) ∙ sym (ap (get j) e) ∙ there in
        elim (Bool-cases (text_eq k j)) [
          | inl same ↦
              let is : v ≡ w = ground arith in
              subst (λ i. Q i w) (text_eq_sound k j same) (subst (λ x. Q k x) is q)
          | inr other ↦ h j w (ground arith)
        ]
    | inr (x, _, _, e) ↦ h j w (sym (ap (get j) e) ∙ there)
  ]

  collect-Fits :
      {A : Type 0} (entry : A → Option (Text × V)) (stale : V → V → Bool)
      → ((a : A) (k : Text) (v : V) → entry a ≡ some (k, v) → Q k v)
      → (rows : List A) (m : Assoc V) → Fits m
      → Fits (collect entry stale rows m)
  unfolding collect
  collect-Fits entry stale each [] m h = h
  collect-Fits entry stale each (a ∷ rows) m h = elim (Option-cases (entry a)) [
    | inl dropped ↦ rw (dropped) (collect-Fits entry stale each rows m h)
    | inr ((k, v), kept) ↦ rw (kept) (
        collect-Fits entry stale each rows (keep (stale v) k v m)
          (keep-Fits (stale v) k v m (each a k v kept) h))
  ]

pub All-map :
    {A : Type 0} {P Q : A → Type 0} → ((a : A) → P a → Q a) → (xs : List A) → All P xs → All Q xs
All-map f [] h = tt
All-map f (x ∷ xs) (p, h) = (f x p, All-map f xs h)

-- Every member is a member.
pub All-Any : {A : Type 0} (xs : List A) → All (λ a. Any (λ x. x ≡ a) xs) xs
All-Any [] = tt
All-Any (x ∷ xs) = (inl refl, All-map (λ a h. inr h) xs (All-Any xs))

-- For every row that gives an entry, a value is kept that fits the same key and is no older.
pub collect-newest :
    {A V : Type 0} (entry : A → Option (Text × V)) (stale : V → V → Bool) (at : V → ℤ)
    (Q : Text → V → Type 0)
    → IsOrdered at stale
    → ((a : A) (k : Text) (v : V) → entry a ≡ some (k, v) → Q k v)
    → (rows : List A)
    → All
        (λ a.
          (k : Text) (v : V)
          → entry a ≡ some (k, v)
          → (w : V) × Any (λ x. x ≡ w) (values (collect entry stale rows []))
            × Q k w
            × (at v ≤ℤ at w))
        rows
collect-newest entry stale at Q ordered each rows =
    All-map
      (λ a h k v q.
        let (w, there, newer) = h k v q in
        let fits = collect-Fits Q entry stale each rows [] (empty-Fits Q) k w there in
        (w, get-values k (collect entry stale rows []) w there, fits, newer))
      rows (collect-Has at stale ordered entry rows [])
