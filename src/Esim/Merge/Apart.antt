-- ===== src/Esim/Merge/Apart.antt =====
-- No two rows of the merged table of profiles are of the same profile (apps/console/lib/catalog.ts,
-- `mergeEsimProfiles`): the loop's map has each key once, and the sort keeps that.
use vodoge_cloud.Prelude.{
  ◌≡◌, ◌≢◌, refl, sym, ◌∙◌, inl, inr, Option, some, List, [], ◌∷◌, ◌++◌, All, arith, Bool,
  Bool-cases, Option-cases,
}
use vodoge_cloud.Prelude.Int.{ℤ, pos, ltb_ℤ}
use vodoge_cloud.Text.{Text, text_eq}
use vodoge_cloud.Text.Laws.{text_eq_sound, text_eq_iff}
use vodoge_cloud.Assoc.{Assoc, set, values}
use vodoge_cloud.Assoc.Newest.{keep, collect, keep-cases, values-set, All-map}
use vodoge_cloud.Esim.Reads.{insert, sort}

-- What holds of any two rows of a list, the earlier one first.
abbrev pub IsPairwise : {V : Type 0} → (V → V → Type 0) → List V → Type 0
IsPairwise R [] = Unit
IsPairwise R (v ∷ vs) = All (R v) vs × IsPairwise R vs

module _ {V : Type 0} (order : V → V → ℤ) (P : V → Type 0) where
  pub insert-All : (v : V) (ws : List V) → P v → All P ws → All P (insert order v ws)
  unfolding insert
  insert-All v [] p h = (p, tt)
  insert-All v (w ∷ ws) p (q, h) = elim (Bool-cases (ltb_ℤ (pos 0) (order v w))) [
    | inl behind ↦ rw (behind) (q, insert-All v ws p h)
    | inr before ↦ rw (before) (p, (q, h))
  ]

  pub sort-All : (vs : List V) → All P vs → All P (sort order vs)
  unfolding sort
  sort-All [] h = tt
  sort-All (v ∷ vs) (p, h) = insert-All v (sort order vs) p (sort-All vs h)

-- Sorting keeps what holds of any two rows either way around.
module _ {V : Type 0} (order : V → V → ℤ) (R : V → V → Type 0)
    (either : (v w : V) → R v w → R w v) where
  insert-IsPairwise :
      (v : V) (ws : List V) → All (R v) ws → IsPairwise R ws → IsPairwise R (insert order v ws)
  unfolding insert
  insert-IsPairwise v [] p h = (tt, tt)
  insert-IsPairwise v (w ∷ ws) (p, ps) (q, h) = elim (Bool-cases (ltb_ℤ (pos 0) (order v w))) [
    | inl behind ↦
        rw (behind) (insert-All order (R w) v ws (either v w p) q, insert-IsPairwise v ws ps h)
    | inr before ↦ rw (before) ((p, ps), (q, h))
  ]

  pub sort-IsPairwise : (vs : List V) → IsPairwise R vs → IsPairwise R (sort order vs)
  unfolding sort
  sort-IsPairwise [] h = tt
  sort-IsPairwise (v ∷ vs) (p, h) =
      insert-IsPairwise v (sort order vs) (sort-All order (R v) vs p) (sort-IsPairwise vs h)

module _ {V : Type 0} (key : V → Text) where
  -- Every value stands under its own key, and no later one has the same.
  unfoldable pub IsFiled : Assoc V → Type 0
  IsFiled [] = Unit
  IsFiled ((k, v) ∷ m) = (key v ≡ k) × All (λ w. key w ≢ k) (values m) × IsFiled m

  set-IsFiled : (k : Text) (v : V) (m : Assoc V) → key v ≡ k → IsFiled m → IsFiled (set k v m)
  unfolding set values IsFiled
  set-IsFiled k v [] e h = (e, tt, tt)
  set-IsFiled k v ((j, w) ∷ m) e (is, others, h) = elim (Bool-cases (text_eq j k)) [
    | inl here ↦ rw (here) (e ∙ sym (text_eq_sound j k here), others, h)
    | inr there ↦
        let apart : key v ≢ j =
          λ same. let found = (text_eq_iff j k).1 (sym same ∙ e) in absurd (ground arith) in
        rw (there) (is, values-set (λ x. key x ≢ j) k v m apart others, set-IsFiled k v m e h)
  ]

  pub collect-IsFiled :
      {A : Type 0} (entry : A → Option (Text × V)) (stale : V → V → Bool)
      → ((a : A) (k : Text) (v : V) → entry a ≡ some (k, v) → key v ≡ k)
      → (rows : List A) (m : Assoc V) → IsFiled m
      → IsFiled (collect entry stale rows m)
  unfolding collect
  collect-IsFiled entry stale each [] m h = h
  collect-IsFiled entry stale each (a ∷ rows) m h = elim (Option-cases (entry a)) [
    | inl dropped ↦ rw (dropped) (collect-IsFiled entry stale each rows m h)
    | inr ((k, v), kept) ↦ rw (kept) (
        collect-IsFiled entry stale each rows (keep (stale v) k v m)
          (elim (keep-cases (stale v) k v m) [
            | inl (e, _) ↦ rw (e) (set-IsFiled k v m (each a k v kept) h)
            | inr (w, _, _, e) ↦ rw (e) h
          ]))
  ]

  pub IsFiled-apart : (m : Assoc V) → IsFiled m → IsPairwise (λ v w. key v ≢ key w) (values m)
  unfolding values IsFiled
  IsFiled-apart [] h = tt
  IsFiled-apart ((k, v) ∷ m) (e, others, h) =
      (All-map (λ w apart same. apart (sym same ∙ e)) (values m) others, IsFiled-apart m h)

-- No unit of the text is a slash.
abbrev pub IsSlashless : Text → Type 0
IsSlashless s = All (λ c. c ≢ b'/') s

-- Where no chip's identifier has a slash, a key is of one chip and one profile.
pub key_parts :
    (e f i j : Text)
    → IsSlashless e
    → IsSlashless f
    → e ++ b'/' ∷ i ≡ f ++ b'/' ∷ j
    → (e ≡ f) × (i ≡ j)
key_parts [] [] i j a b h = (refl, ground arith)
key_parts [] (d ∷ f) i j a (b, bs) h = absurd (b (ground arith))
key_parts (c ∷ e) [] i j (a, as') b h = absurd (a (ground arith))
key_parts (c ∷ e) (d ∷ f) i j (a, as') (b, bs) h =
    let tail : e ++ b'/' ∷ i ≡ f ++ b'/' ∷ j = ground arith in
    let (same, rest) = key_parts e f i j as' bs tail in (ground arith, rest)
