-- ===== src/Text/Cutting.antt =====
-- Cutting a text at a unit: `lastIndexOf` and `split`.
use vodoge_cloud.Prelude.{
  ℕ, ◌≡◌, refl, true, false, none, some, List, [], ◌∷◌, ◌++◌, arith, ◌==◌, all, Bool-cases, inl,
  inr,
}
use vodoge_cloud.Text.{Text, has_unit, cut_last, split_first, last_or, is_digit, is_number}

pub cut_last-none : (c : ℕ) (s : Text) → has_unit c s ≡ false → cut_last c s ≡ none
unfolding cut_last
cut_last-none c [] h = refl
cut_last-none c (d ∷ s) h = ground (arith, cut_last-none c s)

pub cut_last-append :
    (c : ℕ) (s p : Text) → has_unit c p ≡ false → cut_last c (s ++ c ∷ p) ≡ some (s, p)
unfolding cut_last
cut_last-append c [] p h = ground (arith, cut_last-none c p h)
cut_last-append c (d ∷ s) p h = ground (arith, cut_last-append c s p h)

digits-no_colon : (p : Text) → all is_digit p ≡ true → has_unit b':' p ≡ false
digits-no_colon [] h = refl
digits-no_colon (c ∷ p) h = ground (arith, digits-no_colon p)

pub is_number-no_colon : (p : Text) → is_number p ≡ true → has_unit b':' p ≡ false
unfolding is_number
is_number-no_colon [] h = refl
is_number-no_colon (c ∷ p) h = digits-no_colon (c ∷ p) h

-- A text without the separator is one part.
pub split_first-single : (c : ℕ) (s : Text) → has_unit c s ≡ false → split_first c s ≡ (s, [])
unfolding split_first
split_first-single c [] h = refl
split_first-single c (d ∷ s) h = ground (arith, split_first-single c s)

-- The last part is what stands behind the last separator.
pub split_first-last :
    (c : ℕ) (s p : Text)
    → has_unit c p ≡ false
    → (a b : Text) × (bs : List Text) × (split_first c (s ++ c ∷ p) ≡ (a, b ∷ bs))
      × (last_or b bs ≡ p)
unfolding split_first last_or
split_first-last c [] p h = ([], p, [], ground (arith, split_first-single c p h), refl)
split_first-last c (d ∷ s) p h =
    let (a, b, bs, e, l) = split_first-last c s p h in
    elim (Bool-cases (d == c)) [
      | inl q ↦ ([], a, b ∷ bs, ground arith, l)
      | inr q ↦ (d ∷ a, b, bs, ground arith, l)
    ]
