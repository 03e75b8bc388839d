-- ===== src/Pattern.antt =====
-- Regular expressions of the language, for those that AT_COMMAND_GUARDS of apps/console/lib/tokens.ts is
-- written with: what each one means, and all the ways in which one can take units off a text. The engine
-- has its own matcher, which is no code of the repository.
pub mod Laws
use vodoge_cloud.Prelude.{
  ℕ, ◌≡◌, refl, sym, ap, ◌∙◌, subst, ◌⊎◌, inl, inr, ◌↔◌, Bool, true, false, ◌&&◌, ◌||◌, not, List,
  [], ◌∷◌, ◌++◌, ◌==◌, all, Any, arith, Bool-cases, if◌then◌else◌, leb,
}
use vodoge_cloud.Text.{Text, lower_unit, is_digit}

pub data Pattern : Type 0 where
  empty : Pattern
  one : (ℕ → Bool) → Pattern
  star : (ℕ → Bool) → Pattern
  seq : Pattern → Pattern → Pattern
  alt : Pattern → Pattern → Pattern
  at_end : Pattern
  boundary : Pattern

abbrev pub is_word_unit : ℕ → Bool
is_word_unit c = is_digit c || (leb 97 (lower_unit c) && leb (lower_unit c) 122) || c == b'_'

-- Behind a word unit, \b asks that no word unit follows.
unfoldable pub ends_word : Text → Bool
ends_word [] = true
ends_word (c ∷ s) = not (is_word_unit c)

unfoldable pub star_rests : (ℕ → Bool) → Text → List Text
star_rests test [] = [] ∷ []
star_rests test (c ∷ s) = let rest = star_rests test s in (c ∷ s) ∷ (if test c then rest else [])

unfoldable pub flat_map : (Text → List Text) → List Text → List Text
flat_map f [] = []
flat_map f (s ∷ ss) = f s ++ flat_map f ss

-- What may be left of a text.
unfoldable pub rests : Pattern → Text → List Text
rests empty s = s ∷ []
rests (one test) [] = []
rests (one test) (c ∷ s) = if test c then s ∷ [] else []
rests (star test) s = star_rests test s
rests (seq p q) s = flat_map (rests q) (rests p s)
rests (alt p q) s = rests p s ++ rests q s
rests at_end [] = [] ∷ []
rests at_end (c ∷ s) = []
rests boundary s = if ends_word s then s ∷ [] else []

abbrev pub is_filled : List Text → Bool
is_filled [] = false
is_filled (s ∷ ss) = true

-- `pattern.test(s)`, for a pattern that begins with ^.
unfoldable pub matches_at_start : Pattern → Text → Bool
matches_at_start p s = is_filled (rests p s)

-- A letter in either case.
abbrev pub letter : ℕ → ℕ → Bool
letter c d = lower_unit c == lower_unit d

unfoldable pub word : Text → Pattern
word [] = empty
word (c ∷ s) = seq (one (letter c)) (word s)

-- What is left is what the expression means.
unfoldable pub Takes : Pattern → Text → Text → Type 0
Takes empty s r = s ≡ r
Takes (one test) s r = (c : ℕ) × (s ≡ c ∷ r) × (test c ≡ true)
Takes (star test) s r = (m : Text) × (s ≡ m ++ r) × (all test m ≡ true)
Takes (seq p q) s r = (m : Text) × Takes p s m × Takes q m r
Takes (alt p q) s r = Takes p s r ⊎ Takes q s r
Takes at_end s r = (s ≡ []) × (r ≡ [])
Takes boundary s r = (s ≡ r) × (ends_word s ≡ true)
