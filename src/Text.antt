-- ===== src/Text.antt =====
-- JavaScript strings as lists of UTF-16 code units, with the methods of `String.prototype` that
-- apps/console/lib calls: trim, startsWith, endsWith, includes, indexOf, lastIndexOf, slice, split.
pub mod Laws
pub mod Cutting
use Prim.Native.Char.{code}
use Prim.Native.String
use vodoge_cloud.Prelude.{
  ℕ, zero, suc, ◌+◌, ◌-◌, String, Bool, true, false, ◌&&◌, ◌||◌, Option, none, some, List, [], ◌∷◌,
  ◌++◌, reverse, ◌==◌, leb, if◌then◌else◌, take, drop, any, all,
}
use mathlib.Core.Option

abbrev pub Text : Type 0
Text = List ℕ

-- A literal. All literals of the source that the model uses lie in the basic plane, where a code
-- point is one code unit.
unfoldable pub units : String → Text
units String.[] = []
units (String.◌∷◌ c s) = code c ∷ units s

unfoldable pub text_eq : Text → Text → Bool
text_eq [] [] = true
text_eq (a ∷ s) (b ∷ t) = a == b && text_eq s t
text_eq _ _ = false

abbrev pub is_empty : Text → Bool
is_empty [] = true
is_empty (_ ∷ _) = false

-- WhiteSpace and LineTerminator of ECMA-262, the units that `trim` removes.
unfoldable pub is_space : ℕ → Bool
is_space c =
    (leb 9 c && leb c 13)
    || c == 32
    || c == 0xa0
    || c == 0x1680
    || (leb 0x2000 c && leb c 0x200a)
    || c == 0x2028
    || c == 0x2029
    || c == 0x202f
    || c == 0x205f
    || c == 0x3000
    || c == 0xfeff

unfoldable pub trim_start : Text → Text
unfolding is_space
trim_start [] = []
trim_start (c ∷ s) = if is_space c then trim_start s else c ∷ s

unfoldable pub trim : Text → Text
unfolding trim_start
trim s = reverse (trim_start (reverse (trim_start s)))

unfoldable pub starts_with : Text → Text → Bool
starts_with s [] = true
starts_with [] (p ∷ ps) = false
starts_with (c ∷ s) (p ∷ ps) = c == p && starts_with s ps

unfoldable pub ends_with : Text → Text → Bool
unfolding starts_with
ends_with s p = starts_with (reverse s) (reverse p)

unfoldable pub includes : Text → Text → Bool
unfolding starts_with
includes [] p = starts_with [] p
includes (c ∷ s) p = starts_with (c ∷ s) p || includes s p

abbrev pub has_unit : ℕ → Text → Bool
has_unit c = any (λ d. d == c)

-- The units of a text, up to and after the first or the last `c`; `none` where `indexOf` is -1.
unfoldable pub before_first : ℕ → Text → Option Text
before_first c [] = none
before_first c (d ∷ s) = if d == c then some [] else Option.map (λ r. d ∷ r) (before_first c s)

-- `s.slice(0, s.lastIndexOf(c))` and `s.slice(s.lastIndexOf(c) + 1)`.
unfoldable pub cut_last : ℕ → Text → Option (Text × Text)
cut_last c [] = none
cut_last c (d ∷ s) = elim (cut_last c s) [
  | some (l, r) ↦ some (d ∷ l, r)
  | none ↦ if d == c then some ([], s) else none
]

-- `split` by one unit: never empty.
unfoldable pub split_first : ℕ → Text → Text × List Text
split_first c [] = ([], [])
split_first c (d ∷ s) =
    let (part, parts) = split_first c s in if d == c then ([], part ∷ parts) else (d ∷ part, parts)

unfoldable pub last_or : Text → List Text → Text
last_or s [] = s
last_or s (t ∷ ts) = last_or t ts

-- An ASCII letter in lower case, which is what the flag `i` of a regular expression compares.
abbrev pub lower_unit : ℕ → ℕ
lower_unit c = if leb 65 c && leb c 90 then c + 32 else c

abbrev pub is_digit : ℕ → Bool
is_digit c = leb 48 c && leb c 57

-- /^\d+$/
unfoldable pub is_number : Text → Bool
is_number [] = false
is_number (c ∷ s) = all is_digit (c ∷ s)
