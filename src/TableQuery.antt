-- ===== src/TableQuery.antt =====
-- apps/console/lib/table-query.ts: sorting and filtering the rows of a table. `lower` is toLowerCase,
-- `locale` is localeCompare, and `show` is what String() makes of a number.
pub mod Laws
use vodoge_cloud.Prelude.{
  ℕ, Bool, true, false, ◌==◌, Option, none, some, List, [], ◌∷◌, any, or_default, if◌then◌else◌,
}
use vodoge_cloud.Prelude.Int.{ℤ, pos, negsuc, ◌-ℤ◌, pos_part, neg_part}
use vodoge_cloud.Text.{Text, text_eq, is_empty, trim, includes}

unfoldable pub pick_sort : Option Text → List Text → Text → Text
pick_sort none allowed fallback = fallback
pick_sort (some raw) allowed fallback = if any (text_eq raw) allowed then raw else fallback

-- A field of a row; null and undefined are `absent`.
pub data Field : Type 0 where
  absent : Field
  text : Text → Field
  number : ℤ → Field

module _ (lower : Text → Text) (show : ℤ → Text) where
  unfoldable pub needle_of : Option Text → Text
  needle_of raw = lower (trim (or_default raw []))

  unfoldable pub field_matches : Text → Field → Bool
  field_matches needle absent = false
  field_matches needle (text s) = includes (lower s) needle
  field_matches needle (number n) = includes (lower (show n)) needle

  unfoldable pub matches : Text → List Field → Bool
  matches needle fields = if is_empty needle then true else any (field_matches needle) fields

unfoldable pub biggest_first : Option ℤ → Option ℤ → ℤ
biggest_first none none = pos 0
biggest_first none (some b) = pos 1
biggest_first (some a) none = negsuc 0
biggest_first (some a) (some b) = b -ℤ a

abbrev pub is_zero : ℤ → Bool
is_zero n = pos_part n == neg_part n

module _ {T : Type 0} where
  -- The first comparison that is not 0.
  unfoldable pub by : List (T → T → ℤ) → T → T → ℤ
  by [] left right = pos 0
  by (compare ∷ comparisons) left right =
      let rest = by comparisons left right in
      if is_zero (compare left right) then rest else compare left right

unfoldable pub alphabetical : (Text → Text → ℤ) → Text → Text → ℤ
alphabetical locale left right = locale left right

pub data EmptyKind : Type 0 where
  nothing : EmptyKind
  no_match : EmptyKind

unfoldable pub empty_kind : ℕ → ℕ → Text → Option EmptyKind
empty_kind total shown needle =
    if total == 0
    then some nothing
    else if shown == 0
    then (if is_empty needle then some nothing else some no_match)
    else none
