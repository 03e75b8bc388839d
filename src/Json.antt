-- ===== src/Json.antt =====
-- The values that `response.json()` hands to the parsers of apps/console/lib, and the readers that
-- they share (apps/console/lib/catalog.ts, `arrayOf` to `asNumber`).
-- A property that an object lacks is `undefined`, here `none`. A number is an integer, or the
-- infinity that a literal too large for a double becomes; fractions are not modelled. The keys of
-- an object are distinct, and no property that the code reads is one that arrays or the prototype
-- have.
use vodoge_cloud.Prelude.{
  String, Bool, true, false, Option, none, some, List, [], ◌∷◌, if◌then◌else◌, filter_map,
  or_default,
}
use vodoge_cloud.Prelude.Int.{ℤ}
use vodoge_cloud.Text.{Text, units, text_eq, is_empty}

pub data Number : Type 0 where
  finite : ℤ → Number
  infinite : Bool → Number

mutual
  pub data Json : Type 0 where
    null : Json
    bool : Bool → Json
    num : Number → Json
    str : Text → Json
    arr : Items → Json
    obj : Props → Json

  pub data Items : Type 0 where
    nil : Items
    cons : Json → Items → Items

  pub data Props : Type 0 where
    end : Props
    prop : Text → Json → Props → Props

unfoldable pub elements : Items → List Json
elements nil = []
elements (cons v vs) = v ∷ elements vs

-- `row[key]`
unfoldable pub lookup : Text → Props → Option Json
lookup key end = none
lookup key (prop k v ps) = if text_eq k key then some v else lookup key ps

-- `row.key`
unfoldable pub field : String → Props → Option Json
unfolding units
field key row = lookup (units key) row

-- `!value || typeof value !== "object"` is `none`. An array passes, and has none of the properties.
unfoldable pub as_record : Option Json → Option Props
as_record (some (obj ps)) = some ps
as_record (some (arr vs)) = some end
as_record _ = none

-- `value as Record<string, unknown>` behind no test: reading a property of null or undefined throws,
-- and other values have none of the properties.
unfoldable pub cast_record : Json → Option Props
cast_record null = none
cast_record (obj ps) = some ps
cast_record _ = some end

unfoldable pub array_of : Option Json → List Json
array_of (some (arr vs)) = elements vs
array_of _ = []

unfoldable pub as_string : Option Json → Option Text
as_string (some (str s)) = if is_empty s then none else some s
as_string _ = none

unfoldable pub as_boolean : Option Json → Option Bool
as_boolean (some (bool b)) = some b
as_boolean _ = none

unfoldable pub as_number : Option Json → Option ℤ
as_number (some (num (finite n))) = some n
as_number _ = none

-- `typeof value === "string" ? value : null`, the empty text included
unfoldable pub any_string : Option Json → Option Text
any_string (some (str s)) = some s
any_string _ = none

-- `value === true` and `value !== false`
unfoldable pub is_true : Option Json → Bool
is_true (some (bool b)) = b
is_true _ = false

unfoldable pub is_not_false : Option Json → Bool
is_not_false (some (bool b)) = b
is_not_false _ = true

unfoldable pub strings_of : Option Json → List Text
unfolding array_of
strings_of value = filter_map (λ v. any_string (some v)) (array_of value)

-- `asString(row.key)`, `asString(row.key) ?? other`, and so for the other readers.
abbrev pub text_at : String → Props → Option Text
text_at key row = as_string (field key row)

abbrev pub text_or : Text → String → Props → Text
text_or other key row = or_default (text_at key row) other

abbrev pub number_at : String → Props → Option ℤ
number_at key row = as_number (field key row)

abbrev pub number_or : ℤ → String → Props → ℤ
number_or other key row = or_default (number_at key row) other

abbrev pub boolean_at : String → Props → Option Bool
boolean_at key row = as_boolean (field key row)

abbrev pub true_at : String → Props → Bool
true_at key row = is_true (field key row)

-- `String(value)`; `show` is what the engine makes of a value that is no text.
unfoldable pub to_text : (Json → Text) → Json → Text
to_text show (str s) = s
to_text show v = show v

-- `String(value ?? "")`
abbrev pub text_of : (Json → Text) → Option Json → Text
text_of show none = []
text_of show (some null) = []
text_of show (some v) = to_text show v
