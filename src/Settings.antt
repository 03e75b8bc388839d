-- ===== src/Settings.antt =====
-- apps/console/lib/tokens.ts, from `SettingsField` on: the fields of a settings page, what the form holds
-- and the document that it saves.
pub mod Document
pub mod Entries
pub mod Fields
pub mod Health
use vodoge_cloud.Prelude.{
  ◌≡◌, refl, ℕ, Bool, true, false, ◌&&◌, ◌||◌, not, Option, none, some, List, [], ◌∷◌, ◌++◌, ◌==◌,
  any, map, select, or_default, if◌then◌else◌,
}
use vodoge_cloud.Prelude.Int.{ℤ, pos}
use vodoge_cloud.Text.{Text, units, text_eq, is_empty, trim, split_first}
use vodoge_cloud.Json.{
  Json, null, bool, num, str, arr, obj, Number, finite, infinite, Items, nil, cons, Props, prop,
  end, elements, lookup, as_record, to_text, text_of,
}
use vodoge_cloud.Assoc.{Assoc, get}

pub data SettingsFieldKind : Type 0 where
  text secret number boolean list : SettingsFieldKind

pub record SettingsField : Type 0 where
  pub path : Text
  pub kind : SettingsFieldKind

abbrev pub is_secret : SettingsFieldKind → Bool
is_secret secret = true
is_secret _ = false

abbrev pub is_boolean : SettingsFieldKind → Bool
is_boolean boolean = true
is_boolean _ = false

-- `path.split(".")`: a first key and the others.
abbrev pub split_path : Text → Text × List Text
split_path path = split_first b'.' path

-- `readSettingValue` behind the first key; undefined is `none`.
unfoldable pub read_keys : Option Json → List Text → Option Json
read_keys cursor [] = cursor
read_keys cursor (key ∷ keys) = elim (as_record cursor) [
  | none ↦ none
  | some row ↦ read_keys (lookup key row) keys
]

unfoldable pub read_setting_value : Props → Text → Option Json
read_setting_value source path =
    let (first, others) = split_path path in read_keys (lookup first source) others

-- `Array.prototype.join`: null is the empty text there.
unfoldable pub item_text : (Json → Text) → Json → Text
unfolding to_text
item_text show null = []
item_text show v = to_text show v

unfoldable pub join : Text → List Text → Text
join separator [] = []
join separator (t ∷ []) = t
join separator (t ∷ u ∷ ts) = t ++ (separator ++ join separator (u ∷ ts))

-- The box of a stored value: a list is one entry per line.
unfoldable pub form_value : (Json → Text) → Option Json → Option Json
form_value show (some (arr vs)) =
    some (str (join (b'\n' ∷ []) (map (item_text show) (elements vs))))
form_value show stored = stored

-- `Object.fromEntries`; the values by path, the later of two with one path first.
unfoldable pub settings_form_values :
    (Json → Text) → Props → List SettingsField → Assoc (Option Json) → Assoc (Option Json)
settings_form_values show initial [] values = values
settings_form_values show initial (field ∷ fields) values =
    settings_form_values show initial fields
      ((field.path, form_value show (read_setting_value initial field.path)) ∷ values)

-- `split(/[\n,]/)`
abbrev pub is_separator : ℕ → Bool
is_separator c = c == 10 || c == b','

unfoldable pub split_entries : Text → Text × List Text
split_entries [] = ([], [])
split_entries (c ∷ s) =
    let (part, parts) = split_entries s in
    if is_separator c then ([], part ∷ parts) else (c ∷ part, parts)

unfoldable pub entries_of : Text → List Text
entries_of s =
    let (part, parts) = split_entries s in select (λ t. not (is_empty t)) (map trim (part ∷ parts))

unfoldable pub items_of : List Text → Items
items_of [] = nil
items_of (t ∷ ts) = cons (str t) (items_of ts)

-- `Number.isFinite(parsed) ? parsed : 0`, where `parse` is `Number`; fractions are not modelled.
abbrev pub finite_or_zero : Option Number → Number
finite_or_zero (some (finite n)) = finite n
finite_or_zero _ = finite (pos 0)

-- `parse` is `Number(value)` and has `none` for NaN.
module _ (show : Json → Text) (parse : Option Json → Option Number) where
  unfoldable pub coerce_setting_value : SettingsFieldKind → Option Json → Json
  coerce_setting_value number value = num (finite_or_zero (parse value))
  coerce_setting_value boolean (some (bool b)) = bool b
  coerce_setting_value boolean _ = bool false
  coerce_setting_value list value = arr (items_of (entries_of (text_of show value)))
  coerce_setting_value _ none = str []
  coerce_setting_value _ (some null) = str []
  coerce_setting_value _ (some v) = v

-- `record[key] = value`: a key that is there keeps its place.
unfoldable pub put : Text → Json → Props → Props
put key value end = prop key value end
put key value (prop k v ps) = if text_eq k key then prop k value ps else prop k v (put key value ps)

-- An object to write into: one that is there, or a new one. A list in the way is not modelled: the
-- source would put the property on it.
unfoldable pub object_at : Option Json → Props
object_at (some (obj ps)) = ps
object_at _ = end

unfoldable pub write_keys : Text → List Text → Json → Props → Props
write_keys key [] value document = put key value document
write_keys key (next ∷ keys) value document =
    put key (obj (write_keys next keys value (object_at (lookup key document)))) document

unfoldable pub write_setting_value : Props → Text → Json → Props
write_setting_value document path value =
    let (first, others) = split_path path in write_keys first others value document

-- `field.kind === "secret" && (value === "" || value === undefined)`
abbrev pub is_blank : Option Json → Bool
is_blank none = true
is_blank (some (str s)) = is_empty s
is_blank _ = false

abbrev pub is_kept : SettingsField → Option Json → Bool
is_kept field value = is_secret field.kind && is_blank value

-- `values[path]`
abbrev pub value_at : Text → Assoc (Option Json) → Option Json
value_at path values = or_default (get path values) none

module _ (show : Json → Text) (parse : Option Json → Option Number) where
  unfoldable pub write_fields : List SettingsField → Assoc (Option Json) → Props → Props
  write_fields [] values document = document
  write_fields (field ∷ fields) values document =
      let value = value_at field.path values in
      write_fields fields values (
        if is_kept field value
        then document
        else write_setting_value document field.path
            (coerce_setting_value show parse field.kind value))

  unfoldable pub settings_document : List SettingsField → Assoc (Option Json) → Props
  settings_document fields values = write_fields fields values end

-- The words are what the page passes in.
unfoldable pub display_setting_value : (Json → Text) → Option Json → Text → Text → Text
unfolding units
display_setting_value show none on off = units "—"
display_setting_value show (some null) on off = units "—"
display_setting_value show (some (bool b)) on off = if b then on else off
display_setting_value show (some (str s)) on off = if is_empty s then units "—" else s
display_setting_value show (some (arr nil)) on off = units "—"
display_setting_value show (some (arr (cons v vs))) on off =
    join (units ", ") (map (item_text show) (elements (cons v vs)))
display_setting_value show (some v) on off = show v

unfoldable pub settings_save_consequence : List SettingsField → Text → Text → Text
settings_save_consequence fields save secrets =
    if any (λ field. is_secret field.kind) fields then save ++ b' ' ∷ secrets else save
