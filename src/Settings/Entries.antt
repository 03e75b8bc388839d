-- ===== src/Settings/Entries.antt =====
-- A stored list through its box and back (apps/console/lib/tokens.ts, `settingsFormValues` and
-- `coerceSettingValue`).
use vodoge_cloud.Prelude.{
  ◌≡◌, refl, ap, ◌∙◌, false, not, Option, some, List, [], ◌∷◌, ◌++◌, All, any, map, select, arith,
}
use vodoge_cloud.Text.{Text, is_empty, trim, trim_start}
use vodoge_cloud.Json.{Json, arr, Number, elements, to_text}
use vodoge_cloud.Settings.{
  list, form_value, item_text, join, is_separator, split_entries, entries_of, items_of,
  coerce_setting_value,
}

-- An entry as it is stored: not empty, trimmed, and with no separator in it.
abbrev pub IsEntry : Text → Type 0
IsEntry t = (is_empty t ≡ false) × (trim t ≡ t) × (any is_separator t ≡ false)

split_entries-single : (t : Text) → any is_separator t ≡ false → split_entries t ≡ (t, [])
unfolding split_entries
split_entries-single [] h = refl
split_entries-single (c ∷ t) h = ground (arith, split_entries-single t)

split_entries-append :
    (t r : Text)
    → any is_separator t ≡ false
    → split_entries (t ++ b'\n' ∷ r) ≡ (t, (split_entries r).0 ∷ (split_entries r).1)
unfolding split_entries
split_entries-append [] r h = refl
split_entries-append (c ∷ t) r h = ground (arith, split_entries-append t r)

split_entries-join :
    (t : Text) (ts : List Text)
    → All IsEntry (t ∷ ts)
    → split_entries (join (b'\n' ∷ []) (t ∷ ts)) ≡ (t, ts)
unfolding join
split_entries-join t [] ((_, _, plain), _) = split_entries-single t plain
split_entries-join t (u ∷ ts) ((_, _, plain), rest) =
    split_entries-append t (join (b'\n' ∷ []) (u ∷ ts)) plain
    ∙ ap (λ p. (t, p.0 ∷ p.1)) (split_entries-join u ts rest)

texts_of_items :
    (show : Json → Text) (ts : List Text) → map (item_text show) (elements (items_of ts)) ≡ ts
unfolding elements items_of item_text to_text
texts_of_items show [] = refl
texts_of_items show (t ∷ ts) = ap (λ r. t ∷ r) (texts_of_items show ts)

entries_stay : (ts : List Text) → All IsEntry ts → select (λ t. not (is_empty t)) (map trim ts) ≡ ts
entries_stay [] h = refl
entries_stay (t ∷ ts) ((full, trimmed, _), h) =
    ap (λ u. select (λ t. not (is_empty t)) (u ∷ map trim ts)) trimmed
    ∙ rw (select, full) (ap (λ r. t ∷ r) (entries_stay ts h))

entries_of-join : (ts : List Text) → All IsEntry ts → entries_of (join (b'\n' ∷ []) ts) ≡ ts
unfolding entries_of join split_entries trim trim_start
entries_of-join [] h = refl
entries_of-join (t ∷ ts) h =
    ap (λ p. select (λ t. not (is_empty t)) (map trim (p.0 ∷ p.1))) (split_entries-join t ts h)
    ∙ entries_stay (t ∷ ts) h

-- A stored list of entries that are not empty, trimmed and free of commas and line breaks is saved as it
-- was stored, when its box is left alone.
pub coerce_setting_value-form_value :
    (show : Json → Text) (parse : Option Json → Option Number) (ts : List Text)
    → All IsEntry ts
    → coerce_setting_value show parse list (form_value show (some (arr (items_of ts))))
      ≡ arr (items_of ts)
unfolding coerce_setting_value form_value to_text
coerce_setting_value-form_value show parse ts h =
    ap (λ us. arr (items_of us))
      (ap (λ us. entries_of (join (b'\n' ∷ []) us)) (texts_of_items show ts) ∙ entries_of-join ts h)
