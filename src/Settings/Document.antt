-- ===== src/Settings/Document.antt =====
-- What a saved document holds (apps/console/lib/tokens.ts, `settingsDocument`).
use vodoge_cloud.Prelude.{
  ◌≡◌, refl, Bool, true, not, ◌&&◌, ◌||◌, Option, none, some, List, [], ◌∷◌, all, arith,
  if◌then◌else◌,
}
use vodoge_cloud.Text.{Text, text_eq}
use vodoge_cloud.Text.Laws.{text_eq_iff}
use vodoge_cloud.Json.{Json, Number, Props, prop, end, lookup}
use vodoge_cloud.Assoc.{Assoc}
use vodoge_cloud.Settings.{
  SettingsField, split_path, put, write_setting_value, is_kept, value_at, coerce_setting_value,
}

-- Neither path leads through the other.
unfoldable pub are_apart : Text → List Text → Text → List Text → Bool
are_apart k [] j js = not (text_eq k j)
are_apart k (k' ∷ ks) j [] = not (text_eq k j)
are_apart k (k' ∷ ks) j (j' ∷ js) = not (text_eq k j) || are_apart k' ks j' js

abbrev pub fields_apart : SettingsField → SettingsField → Bool
fields_apart f g =
    let (k, ks) = split_path f.path in let (j, js) = split_path g.path in are_apart k ks j js

-- No path of the fields leads through another.
unfoldable pub are_separate : List SettingsField → Bool
are_separate [] = true
are_separate (f ∷ fs) = all (λ g. fields_apart f g && fields_apart g f) fs && are_separate fs

pub lookup-put :
    (k j : Text) (v : Json) (ps : Props)
    → lookup j (put k v ps) ≡ (if text_eq k j then some v else lookup j ps)
unfolding lookup put
lookup-put k j v end = refl
lookup-put k j v (prop i w ps) =
    ground (arith, text_eq_iff k j, text_eq_iff i k, text_eq_iff i j, lookup-put k j v ps)

module _ (show : Json → Text) (parse : Option Json → Option Number) where
  -- One round of the loop.
  abbrev write_field : SettingsField → Assoc (Option Json) → Props → Props
  write_field field values document =
      if is_kept field (value_at field.path values)
      then document
      else write_setting_value document field.path
          (coerce_setting_value show parse field.kind (value_at field.path values))

  -- What a field is read back as: its value as its kind has it, and nothing where a secret was left
  -- alone.
  abbrev pub saved : SettingsField → Assoc (Option Json) → Option Json
  saved field values =
      if is_kept field (value_at field.path values)
      then none
      else some (coerce_setting_value show parse field.kind (value_at field.path values))
