-- ===== src/Interpolate.antt =====
-- apps/console/lib/interpolate.ts. `vars` is the look-up of a name, with its value as text; a name that
-- `Object.prototype` has is not modelled.
use vodoge_cloud.Prelude.{
  ◌≡◌, refl, sym, ap, ◌∙◌, true, false, ◌&&◌, not, Option, none, some, [], ◌∷◌, ◌++◌, ◌==◌, arith,
  inl, inr, Bool-cases,
}
use mathlib.Core.List.{append_assoc, append-nil}
use vodoge_cloud.Text.{Text, is_empty}
use vodoge_cloud.Pattern.{is_word_unit}

-- What stands for a name: its value, or the placeholder itself.
abbrev pub value_of : (Text → Option Text) → Text → Text
value_of vars name = elim (vars name) [ none ↦ b'{' ∷ name ++ (b'}' ∷ []) | some value ↦ value ]

-- One pass over the template: outside of a placeholder, or behind a brace and some word units of a name.
unfoldable pub scan : (Text → Option Text) → Option Text → Text → Text
scan vars none [] = []
scan vars (some name) [] = b'{' ∷ name
scan vars none (c ∷ s) = elim (c == b'{') [
  | true ↦ scan vars (some []) s
  | false ↦ c ∷ scan vars none s
]
scan vars (some name) (c ∷ s) = elim (is_word_unit c) [
  | true ↦ scan vars (some (name ++ (c ∷ []))) s
  | false ↦ elim (c == b'}' && not (is_empty name)) [
    | true ↦ value_of vars name ++ scan vars none s
    | false ↦ elim (c == b'{') [
      | true ↦ b'{' ∷ name ++ scan vars (some []) s
      | false ↦ b'{' ∷ name ++ (c ∷ scan vars none s)
    ]
  ]
]

unfoldable pub interpolate : Text → Option (Text → Option Text) → Text
interpolate template none = template
interpolate template (some vars) = scan vars none template

abbrev pub as_written : Option Text → Text → Text
as_written none s = s
as_written (some name) s = b'{' ∷ name ++ s

abbrev no_value : Text → Option Text
no_value name = none

scan-as_written :
    (pending : Option Text) (s : Text) → scan no_value pending s ≡ as_written pending s
unfolding scan
scan-as_written none [] = refl
scan-as_written (some name) [] = ap (λ t. b'{' ∷ t) (sym (append-nil name))
scan-as_written none (c ∷ s) = elim (Bool-cases (c == b'{')) [
  | inl brace ↦
      let same : c ≡ b'{' = ground arith in
      rw (scan, brace) (scan-as_written (some []) s ∙ ap (λ d. d ∷ s) (sym same))
  | inr plain ↦ rw (scan, plain) (ap (λ t. c ∷ t) (scan-as_written none s))
]
scan-as_written (some name) (c ∷ s) = elim (Bool-cases (is_word_unit c)) [
  | inl word ↦
      rw (scan, word)
        (scan-as_written (some (name ++ (c ∷ []))) s
          ∙ ap (λ t. b'{' ∷ t) (append_assoc name (c ∷ []) s))
  | inr other ↦ elim (Bool-cases (c == b'}' && not (is_empty name))) [
    | inl closed ↦
        let same : c ≡ b'}' = ground arith in
        rw (scan, other, closed)
          (ap (λ t. (b'{' ∷ name ++ (b'}' ∷ [])) ++ t) (scan-as_written none s)
            ∙ ap (λ t. b'{' ∷ t) (append_assoc name (b'}' ∷ []) s)
            ∙ ap (λ d. b'{' ∷ (name ++ (d ∷ s))) (sym same))
    | inr stays ↦ elim (Bool-cases (c == b'{')) [
      | inl brace ↦
          let same : c ≡ b'{' = ground arith in
          rw (scan, other, stays, brace)
            (ap (λ t. b'{' ∷ (name ++ t)) (scan-as_written (some []) s)
              ∙ ap (λ d. b'{' ∷ (name ++ (d ∷ s))) (sym same))
      | inr plain ↦
          rw (scan, other, stays, plain)
            (ap (λ t. b'{' ∷ (name ++ (c ∷ t))) (scan-as_written none s))
    ]
  ]
]

-- A template whose names have no value is left as it is: no sentence loses its object.
pub interpolate_unset : (template : Text) → interpolate template (some no_value) ≡ template
unfolding interpolate
interpolate_unset template = scan-as_written none template
