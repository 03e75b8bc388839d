-- ===== src/Consequence/Laws.antt =====
-- What a confirmation states, and what the box of a secret holds
-- (apps/console/lib/tokens.ts, `assertConsequence` and `secretInputProps`).
use vodoge_cloud.Prelude.{
  ◌≤◌, ◌≡◌, ◌≢◌, refl, ◌↔◌, inl, inr, true, false, none, some, [], ◌∷◌, any, length, arith,
  Bool-cases, Option-cases,
}
use vodoge_cloud.Text.{Text, text_eq, trim}
use vodoge_cloud.Text.Laws.{text_eq_iff}
use vodoge_cloud.Json.{Json, str, to_text}
use vodoge_cloud.Consequence.{
  ends_sentence, ends_question, problem_of, consequence_problem, stated, assert_consequence,
  redacted_secret, secret_input_props,
}

-- Long enough, with a sentence in it, and no question.
abbrev pub IsStatement : Text → Type 0
IsStatement t = (16 ≤ length t) × (any ends_sentence t ≡ true) × (ends_question t ≡ false)

problem_of-none_iff : (t : Text) → (problem_of t ≡ none) ↔ IsStatement t
problem_of-none_iff [] = (λ e. absurd (ground arith), λ h. absurd (omega (arith, h.0)))
problem_of-none_iff (c ∷ t) =
    (λ e. ground arith, λ h. let (long, sentence, question) = h in ground arith)

-- A dialog is drawn exactly with a statement: what was handed in, without the spaces around it, where
-- that is long enough, has a sentence and is no question; otherwise the call throws.
pub assert_consequence_iff :
    (consequence t : Text)
    → (assert_consequence consequence ≡ stated t)
      ↔ ((t ≡ trim consequence) × IsStatement (trim consequence))
unfolding assert_consequence consequence_problem
assert_consequence_iff consequence t = elim (Option-cases (problem_of (trim consequence))) [
  | inl fine ↦ (
    λ e. (ground arith, (problem_of-none_iff (trim consequence)).0 fine),
    λ (same, h). rw (fine, same) refl,
  )
  | inr (problem, found) ↦ (
    λ e. absurd (ground arith),
    λ (same, h). let fine = (problem_of-none_iff (trim consequence)).1 h in absurd (ground arith),
  )
]

-- The box of a secret never holds the word that stands for a stored one.
pub secret_input_props-value :
    (show : Json → Text) (s : Text)
    → (secret_input_props show (some (str s))).value ≢ redacted_secret
unfolding secret_input_props to_text redacted_secret
secret_input_props-value show s e = elim (Bool-cases (text_eq s redacted_secret)) [
  | inl same ↦ absurd (ground arith)
  | inr other ↦ let same = (text_eq_iff s redacted_secret).1 (ground arith) in absurd (ground arith)
]
