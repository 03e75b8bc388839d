-- ===== src/Consequence.antt =====
-- apps/console/lib/tokens.ts, `consequenceProblem` and `assertConsequence`: what a confirmation may say,
-- and `secretInputProps`, what the box of a secret holds.
pub mod Laws
use vodoge_cloud.Prelude.{
  ℕ, Bool, true, false, ◌||◌, not, Option, none, some, List, [], ◌∷◌, ◌++◌, ◌==◌, any, length, ltb,
  if◌then◌else◌,
}
use vodoge_cloud.Text.{Text, units, text_eq, is_empty, is_space, trim}
use vodoge_cloud.Json.{Json, str, text_of}

abbrev pub confirm_min_consequence : ℕ
confirm_min_consequence = 16

-- `SENTENCE_END`: . 。 ! ！ ; ；
unfoldable pub ends_sentence : ℕ → Bool
ends_sentence c = c == b'.' || c == 12290 || c == b'!' || c == 65281 || c == b';' || c == 65307

-- `QUESTION_END`: ? or ？, with only spaces behind it.
abbrev pub is_question_mark : ℕ → Bool
is_question_mark c = c == b'?' || c == 65311

abbrev pub is_blank_text : Text → Bool
is_blank_text [] = true
is_blank_text (c ∷ s) = if is_space c then is_blank_text s else false

unfoldable pub ends_question : Text → Bool
ends_question [] = false
ends_question (c ∷ s) = (if is_question_mark c then is_blank_text s else false) || ends_question s

-- The sentences for the next person are named here by what they say.
pub data ConsequenceProblem : Type 0 where
  no_consequence the_question no_sentence : ConsequenceProblem
  too_short : ℕ → ConsequenceProblem

abbrev pub problem_of : Text → Option ConsequenceProblem
problem_of text =
    if is_empty text
    then some no_consequence
    else if ends_question text
    then some the_question
    else if not (any ends_sentence text)
    then some no_sentence
    else if ltb (length text) confirm_min_consequence
    then some (too_short (length text))
    else none

unfoldable pub consequence_problem : Text → Option ConsequenceProblem
consequence_problem consequence = problem_of (trim consequence)

pub data Asserted : Type 0 where
  stated : Text → Asserted
  threw : ConsequenceProblem → Asserted

abbrev pub asserted_of : Option ConsequenceProblem → Text → Asserted
asserted_of none consequence = stated (trim consequence)
asserted_of (some problem) consequence = threw problem

unfoldable pub assert_consequence : Text → Asserted
assert_consequence consequence = asserted_of (consequence_problem consequence) consequence

unfoldable pub redacted_secret : Text
unfolding units
redacted_secret = units "••••••••"

-- The attributes that are the same for each box are not written out.
pub record SecretInputProps : Type 0 where
  pub value : Text
  pub placeholder : Text
  pub stored : Bool

-- `value === REDACTED_SECRET`
abbrev pub is_redacted : Option Json → Bool
is_redacted (some (str s)) = text_eq s redacted_secret
is_redacted _ = false

unfoldable pub secret_input_props : (Json → Text) → Option Json → SecretInputProps
secret_input_props show value = record {
  value = if is_redacted value then [] else text_of show value;
  placeholder = if is_redacted value then redacted_secret else [];
  stored = is_redacted value;
}
