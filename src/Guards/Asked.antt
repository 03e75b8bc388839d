-- ===== src/Guards/Asked.antt =====
-- When a command is sent with no question (apps/console/lib/tokens.ts, `atCommandGuard` and
-- `deviceCommandGuard`).
use vodoge_cloud.Prelude.{
  ◌≡◌, refl, sym, ap, ◌∙◌, ◌≢◌, ◌↔◌, inl, inr, false, Option, none, some, List, [], ◌∷◌, All, arith,
  Bool-cases,
}
use vodoge_cloud.Text.{Text, units, text_eq, trim}
use vodoge_cloud.Text.Laws.{text_eq-false}
use vodoge_cloud.Json.{Json, Props, field, text_of}
use vodoge_cloud.Assoc.{get}
use vodoge_cloud.Pattern.{Takes, matches_at_start}
use vodoge_cloud.Pattern.Laws.{matches_at_start_iff}
use vodoge_cloud.Guards.{
  AtCommandGuard, at_command_guards, first_tripped, at_command_guard, CommandGuard,
}
use vodoge_cloud.Guards.Table.{
  device_command_guards, run_at_command_guard, guard_of_typed, guard_of_variants,
  device_command_guard,
}

-- The guard's expression does not describe the beginning of the text.
abbrev pub IsUntripped : Text → AtCommandGuard → Type 0
IsUntripped typed guard = (r : Text) → Takes guard.pattern typed r → ⊥

IsUntripped-iff :
    (typed : Text) (guard : AtCommandGuard)
    → (matches_at_start guard.pattern typed ≡ false) ↔ IsUntripped typed guard
IsUntripped-iff typed guard = (
  λ e r t. let hit = (matches_at_start_iff guard.pattern typed).1 (r, t) in absurd (ground arith),
  λ h. elim (Bool-cases (matches_at_start guard.pattern typed)) [
    | inl hit ↦ let (r, t) = (matches_at_start_iff guard.pattern typed).0 hit in absurd (h r t)
    | inr miss ↦ miss
  ],
)

first_tripped-none_iff :
    (typed : Text) (guards : List AtCommandGuard)
    → (first_tripped typed guards ≡ none) ↔ All (IsUntripped typed) guards
unfolding first_tripped
first_tripped-none_iff typed [] = (λ e. tt, λ h. refl)
first_tripped-none_iff typed (guard ∷ guards) = (
  λ e. elim (Bool-cases (matches_at_start guard.pattern typed)) [
    | inl hit ↦ absurd (ground arith)
    | inr miss ↦ (
      (IsUntripped-iff typed guard).0 miss,
      (first_tripped-none_iff typed guards).0 (ground arith),
    )
  ],
  λ (h, hs).
      let miss = (IsUntripped-iff typed guard).1 h in
      let others = (first_tripped-none_iff typed guards).1 hs in ground arith,
)

typed-unasked_iff :
    (found : Option AtCommandGuard) → ((guard_of_typed found).consequence ≡ none) ↔ (found ≡ none)
unfolding guard_of_typed run_at_command_guard
typed-unasked_iff none = (λ e. refl, λ e. refl)
typed-unasked_iff (some guard) = (λ e. absurd (ground arith), λ e. absurd (ground arith))

device_command_guard-at :
    (show : Json → Text) (payload : Props)
    → device_command_guard show (units "run_at_command") payload
      ≡ guard_of_typed (at_command_guard (text_of show (field "command" payload)))
unfolding device_command_guard text_eq
device_command_guard-at show payload = refl

pub device_command_guard-other :
    (show : Json → Text) (kind : Text) (payload : Props)
    → kind ≢ units "run_at_command"
    → device_command_guard show kind payload
      ≡ guard_of_variants (get kind device_command_guards) payload
unfolding device_command_guard
device_command_guard-other show kind payload other =
    rw (text_eq-false kind (units "run_at_command") other) refl

-- What is typed into the AT box goes out with no question exactly when, trimmed, it begins like none of
-- the expressions of the guards.
pub device_command_guard-typed_iff :
    (show : Json → Text) (payload : Props)
    → ((device_command_guard show (units "run_at_command") payload).consequence ≡ none)
      ↔ All (IsUntripped (trim (text_of show (field "command" payload)))) at_command_guards
unfolding device_command_guard at_command_guard
device_command_guard-typed_iff show payload =
    let typed = text_of show (field "command" payload) in
    let guards = first_tripped-none_iff (trim typed) at_command_guards in
    let asked = typed-unasked_iff (at_command_guard typed) in
    let same = ap (λ (g : CommandGuard). g.consequence) (device_command_guard-at show payload) in
    (λ e. guards.0 (asked.0 (sym same ∙ e)), λ h. same ∙ asked.1 (guards.1 h))
