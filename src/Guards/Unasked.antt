-- ===== src/Guards/Unasked.antt =====
-- Which commands other than typed ones go out with no question (apps/console/lib/tokens.ts,
-- `deviceCommandGuard`), beside a list of them that is written apart from the guards.
use vodoge_cloud.Prelude.{
  ◌≡◌, ◌≢◌, refl, sym, ap, ◌∙◌, ◌↔◌, ◌⊎◌, inl, inr, Bool, true, false, none, some, List, [], ◌∷◌,
  ◌++◌, All, All-append, Any, arith, subst, Bool-cases, Option-cases,
}
use vodoge_cloud.Text.{Text, units, text_eq}
use vodoge_cloud.Text.Laws.{text_eq_sound, text_eq-false}
use vodoge_cloud.Json.{Json, Props, field}
use vodoge_cloud.Assoc.{Assoc, get}
use vodoge_cloud.Guards.{CommandGuard, CommandGuardVariant, fits, first_fitting, unknown_command}
use vodoge_cloud.Guards.Table.{
  always, when_field, read_guards, module_guards, network_guards, esim_guards,
  device_command_guards, guard_of_variants, device_command_guard,
}
use vodoge_cloud.Guards.Harmless.{harmless_commands, IsHarmless, is_harmless, is_harmless_iff}
use vodoge_cloud.Guards.Asked.{device_command_guard-other}

abbrev is_free : CommandGuard → Bool
is_free guard = elim guard.consequence [ none ↦ true | some c ↦ false ]

abbrev is_typed : Text → Bool
is_typed kind = text_eq kind (units "run_at_command")

-- An entry of the table goes out unasked exactly where the list says so.
abbrev IsRight : Text × List CommandGuardVariant → Type 0
IsRight (kind, variants) =
    (is_typed kind ≡ true)
    ⊎ ((payload : Props)
        → is_free (guard_of_variants (some variants) payload) ≡ is_harmless kind payload)

entries : Unit {0}
unfolding units text_eq field always when_field fits first_fitting unknown_command guard_of_variants
    harmless_commands is_harmless read_guards module_guards network_guards esim_guards
    device_command_guards get
entries = tt

read_guards-IsRight : All IsRight read_guards
unfolding entries
read_guards-IsRight = (inr (λ p. refl), (inr (λ p. refl), tt))

module_guards-IsRight : All IsRight module_guards
unfolding entries
module_guards-IsRight = (
  inr (λ p. refl),
  (
    inr (λ p. refl),
    (
      inr (λ p. refl),
      (
        inr (λ p. refl),
        (
          inr (λ p. refl),
          (
            inr (λ p. ground arith),
            (
              inr (λ p. ground arith),
              (
                inr (λ p. refl),
                (
                  inr (λ p. refl),
                  (
                    inr (λ p. refl),
                    (
                      inr (λ p. refl),
                      (
                        inr (λ p. refl),
                        (
                          inr (λ p. refl),
                          (
                            inr (λ p. refl),
                            (inr (λ p. refl), (inr (λ p. refl), (inr (λ p. refl), tt))),
                          ),
                        ),
                      ),
                    ),
                  ),
                ),
              ),
            ),
          ),
        ),
      ),
    ),
  ),
)

network_guards-IsRight : All IsRight network_guards
unfolding entries
network_guards-IsRight = (
  inr (λ p. refl),
  (
    inr (λ p. refl),
    (inr (λ p. ground arith), (inr (λ p. ground arith), (inr (λ p. ground arith), (inl refl, tt)))),
  ),
)

esim_guards-IsRight : All IsRight esim_guards
unfolding entries
esim_guards-IsRight = (
  inr (λ p. refl),
  (inr (λ p. refl), (inr (λ p. refl), (inr (λ p. refl), (inr (λ p. refl), (inr (λ p. refl), tt))))),
)

device_command_guards-IsRight : All IsRight device_command_guards
unfolding device_command_guards
device_command_guards-IsRight =
    All-append IsRight read_guards (module_guards ++ (network_guards ++ esim_guards))
      read_guards-IsRight
      (All-append IsRight module_guards (network_guards ++ esim_guards) module_guards-IsRight
        (All-append IsRight network_guards esim_guards network_guards-IsRight esim_guards-IsRight))

-- Every kind of the list has an entry.
abbrev has_entry : Text → Bool
has_entry kind = elim (get kind device_command_guards) [ none ↦ false | some variants ↦ true ]

harmless_commands-has_entry : All (λ h. has_entry h.0 ≡ true) harmless_commands
unfolding entries
harmless_commands-has_entry = (
  refl,
  (
    refl,
    (
      refl,
      (
        refl,
        (refl, (refl, (refl, (refl, (refl, (refl, (refl, (refl, (refl, (refl, (refl, tt))))))))))),
      ),
    ),
  ),
)

found_entry :
    (table : Assoc (List CommandGuardVariant)) (kind : Text) (variants : List CommandGuardVariant)
    → All IsRight table
    → get kind table ≡ some variants
    → IsRight (kind, variants)
unfolding get
found_entry [] kind variants h e = absurd (ground arith)
found_entry ((k, vs) ∷ table) kind variants (first, h) e = elim (Bool-cases (text_eq k kind)) [
  | inl here ↦
      let same : vs ≡ variants = ground arith in
      subst (λ v. IsRight (kind, v)) same
        (subst (λ j. IsRight (j, vs)) (text_eq_sound k kind here) first)
  | inr there ↦ found_entry table kind variants h (ground arith)
]

known_of :
    (hs : List (Text × (Props → Bool))) (kind : Text) (payload : Props)
    → All (λ h. has_entry h.0 ≡ true) hs
    → Any (λ h. (kind ≡ h.0) × (h.1 payload ≡ true)) hs
    → has_entry kind ≡ true
known_of [] kind payload all h = elim h [ ]
known_of (h ∷ hs) kind payload (first, others) (inl (same, _)) =
    subst (λ k. has_entry k ≡ true) (sym same) first
known_of (h ∷ hs) kind payload (first, others) (inr there) = known_of hs kind payload others there

free_iff : (guard : CommandGuard) → (guard.consequence ≡ none) ↔ (is_free guard ≡ true)
free_iff guard = elim (Option-cases guard.consequence) [
  | inl nothing ↦ (λ e. rw (nothing) refl, λ h. nothing)
  | inr (c, found) ↦ (λ e. absurd (ground arith), λ h. absurd (ground arith))
]

unknown-asks : (payload : Props) → is_free (guard_of_variants none payload) ≡ false
unfolding guard_of_variants unknown_command
unknown-asks payload = refl

guard-IsRight :
    (kind : Text) (payload : Props)
    → is_typed kind ≡ false
    → (is_free (guard_of_variants (get kind device_command_guards) payload) ≡ true)
      ↔ IsHarmless kind payload
guard-IsRight kind payload other = elim (Option-cases (get kind device_command_guards)) [
  | inl missing ↦ (
    λ e. let asks = unknown-asks payload in absurd (ground arith),
    λ h.
        let known = known_of harmless_commands kind payload harmless_commands-has_entry h in
        absurd (ground arith),
  )
  | inr (variants, found) ↦
      elim (found_entry device_command_guards kind variants device_command_guards-IsRight found) [
        | inl typed ↦ absurd (ground arith)
        | inr right ↦ (
          λ e. (is_harmless_iff kind payload).0 (
              sym (right payload)
              ∙ ap (λ o. is_free (guard_of_variants o payload)) (sym found)
              ∙ e),
          λ h.
              ap (λ o. is_free (guard_of_variants o payload)) found
              ∙ right payload
              ∙ (is_harmless_iff kind payload).1 h,
        )
      ]
]

-- A command that is not typed goes out with no question exactly where the list of harmless commands has
-- it: turning the radio or the data on and not off, an operator that is not picked by hand, the end of a
-- USSD session, and the reads, labels and adoptions of the list. Any other kind is asked about.
pub device_command_guard-unasked_iff :
    (show : Json → Text) (kind : Text) (payload : Props)
    → kind ≢ units "run_at_command"
    → ((device_command_guard show kind payload).consequence ≡ none) ↔ IsHarmless kind payload
device_command_guard-unasked_iff show kind payload other =
    let guard = guard_of_variants (get kind device_command_guards) payload in
    let plain = text_eq-false kind (units "run_at_command") other in
    let same =
      ap (λ (g : CommandGuard). g.consequence)
        (device_command_guard-other show kind payload other) in
    let right = guard-IsRight kind payload plain in
    (λ e. right.0 ((free_iff guard).0 (sym same ∙ e)), λ h. same ∙ (free_iff guard).1 (right.1 h))
