-- ===== src/Esim/Panel/Broken.antt =====
-- What the panel calls broken now (apps/console/components/esim-panel.tsx,
-- `newestFailureAfterSuccess`).
use vodoge_cloud.Prelude.{
  ◌≡◌, refl, sym, ap, ◌∙◌, Bool, true, false, ◌&&◌, ◌||◌, not, Option, none, some, List, [], ◌∷◌,
  all, arith, inl, inr, Bool-cases, if◌then◌else◌, ◌>>=◌,
}
use vodoge_cloud.Prelude.Int.{ℤ, negsuc, ltb_ℤ}
use vodoge_cloud.Text.{Text, units, text_eq}
use vodoge_cloud.Newest.{only, replaced, is_newer, newest_from}
use vodoge_cloud.Esim.Reads.{EsimCommandRow, is_succeeded, or_zero}
use vodoge_cloud.Esim.Panel.{
  Attempts, is_newer_failure, note_attempt, note_attempts, unless_mended,
  newest_failure_after_success,
}

unfoldable pub is_failed : Text → EsimCommandRow → Bool
unfolding units
is_failed kind row = text_eq row.kind kind && text_eq row.status (units "failed")

-- The row is no success of the kind, or one before the time.
unfoldable pub is_before : Text → ℤ → EsimCommandRow → Bool
is_before kind at row =
    not (text_eq row.kind kind && is_succeeded row.status) || ltb_ℤ (or_zero row.completed_at) at

bind_ext :
    {A : Type 0} (o : Option A) (f g : A → Option A) → ((a : A) → f a ≡ g a) → (o >>= f) ≡ (o >>= g)
bind_ext none f g h = refl
bind_ext (some a) f g h = h a

abbrev finished : EsimCommandRow → ℤ
finished row = or_zero row.completed_at

abbrev step : Text → EsimCommandRow → Attempts → Attempts
step kind row s = if not (text_eq row.kind kind) then s else note_attempt row s

note_attempt-failure :
    (row : EsimCommandRow) (s : Attempts)
    → (note_attempt row s).failure ≡ (
        if text_eq row.status (units "failed") && is_newer_failure row s.failure
        then some row
        else s.failure)
unfolding note_attempt
note_attempt-failure row s = refl

newer_same :
    (row : EsimCommandRow) (failure : Option EsimCommandRow)
    → is_newer_failure row failure ≡ is_newer finished row failure
newer_same row none = refl
newer_same row (some f) = refl

step-failure :
    (kind : Text) (row : EsimCommandRow) (s : Attempts)
    → (step kind row s).failure ≡ replaced finished (only (is_failed kind) row) s.failure
unfolding is_failed
step-failure kind row s = elim (Bool-cases (text_eq row.kind kind)) [
  | inr other ↦ rw (other) refl
  | inl same ↦ elim (Bool-cases (text_eq row.status (units "failed"))) [
    | inr fine ↦ rw (same) (note_attempt-failure row s ∙ rw (fine) refl)
    | inl bad ↦ rw (same) (note_attempt-failure row s ∙ rw (bad, newer_same row s.failure) refl)
  ]
]

note_attempts-failure :
    (kind : Text) (commands : List EsimCommandRow) (s : Attempts)
    → (note_attempts kind commands s).failure
      ≡ newest_from finished (only (is_failed kind)) s.failure commands
unfolding note_attempts newest_from
note_attempts-failure kind [] s = refl
note_attempts-failure kind (row ∷ commands) s =
    note_attempts-failure kind commands (step kind row s)
    ∙ ap (λ o. newest_from finished (only (is_failed kind)) o commands) (step-failure kind row s)

and_true : (b : Bool) → (b && true) ≡ b
and_true true = refl
and_true false = refl

and_assoc : (a b c : Bool) → ((a && b) && c) ≡ (a && (b && c))
and_assoc true b c = refl
and_assoc false b c = refl

raised : (n t a : ℤ) → ltb_ℤ (if ltb_ℤ n t then t else n) a ≡ (ltb_ℤ n a && ltb_ℤ t a)
raised n t a = ground arith

step-success :
    (kind : Text) (row : EsimCommandRow) (s : Attempts) (at : ℤ)
    → ltb_ℤ (step kind row s).newest_success at
      ≡ (ltb_ℤ s.newest_success at && is_before kind at row)
unfolding note_attempt is_before
step-success kind row s at = elim (Bool-cases (text_eq row.kind kind)) [
  | inr other ↦ rw (other) (sym (and_true (ltb_ℤ s.newest_success at)))
  | inl same ↦ elim (Bool-cases (is_succeeded row.status)) [
    | inr fine ↦ rw (same, fine) (sym (and_true (ltb_ℤ s.newest_success at)))
    | inl done ↦ rw (same, done) (raised s.newest_success (finished row) at)
  ]
]

note_attempts-success :
    (kind : Text) (commands : List EsimCommandRow) (s : Attempts) (at : ℤ)
    → ltb_ℤ (note_attempts kind commands s).newest_success at
      ≡ (ltb_ℤ s.newest_success at && all (is_before kind at) commands)
unfolding note_attempts
note_attempts-success kind [] s at = ground arith
note_attempts-success kind (row ∷ commands) s at =
    let later = note_attempts-success kind commands (step kind row s) at in
    let now = step-success kind row s at in
    later
    ∙ ap (λ b. b && all (is_before kind at) commands) now
    ∙ and_assoc (ltb_ℤ s.newest_success at) (is_before kind at row)
        (all (is_before kind at) commands)

-- The failed command of the kind that finished last, where it finished at no negative time and every
-- success of the kind finished before it.
unfoldable pub broken_now : List EsimCommandRow → Text → Option EsimCommandRow
broken_now commands kind = newest_from finished (only (is_failed kind)) none commands >>= λ failure.
    if ltb_ℤ (negsuc 0) (finished failure) && all (is_before kind (finished failure)) commands
    then some failure
    else none

-- One pass of the panel over the commands finds what two questions find: the failed command of the kind
-- that finished last, and whether every success of the kind finished before it.
pub newest_failure_after_success-broken_now :
    (commands : List EsimCommandRow) (kind : Text)
    → newest_failure_after_success commands kind ≡ broken_now commands kind
unfolding newest_failure_after_success unless_mended broken_now
newest_failure_after_success-broken_now commands kind =
    let start : Attempts = record { failure = none; newest_success = negsuc 0 } in
    let s = note_attempts kind commands start in
    ap
      (λ o.
        o >>= λ failure. if ltb_ℤ s.newest_success (finished failure) then some failure else none)
      (note_attempts-failure kind commands start)
    ∙ bind_ext (newest_from finished (only (is_failed kind)) none commands)
        (λ failure. if ltb_ℤ s.newest_success (finished failure) then some failure else none)
        (λ failure.
          if ltb_ℤ (negsuc 0) (finished failure) && all (is_before kind (finished failure)) commands
          then some failure
          else none)
        (λ failure.
          ap (λ b. if b then some failure else none)
            (note_attempts-success kind commands start (finished failure)))
