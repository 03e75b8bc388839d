-- ===== src/Esim/Failures/Loop.antt =====
-- What the loop over the commands keeps (apps/console/lib/catalog.ts, `esimReadFailures`): the newest
-- success of each module and the modules with a chip.
use vodoge_cloud.Prelude.{
  ◌≡◌, refl, ap, ◌∙◌, subst, inl, inr, true, not, Option, none, some, List, [], ◌∷◌, All, arith,
  Bool-cases, if_both, if◌then◌else◌, or_default,
}
use vodoge_cloud.Prelude.Int.{ℤ, negsuc, ltb_ℤ, ◌≤ℤ◌}
use vodoge_cloud.Text.{Text, units, is_empty, text_eq}
use vodoge_cloud.Text.Laws.{text_eq_refl, text_eq_sound}
use vodoge_cloud.Assoc.{Assoc, set, get-set}
use vodoge_cloud.Esim.{EsimInfoResult, parse_esim_info_result}
use vodoge_cloud.Esim.Reads.{EsimCommandRow, is_chip_command, is_succeeded, or_zero, details_of}
use vodoge_cloud.Esim.Merge.{has}
use vodoge_cloud.Esim.Failures.{
  learn, Reading, success_of, on_success, on_failure, attempt, addressed_imei, read_row, read_rows,
}

-- The command read the chip of this module, and succeeded.
abbrev pub IsReadOf : Text → EsimCommandRow → Type 0
IsReadOf imei r =
    (is_chip_command r.kind ≡ true)
    × (addressed_imei r ≡ some imei)
    × (is_succeeded r.status ≡ true)

success_of-set :
    (k imei : Text) (at : ℤ) (m : Assoc ℤ)
    → success_of k (set imei at m) ≡ (if text_eq imei k then at else success_of k m)
success_of-set k imei at m = elim (Bool-cases (text_eq imei k)) [
  | inl same ↦ ap (λ o. or_default o (negsuc 0)) (get-set imei k at m) ∙ rw (same) refl
  | inr other ↦ ap (λ o. or_default o (negsuc 0)) (get-set imei k at m) ∙ rw (other) refl
]

-- What the loop keeps never falls behind: a success never gets older, a chip is never forgotten.
abbrev pub Grows : Reading → Reading → Type 0
Grows s t =
    ((k : Text) → success_of k s.newest_success ≤ℤ success_of k t.newest_success)
    × ((k : Text) → has k s.known_euicc ≡ true → has k t.known_euicc ≡ true)

on_success-newest :
    (k imei : Text) (row : EsimCommandRow) (s : Reading)
    → success_of k s.newest_success ≤ℤ success_of k (on_success imei row s).newest_success
unfolding on_success
on_success-newest k imei row s =
    elim (Bool-cases (ltb_ℤ (success_of imei s.newest_success) (or_zero row.completed_at))) [
      | inl later ↦
          rw (later, success_of-set k imei (or_zero row.completed_at) s.newest_success)
            (elim (Bool-cases (text_eq imei k)) [
              | inl same ↦
                  let below : success_of imei s.newest_success ≤ℤ or_zero row.completed_at =
                    ground arith in
                  rw (same) (
                    subst (λ j. success_of j s.newest_success ≤ℤ or_zero row.completed_at)
                      (text_eq_sound imei k same) below)
              | inr other ↦ rw (other) (omega arith)
            ])
      | inr earlier ↦ rw (earlier) (omega arith)
    ]

learn-has :
    (k imei : Text) (info : Option EsimInfoResult) (known : List Text)
    → has k known ≡ true
    → has k (learn imei info known) ≡ true
learn-has k imei none known h = h
learn-has k imei (some info) known h = elim (Bool-cases (is_empty info.eid)) [
  | inl blank ↦ rw (blank) h
  | inr named ↦ rw (named) (ground arith)
]

on_success-reaches :
    (imei : Text) (row : EsimCommandRow) (s : Reading)
    → or_zero row.completed_at ≤ℤ success_of imei (on_success imei row s).newest_success
unfolding on_success
on_success-reaches imei row s =
    elim (Bool-cases (ltb_ℤ (success_of imei s.newest_success) (or_zero row.completed_at))) [
      | inl later ↦
          rw
            (
              later,
              success_of-set imei imei (or_zero row.completed_at) s.newest_success,
              text_eq_refl imei,
            )
            (omega arith)
      | inr earlier ↦ rw (earlier) (ground arith)
    ]

on_success-Grows :
    (imei : Text) (row : EsimCommandRow) (s : Reading) → Grows s (on_success imei row s)
unfolding on_success
on_success-Grows imei row s = (
  λ k. on_success-newest k imei row s,
  λ k h. learn-has k imei (parse_esim_info_result (details_of row)) s.known_euicc h,
)

on_failure-Grows :
    (imei : Text) (row : EsimCommandRow) (s : Reading) → Grows s (on_failure imei row s)
unfolding on_failure
on_failure-Grows imei row s = (λ k. omega arith, λ k h. h)

same-Grows : (s : Reading) → Grows s s
same-Grows s = (λ k. omega arith, λ k h. h)

≤ℤ_trans : (a b c : ℤ) → a ≤ℤ b → b ≤ℤ c → a ≤ℤ c
≤ℤ_trans a b c h k = omega arith

then-Grows : (s t u : Reading) → Grows s t → Grows t u → Grows s u
then-Grows s t u (a, b) (c, d) = (
  λ k.
      ≤ℤ_trans (success_of k s.newest_success) (success_of k t.newest_success)
        (success_of k u.newest_success) (a k) (c k),
  λ k h. d k (b k h),
)

attempt-Grows :
    (imei : Option Text) (row : EsimCommandRow) (s : Reading) → Grows s (attempt imei row s)
unfolding attempt
attempt-Grows none row s = same-Grows s
attempt-Grows (some imei) row s =
    if_both (Grows s) (is_succeeded row.status) (on_success-Grows imei row s) (
      if_both (Grows s) (not (text_eq row.status (units "failed"))) (same-Grows s)
        (on_failure-Grows imei row s))

read_row-Grows : (row : EsimCommandRow) (s : Reading) → Grows s (read_row row s)
unfolding read_row
read_row-Grows row s =
    if_both (Grows s) (not (is_chip_command row.kind)) (same-Grows s)
      (attempt-Grows (addressed_imei row) row s)

pub read_rows-Grows : (rows : List EsimCommandRow) (s : Reading) → Grows s (read_rows rows s)
unfolding read_rows
read_rows-Grows [] s = same-Grows s
read_rows-Grows (row ∷ rows) s =
    then-Grows s (read_row row s) (read_rows rows (read_row row s)) (read_row-Grows row s)
      (read_rows-Grows rows (read_row row s))

read_row-reaches :
    (imei : Text) (row : EsimCommandRow) (s : Reading)
    → IsReadOf imei row
    → or_zero row.completed_at ≤ℤ success_of imei (read_row row s).newest_success
unfolding read_row attempt
read_row-reaches imei row s (chip, named, done) =
    rw (chip, named, attempt, done) (on_success-reaches imei row s)

pub read_rows-reaches :
    (imei : Text) (rows : List EsimCommandRow) (s : Reading)
    → All
        (λ r.
          IsReadOf imei r
          → or_zero r.completed_at ≤ℤ success_of imei (read_rows rows s).newest_success)
        rows
unfolding read_rows
read_rows-reaches imei [] s = tt
read_rows-reaches imei (row ∷ rows) s =
    let t = read_row row s in
    (
      λ is.
          ≤ℤ_trans (or_zero row.completed_at) (success_of imei t.newest_success)
            (success_of imei (read_rows rows t).newest_success) (read_row-reaches imei row s is)
            ((read_rows-Grows rows t).0 imei),
      read_rows-reaches imei rows t,
    )
