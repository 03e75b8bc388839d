-- ===== src/Esim/Switch/Verdict.antt =====
-- What the verdict on a switch stands on (apps/console/lib/tokens.ts, `esimSwitchVerdict`).
use vodoge_cloud.Prelude.{
  ◌≡◌, ◌≢◌, refl, sym, ap, ◌∙◌, subst, ◌⊎◌, inl, inr, false, none, some, List, All, arith,
  Bool-cases,
}
use vodoge_cloud.Text.{Text, units, text_eq, is_empty}
use vodoge_cloud.Text.Laws.{text_eq_iff}
use vodoge_cloud.Json.{Json}
use vodoge_cloud.Newest.{IsLatest, newest_row-cases}
use vodoge_cloud.Esim.Switch.{
  EsimSwitchVerdict, SwitchCommand, ObservedProfile, unverified, confirmed, contradicted, is_switch,
  switched_at, newest_switch, target_of, is_read_after, latest_read, state_of, verdict_of,
  esim_switch_verdict,
}

-- No read of the profile after the switch, or the last such read and what it says.
abbrev pub IsSupported : SwitchCommand → List ObservedProfile → EsimSwitchVerdict → Type 0
IsSupported newest observed v =
    ((v.state ≡ unverified)
      × All (λ q. is_read_after v.target_iccid (switched_at newest) q ≡ false) observed)
    ⊎ ((p : ObservedProfile) × IsLatest (is_read_after v.target_iccid (switched_at newest))
          (λ q. q.collected_at) p observed
        × (((v.state ≡ confirmed) × (p.state ≡ units "enabled"))
            ⊎ ((v.state ≡ contradicted) × (p.state ≢ units "enabled"))))

state_of-some :
    (p : ObservedProfile)
    → ((state_of (some p) ≡ confirmed) × (p.state ≡ units "enabled"))
      ⊎ ((state_of (some p) ≡ contradicted) × (p.state ≢ units "enabled"))
unfolding state_of
state_of-some p = elim (Bool-cases (text_eq p.state (units "enabled"))) [
  | inl same ↦ inl (rw (same) refl, (text_eq_iff p.state (units "enabled")).0 same)
  | inr other ↦ inr (
    rw (other) refl,
    λ e. let same = (text_eq_iff p.state (units "enabled")).1 e in absurd (ground arith),
  )
]

none_read : state_of none ≡ unverified
unfolding state_of
none_read = refl

target_kept :
    (show : Json → Text) (newest : SwitchCommand) (observed : List ObservedProfile)
    → (verdict_of show newest observed).target_iccid ≡ target_of show newest
unfolding verdict_of
target_kept show newest observed = refl

verdict_of-IsSupported :
    (show : Json → Text) (newest : SwitchCommand) (observed : List ObservedProfile)
    → IsSupported newest observed (verdict_of show newest observed)
unfolding verdict_of latest_read
verdict_of-IsSupported show newest observed =
    elim (newest_row-cases (is_read_after (target_of show newest) (switched_at newest))
      (λ q. q.collected_at) observed) [
        | inl (nothing, h) ↦ inl (ap state_of nothing ∙ none_read, h)
        | inr (p, found, latest) ↦ inr (
          p,
          latest,
          elim (state_of-some p) [
            | inl (is, enabled) ↦ inl (ap state_of found ∙ is, enabled)
            | inr (is, other) ↦ inr (ap state_of found ∙ is, other)
          ],
        )
      ]

-- A verdict is about the succeeded switch that finished last. It is unverified exactly where no read of
-- the profile was taken after that switch; else the last such read is enabled and confirms it, or is not
-- and contradicts it.
pub esim_switch_verdict-IsSupported :
    (show : Json → Text) (commands : List SwitchCommand) (observed : List ObservedProfile)
    (v : EsimSwitchVerdict)
    → esim_switch_verdict show commands observed ≡ some v
    → (newest : SwitchCommand) × IsLatest is_switch switched_at newest commands
      × (v.target_iccid ≡ target_of show newest)
      × IsSupported newest observed v
unfolding esim_switch_verdict newest_switch
esim_switch_verdict-IsSupported show commands observed v e =
    elim (newest_row-cases is_switch switched_at commands) [
      | inl (nothing, h) ↦ absurd (ground arith)
      | inr (newest, found, latest) ↦ elim (Bool-cases (is_empty (target_of show newest))) [
        | inl blank ↦ absurd (ground arith)
        | inr named ↦
            let same : verdict_of show newest observed ≡ v = ground arith in
            (
              newest,
              latest,
              ap (λ (w : EsimSwitchVerdict). w.target_iccid) (sym same)
                  ∙ target_kept show newest observed,
              subst (IsSupported newest observed) same
                  (verdict_of-IsSupported show newest observed),
            )
      ]
    ]
