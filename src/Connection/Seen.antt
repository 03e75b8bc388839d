-- ===== src/Connection/Seen.antt =====
-- What the connection monitor has seen after a number of events (apps/console/lib/pwa.ts,
-- `createConnectionMonitor`).
use vodoge_cloud.Prelude.{
  ℕ, ◌+◌, ◌≡◌, refl, ap, ◌∙◌, inl, inr, Bool, true, false, arith, List, [], ◌∷◌, ◌++◌, not, ◌&&◌,
  ◌||◌, All, Bool-cases, if_both, if◌then◌else◌, any, ◌==◌,
}
use vodoge_cloud.Connection.{
  ConnectionSnapshot, Monitor, publish, step, run, note_reachable, note_unreachable, note_offline,
  subscribe, Event, Effect, reachable, unreachable, offline, subscribed, unsubscribed, stopping,
}
use vodoge_cloud.Connection.Laws.{publish_shows}

-- No request gets through.
abbrev pub IsQuiet : Event → Type 0
IsQuiet (reachable now) = ⊥
IsQuiet unreachable = Unit
IsQuiet offline = Unit
IsQuiet (subscribed l) = Unit
IsQuiet (unsubscribed l) = Unit
IsQuiet stopping = Unit

-- How many requests fail.
unfoldable pub failed : List Event → ℕ
failed [] = 0
failed (reachable now ∷ es) = failed es
failed (unreachable ∷ es) = failed es + 1
failed (offline ∷ es) = failed es
failed (subscribed l ∷ es) = failed es
failed (unsubscribed l ∷ es) = failed es
failed (stopping ∷ es) = failed es

-- The monitor is stopped.
unfoldable pub stops : List Event → Bool
stops [] = false
stops (reachable now ∷ es) = stops es
stops (unreachable ∷ es) = stops es
stops (offline ∷ es) = stops es
stops (subscribed l ∷ es) = stops es
stops (unsubscribed l ∷ es) = stops es
stops (stopping ∷ es) = true

-- The browser says that it is offline while the monitor listens.
unfoldable pub hears_offline : List Event → Bool
hears_offline [] = false
hears_offline (reachable now ∷ es) = hears_offline es
hears_offline (unreachable ∷ es) = hears_offline es
hears_offline (offline ∷ es) = true
hears_offline (subscribed l ∷ es) = hears_offline es
hears_offline (unsubscribed l ∷ es) = hears_offline es
hears_offline (stopping ∷ es) = false

pub publish_seen :
    (m : Monitor) → ((publish m).0.seen ≡ m.seen) × ((publish m).0.stopped ≡ m.stopped)
publish_seen m = let (seen, _, _, stopped) = publish_shows m in (seen, stopped)

subscribe_seen :
    (l : ℕ) (m : Monitor) → ((subscribe l m).seen ≡ m.seen) × ((subscribe l m).stopped ≡ m.stopped)
unfolding subscribe
subscribe_seen l m =
    if_both (λ (x : Monitor). (x.seen ≡ m.seen) × (x.stopped ≡ m.stopped))
      (any (λ k. k == l) m.listeners) (refl, refl) (refl, refl)

pub run-append : (es fs : List Event) (m : Monitor) → (run (es ++ fs) m).0 ≡ (run fs (run es m).0).0
unfolding run
run-append [] fs m = refl
run-append (e ∷ es) fs m = run-append es fs (step e m).0

-- What a monitor has seen after events of which no request got through.
abbrev pub seen_after : Monitor → List Event → ConnectionSnapshot
seen_after m es = record {
  online = m.seen.online && (m.stopped || not (hears_offline es));
  failures = m.seen.failures + failed es;
  last_ok_at = m.seen.last_ok_at;
  loaded_at = m.seen.loaded_at;
}

pub run-seen :
    (es : List Event) (m : Monitor) → All IsQuiet es → (run es m).0.seen ≡ seen_after m es
unfolding run step failed hears_offline note_offline
run-seen [] m q = ground arith
run-seen (reachable now ∷ es) m (q, qs) = absurd q
run-seen (unreachable ∷ es) m (q, qs) =
    let (seen, stopped) = publish_seen (record m {
      seen = record {
        online = m.seen.online;
        failures = m.seen.failures + 1;
        last_ok_at = m.seen.last_ok_at;
        loaded_at = m.seen.loaded_at;
      };
    }) in
    run-seen es (step unreachable m).0 qs ∙ rw (seen, stopped) (ground arith)
run-seen (offline ∷ es) m (q, qs) = elim (Bool-cases m.stopped) [
  | inl stopped ↦
      ap (λ b. (run es (if b then (m, []) else note_offline m).0).0.seen) stopped
      ∙ (run-seen es m qs ∙ ground arith)
  | inr listens ↦
      let (seen, stopped) = publish_seen (record m {
        seen = record {
          online = false;
          failures = m.seen.failures;
          last_ok_at = m.seen.last_ok_at;
          loaded_at = m.seen.loaded_at;
        };
      }) in
      ap (λ b. (run es (if b then (m, []) else note_offline m).0).0.seen) listens
      ∙ (run-seen es (note_offline m).0 qs ∙ rw (seen) (ground arith))
]
run-seen (subscribed l ∷ es) m (q, qs) =
    (let (seen, stopped) = subscribe_seen l m in
      run-seen es (step (subscribed l) m).0 qs ∙ rw (seen, stopped) refl)
run-seen (unsubscribed l ∷ es) m (q, qs) = run-seen es (step (unsubscribed l) m).0 qs
run-seen (stopping ∷ es) m (q, qs) = run-seen es (step stopping m).0 qs ∙ ground arith

-- No event but a stop stops.
step-stopped : (e : Event) (m : Monitor) → stops (e ∷ []) ≡ false → (step e m).0.stopped ≡ m.stopped
unfolding step note_reachable note_unreachable note_offline stops
step-stopped (reachable now) m h = (publish_seen _).1
step-stopped unreachable m h = (publish_seen _).1
step-stopped offline m h =
    if_both (λ (r : Monitor × List Effect). r.0.stopped ≡ m.stopped) m.stopped refl
      (publish_seen _).1
step-stopped (subscribed l) m h = (subscribe_seen l m).1
step-stopped (unsubscribed l) m h = refl
step-stopped stopping m h = absurd (ground arith)

pub run-stopped : (es : List Event) (m : Monitor) → (run es m).0.stopped ≡ (m.stopped || stops es)
unfolding run step stops note_offline
run-stopped [] m = ground arith
run-stopped (reachable now ∷ es) m =
    run-stopped es (step (reachable now) m).0
    ∙ ap (λ b. b || stops es) (step-stopped (reachable now) m refl)
run-stopped (unreachable ∷ es) m =
    run-stopped es (step unreachable m).0
    ∙ ap (λ b. b || stops es) (step-stopped unreachable m refl)
run-stopped (offline ∷ es) m =
    run-stopped es (step offline m).0 ∙ ap (λ b. b || stops es) (step-stopped offline m refl)
run-stopped (subscribed l ∷ es) m =
    run-stopped es (step (subscribed l) m).0
    ∙ ap (λ b. b || stops es) (step-stopped (subscribed l) m refl)
run-stopped (unsubscribed l ∷ es) m = run-stopped es (step (unsubscribed l) m).0
run-stopped (stopping ∷ es) m = run-stopped es (step stopping m).0 ∙ ground arith

step-loaded_at : (e : Event) (m : Monitor) → (step e m).0.seen.loaded_at ≡ m.seen.loaded_at
unfolding step note_reachable note_unreachable note_offline
step-loaded_at (reachable now) m = ap (λ (s : ConnectionSnapshot). s.loaded_at) (publish_seen _).0
step-loaded_at unreachable m = ap (λ (s : ConnectionSnapshot). s.loaded_at) (publish_seen _).0
step-loaded_at offline m =
    if_both (λ (r : Monitor × List Effect). r.0.seen.loaded_at ≡ m.seen.loaded_at) m.stopped refl
      (ap (λ (s : ConnectionSnapshot). s.loaded_at) (publish_seen _).0)
step-loaded_at (subscribed l) m =
    ap (λ (s : ConnectionSnapshot). s.loaded_at) (subscribe_seen l m).0
step-loaded_at (unsubscribed l) m = refl
step-loaded_at stopping m = refl

pub run-loaded_at : (es : List Event) (m : Monitor) → (run es m).0.seen.loaded_at ≡ m.seen.loaded_at
unfolding run
run-loaded_at [] m = refl
run-loaded_at (e ∷ es) m = run-loaded_at es (step e m).0 ∙ step-loaded_at e m
