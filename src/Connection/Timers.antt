-- ===== src/Connection/Timers.antt =====
-- The monitor's probing timer (apps/console/lib/pwa.ts, `schedule`).
use vodoge_cloud.Prelude.{
  ℕ, ◌+◌, ◌≡◌, refl, Bool, true, false, arith, List, [], ◌∷◌, ◌++◌, if◌then◌else◌, any, ◌==◌,
  if_both,
}
use vodoge_cloud.Connection.{
  ConnectionView, connection_view, Monitor, Effect, notify, start_probes, cancel_probes, schedule,
  publish, stop, unsubscribe, step, run, Event, reachable, unreachable, offline, view_changed,
  notify_all, subscribed, unsubscribed, stopping,
}

-- The timers that a list of effects starts, less those that it cancels, is written as an equation.
pub starts : List Effect → ℕ
starts [] = 0
starts (start_probes ∷ es) = 1 + starts es
starts (notify l v ∷ es) = starts es
starts (cancel_probes ∷ es) = starts es

pub cancels : List Effect → ℕ
cancels [] = 0
cancels (cancel_probes ∷ es) = 1 + cancels es
cancels (notify l v ∷ es) = cancels es
cancels (start_probes ∷ es) = cancels es

abbrev pub bit : Bool → ℕ
bit true = 1
bit false = 0

-- A timer is started only when none runs, and cancelled only when one does.
abbrev pub Balanced : Monitor → Monitor × List Effect → Type 0
Balanced m r = starts r.1 + bit m.polling ≡ cancels r.1 + bit r.0.polling

schedule-Balanced : (m : Monitor) → Balanced m (schedule m)
unfolding schedule starts cancels
schedule-Balanced m = ground arith

starts-append : (a b : List Effect) → starts (a ++ b) ≡ starts a + starts b
unfolding starts
starts-append [] b = omega arith
starts-append (start_probes ∷ a) b = omega (arith, starts-append a b)
starts-append (notify l v ∷ a) b = starts-append a b
starts-append (cancel_probes ∷ a) b = starts-append a b

cancels-append : (a b : List Effect) → cancels (a ++ b) ≡ cancels a + cancels b
unfolding cancels
cancels-append [] b = omega arith
cancels-append (cancel_probes ∷ a) b = omega (arith, cancels-append a b)
cancels-append (notify l v ∷ a) b = cancels-append a b
cancels-append (start_probes ∷ a) b = cancels-append a b

no_timers :
    (c : Bool) (v : ConnectionView) (ls : List ℕ)
    → (starts (if c then notify_all v ls else []) ≡ 0)
      × (cancels (if c then notify_all v ls else []) ≡ 0)
unfolding starts cancels
no_timers false v ls = (refl, refl)
no_timers true v [] = (refl, refl)
no_timers true v (l ∷ ls) = no_timers true v ls

publish-Balanced : (m : Monitor) → Balanced m (publish m)
unfolding publish
publish-Balanced m =
    let shown : Monitor = record m { last = connection_view m.seen } in
    let changed = view_changed (connection_view m.seen) m.last in
    let told : List Effect =
      if changed then notify_all (connection_view m.seen) m.listeners else [] in
    let none_there = no_timers changed (connection_view m.seen) m.listeners in
    omega (
      arith,
      schedule-Balanced shown,
      starts-append (schedule shown).1 told,
      cancels-append (schedule shown).1 told,
      none_there.0,
      none_there.1,
    )

quiet-Balanced : (m m' : Monitor) → m.polling ≡ m'.polling → Balanced m (m', [])
unfolding starts cancels
quiet-Balanced m m' e = ground arith

stop-Balanced : (m : Monitor) → Balanced m (stop m)
unfolding stop starts cancels
stop-Balanced m = ground arith

step-Balanced : (e : Event) (m : Monitor) → Balanced m (step e m)
unfolding step
step-Balanced (reachable now) m = publish-Balanced (record m { seen = _ })
step-Balanced unreachable m = publish-Balanced (record m { seen = _ })
step-Balanced offline m =
    if_both (λ (r : Monitor × List Effect). Balanced m r) m.stopped {x = (m, [])}
      (quiet-Balanced m m refl) (publish-Balanced (record m { seen = _ }))
step-Balanced (subscribed l) m =
    if_both (λ (m' : Monitor). Balanced m (m', [])) (any (λ k. k == l) m.listeners)
      (quiet-Balanced m m refl)
      (quiet-Balanced m (record m { listeners = m.listeners ++ l ∷ [] }) refl)
step-Balanced (unsubscribed l) m = quiet-Balanced m (unsubscribe l m) refl
step-Balanced stopping m = stop-Balanced m

-- At every moment of a monitor's life the probing timers that it has started are those that it has
-- cancelled and the one that runs, if one does: none is leaked, and none is started twice.
pub run-Balanced : (es : List Event) (m : Monitor) → Balanced m (run es m)
unfolding run
run-Balanced [] m = quiet-Balanced m m refl
run-Balanced (e ∷ es) m = omega (
  arith,
  step-Balanced e m,
  run-Balanced es (step e m).0,
  starts-append (step e m).1 (run es (step e m).0).1,
  cancels-append (step e m).1 (run es (step e m).0).1,
)
