-- ===== src/Connection/Laws.antt =====
-- The monitor's invariant, what it shows, whom it tells, and its timer (apps/console/lib/pwa.ts).
use vodoge_cloud.Prelude.{
  ℕ, ◌+◌, ◌≤◌, ◌≡◌, refl, sym, ap, ◌∙◌, Bool, true, false, some, arith, List, [], ◌∷◌, not, ◌&&◌,
  any, ◌==◌, if_both,
}
use vodoge_cloud.Connection.{
  ConnectionSnapshot, ConnectionView, connection_view, Monitor, Effect, schedule, publish, create,
  step, run, Event, reachable, unreachable, offline, subscribed, unsubscribed, stopping,
}

-- What is shown is what was seen; the timer runs exactly while the connection is lost and the monitor
-- is not stopped; a stopped monitor tells nobody.
pub record IsConsistent (m : Monitor) : Type 0 where
  pub shown : m.last ≡ connection_view m.seen
  pub timer : m.polling ≡ (not m.stopped && m.last.lost)

-- What the timer's care leaves alone.
pub schedule_keeps :
    (m : Monitor)
    → ((schedule m).0.seen ≡ m.seen)
      × ((schedule m).0.last ≡ m.last)
      × ((schedule m).0.listeners ≡ m.listeners)
      × ((schedule m).0.stopped ≡ m.stopped)
unfolding schedule
schedule_keeps m = ground arith

pub publish_shows :
    (m : Monitor)
    → ((publish m).0.seen ≡ m.seen)
      × ((publish m).0.last ≡ connection_view m.seen)
      × ((publish m).0.listeners ≡ m.listeners)
      × ((publish m).0.stopped ≡ m.stopped)
unfolding publish
publish_shows m = schedule_keeps (record m { last = connection_view m.seen })

schedule-IsConsistent :
    (m : Monitor)
    → m.last ≡ connection_view m.seen
    → (m.stopped ≡ true → m.polling ≡ false)
    → IsConsistent (schedule m).0
unfolding schedule
schedule-IsConsistent m e q = ground arith

publish-IsConsistent :
    (m : Monitor) → (m.stopped ≡ true → m.polling ≡ false) → IsConsistent (publish m).0
unfolding publish
publish-IsConsistent m q = schedule-IsConsistent (record m { last = connection_view m.seen }) refl q

idle : (m : Monitor) → IsConsistent m → m.stopped ≡ true → m.polling ≡ false
idle m v s = ground arith

step-IsConsistent : (e : Event) (m : Monitor) → IsConsistent m → IsConsistent (step e m).0
unfolding step
step-IsConsistent (reachable now) m v = publish-IsConsistent _ (idle m v)
step-IsConsistent unreachable m v = publish-IsConsistent _ (idle m v)
step-IsConsistent offline m v =
    if_both (λ (r : Monitor × List Effect). IsConsistent r.0) m.stopped v
      (publish-IsConsistent _ (idle m v))
step-IsConsistent (subscribed l) m v =
    if_both IsConsistent (any (λ k. k == l) m.listeners) v
      (record { shown = v.shown; timer = v.timer })
step-IsConsistent (unsubscribed l) m v = record { shown = v.shown; timer = v.timer }
step-IsConsistent stopping m v = record { shown = v.shown; timer = refl }

run-IsConsistent : (es : List Event) (m : Monitor) → IsConsistent m → IsConsistent (run es m).0
unfolding run
run-IsConsistent [] m v = v
run-IsConsistent (e ∷ es) m v = run-IsConsistent es (step e m).0 (step-IsConsistent e m v)

-- Whatever happens to a monitor from its creation on, what it shows is what it has seen, and its timer
-- runs exactly while the connection is lost and the monitor is not stopped.
pub run-create-IsConsistent :
    (online : Bool) (loaded_at : ℕ) (es : List Event)
    → IsConsistent (run es (create online loaded_at).0).0
unfolding create
run-create-IsConsistent online loaded_at es =
    run-IsConsistent es _ (schedule-IsConsistent _ refl (λ e. refl))

view-ok :
    (now loaded : ℕ)
    → (connection_view
        (record { online = true; failures = 0; last_ok_at = some now; loaded_at = loaded })).lost
      ≡ false
unfolding connection_view
view-ok now loaded = refl

view-ok_at :
    (now loaded : ℕ)
    → now
      ≤ (connection_view (record {
        online = true;
        failures = 0;
        last_ok_at = some now;
        loaded_at = loaded;
      })).data_at
unfolding connection_view
view-ok_at now loaded = ground arith

view-failed : (s : ConnectionSnapshot) → 2 ≤ s.failures → (connection_view s).lost ≡ true
unfolding connection_view
view-failed s h = ground arith

failure_counts : (m : Monitor) → (step unreachable m).0.seen.failures ≡ m.seen.failures + 1
unfolding step
failure_counts m =
    ap (λ (s : ConnectionSnapshot). s.failures)
      (publish_shows (record m {
        seen = record {
          online = m.seen.online;
          failures = m.seen.failures + 1;
          last_ok_at = m.seen.last_ok_at;
          loaded_at = m.seen.loaded_at;
        };
      })).0

failure_shows :
    (m : Monitor) → (step unreachable m).0.last ≡ connection_view (step unreachable m).0.seen
unfolding step
failure_shows m = let (seen, shown, _, _) = publish_shows _ in shown ∙ ap connection_view (sym seen)

success_shows :
    (m : Monitor) (now : ℕ)
    → (step (reachable now) m).0.last
      ≡ connection_view (record {
        online = true;
        failures = 0;
        last_ok_at = some now;
        loaded_at = m.seen.loaded_at;
      })
unfolding step
success_shows m now = (publish_shows _).1

-- One request that gets through ends a loss and brings the data up to its moment, and two in a row
-- that fail begin a loss, whatever was shown before.
pub step-recovers :
    (m : Monitor) (now : ℕ)
    → ((step (reachable now) m).0.last.lost ≡ false)
      × (now ≤ (step (reachable now) m).0.last.data_at)
      × ((step unreachable (step unreachable m).0).0.last.lost ≡ true)
step-recovers m now =
    let shown = success_shows m now in
    (
      ap (λ (v : ConnectionView). v.lost) shown ∙ view-ok now m.seen.loaded_at,
      rw shown (view-ok_at now m.seen.loaded_at),
      ap (λ (v : ConnectionView). v.lost) (failure_shows (step unreachable m).0)
          ∙ view-failed (step unreachable (step unreachable m).0).0.seen
              (omega (arith, failure_counts m, failure_counts (step unreachable m).0)),
    )
