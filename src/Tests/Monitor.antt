-- ===== src/Tests/Monitor.antt =====
-- The connection monitor on concrete events.
use vodoge_cloud.Prelude.{◌≤◌, ◌≡◌, refl, ◌↔◌, ◌⊎◌, true, false, List, [], ◌∷◌}
use vodoge_cloud.Connection.{
  Monitor, notify, start_probes, cancel_probes, create, step, run, Event, reachable, unreachable,
  offline, subscribed, publish, schedule, connection_view,
}
use vodoge_cloud.Connection.Laws.{IsConsistent, run-create-IsConsistent}
use vodoge_cloud.Connection.Seen.{failed, stops, hears_offline}
use vodoge_cloud.Connection.Verdict.{IsLater, run-reachable, run_quiet}
use vodoge_cloud.Connection.Timers.{Balanced, run-Balanced}
use vodoge_cloud.Connection.Listeners.{Tells, IsNews, step-Tells}

-- A listener comes, two requests fail, the browser goes offline, one request gets through.
abbrev outage : List Event
outage = subscribed 5 ∷ unreachable ∷ unreachable ∷ offline ∷ reachable 90 ∷ []

abbrev opened : Monitor
opened = (create true 10).0

run-outage :
    (run outage opened).1
    ≡ start_probes
      ∷ notify 5 (record { lost = true; data_at = 10 })
      ∷ cancel_probes
      ∷ notify 5 (record { lost = false; data_at = 90 })
      ∷ []
unfolding run step publish schedule connection_view create
run-outage = refl

run-create-IsConsistent_example : IsConsistent (run outage (create true 10).0).0
run-create-IsConsistent_example = run-create-IsConsistent true 10 outage

-- One request gets through, two fail, and a listener comes.
abbrev failures : List Event
failures = unreachable ∷ subscribed 5 ∷ unreachable ∷ []

run-reachable_example :
    ((((run (offline ∷ reachable 90 ∷ failures) (create true 10).0).0.last.lost ≡ true) ↔ (
        ((stops (offline ∷ []) ≡ false) × (hears_offline failures ≡ true)) ⊎ (2 ≤ failed failures)))
      × IsLater 10 90 (run (offline ∷ reachable 90 ∷ failures) (create true 10).0).0.last.data_at)
run-reachable_example = run-reachable true 10 90 (offline ∷ []) failures (tt, (tt, (tt, tt)))

run_quiet_example :
    (((run failures (create true 10).0).0.last.lost ≡ true)
      ↔ ((true ≡ false) ⊎ ((hears_offline failures ≡ true) ⊎ (2 ≤ failed failures))))
    × ((run failures (create true 10).0).0.last.data_at ≡ 10)
run_quiet_example = run_quiet true 10 failures (tt, (tt, (tt, tt)))

run-Balanced_example : Balanced opened (run outage opened)
run-Balanced_example = run-Balanced outage opened

step-Tells_example :
    Tells 5 (record { lost = true; data_at = 10 }) (step offline opened).1
    ↔ IsNews 5 (record { lost = true; data_at = 10 }) opened (step offline opened).0
step-Tells_example = step-Tells offline opened 5 (record { lost = true; data_at = 10 })
