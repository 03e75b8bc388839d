-- ===== src/Connection/Verdict.antt =====
-- When the banner shows a loss, and as of when it says the data is, by the events that the monitor met
-- (apps/console/lib/pwa.ts, `createConnectionMonitor` and `connectionView`).
use vodoge_cloud.Prelude.{
  ℕ, ◌+◌, ◌≤◌, ◌≡◌, refl, ap, ◌∙◌, ◌↔◌, ◌⊎◌, Bool, true, false, none, some, arith, List, ◌∷◌, ◌++◌,
  not, ◌&&◌, ◌||◌, All,
}
use vodoge_cloud.Connection.{
  ConnectionSnapshot, ConnectionView, connection_view, Monitor, create, step, run, note_reachable,
  Event, reachable,
}
use vodoge_cloud.Connection.Laws.{run-create-IsConsistent, schedule_keeps}
use vodoge_cloud.Connection.Seen.{
  IsQuiet, failed, stops, hears_offline, publish_seen, run-append, run-seen, run-stopped,
  run-loaded_at,
}

create_keeps :
    (online : Bool) (loaded_at : ℕ)
    → let m = (create online loaded_at).0 in
      (m.seen ≡ record { online = online; failures = 0; last_ok_at = none; loaded_at = loaded_at })
      × (m.stopped ≡ false)
unfolding create
create_keeps online loaded_at = let (seen, _, _, stopped) = schedule_keeps _ in (seen, stopped)

-- The data is of the later of two moments.
abbrev pub IsLater : ℕ → ℕ → ℕ → Type 0
IsLater a b at = (a ≤ at) × (b ≤ at) × ((at ≡ a) ⊎ (at ≡ b))

view_of_success :
    (now loaded_at count : ℕ) (stopped heard : Bool) (v : ConnectionView)
    → v
      ≡ connection_view (record {
        online = true && (stopped || not heard);
        failures = 0 + count;
        last_ok_at = some now;
        loaded_at = loaded_at;
      })
    → ((v.lost ≡ true) ↔ (((stopped ≡ false) × (heard ≡ true)) ⊎ (2 ≤ count)))
      × IsLater loaded_at now v.data_at
unfolding connection_view
view_of_success now loaded_at count stopped heard v e = ground arith

view_of_none :
    (loaded_at count : ℕ) (online heard : Bool) (v : ConnectionView)
    → v
      ≡ connection_view (record {
        online = online && (false || not heard);
        failures = 0 + count;
        last_ok_at = none;
        loaded_at = loaded_at;
      })
    → ((v.lost ≡ true) ↔ ((online ≡ false) ⊎ ((heard ≡ true) ⊎ (2 ≤ count))))
      × (v.data_at ≡ loaded_at)
unfolding connection_view
view_of_none loaded_at count online heard v e = ground arith

-- After a request that got through and others of which none did, the connection is shown as lost exactly
-- when the browser has said since then that it is offline, to a monitor that was not stopped, or two
-- requests or more have failed since then. The data is as of the later of the page's load and the
-- request that got through.
pub run-reachable :
    (online : Bool) (loaded_at now : ℕ) (before after : List Event)
    → All IsQuiet after
    → let m = (run (before ++ reachable now ∷ after) (create online loaded_at).0).0 in
      ((m.last.lost ≡ true)
        ↔ (((stops before ≡ false) × (hears_offline after ≡ true)) ⊎ (2 ≤ failed after)))
      × IsLater loaded_at now m.last.data_at
unfolding step note_reachable run
run-reachable online loaded_at now before after quiet =
    let opened = (create online loaded_at).0 in
    let m = (run before opened).0 in
    let es = before ++ reachable now ∷ after in
    let (seen, stopped) = create_keeps online loaded_at in
    let stops_by : m.stopped ≡ stops before =
      run-stopped before opened ∙ ap (λ b. b || stops before) stopped in
    let n = (step (reachable now) m).0 in
    let run_is : (run es opened).0 ≡ (run after n).0 =
      run-append before (reachable now ∷ after) opened in
    let (n_seen, n_stopped) = publish_seen (record m {
      seen = record {
        online = true;
        failures = 0;
        last_ok_at = some now;
        loaded_at = m.seen.loaded_at;
      };
    }) in
    let loaded : m.seen.loaded_at ≡ loaded_at =
      run-loaded_at before opened ∙ ap (λ (s : ConnectionSnapshot). s.loaded_at) seen in
    let shown = (run-create-IsConsistent online loaded_at es).shown in
    view_of_success now loaded_at (failed after) (stops before) (hears_offline after)
      (run es opened).0.last
      (shown
        ∙ ap (λ (x : Monitor). connection_view x.seen) run_is
        ∙ ap connection_view
            (run-seen after n quiet ∙ rw (n_seen, n_stopped, stops_by, loaded) refl))

-- Where no request got through yet, the connection is shown as lost exactly when the browser was offline
-- at the start or has said since then, to a monitor that was not stopped, that it is, or two requests or
-- more have failed. The data is as of the page's load.
pub run_quiet :
    (online : Bool) (loaded_at : ℕ) (es : List Event)
    → All IsQuiet es
    → let m = (run es (create online loaded_at).0).0 in
      ((m.last.lost ≡ true) ↔ ((online ≡ false) ⊎ ((hears_offline es ≡ true) ⊎ (2 ≤ failed es))))
      × (m.last.data_at ≡ loaded_at)
run_quiet online loaded_at es quiet =
    let opened = (create online loaded_at).0 in
    let (seen, stopped) = create_keeps online loaded_at in
    view_of_none loaded_at (failed es) online (hears_offline es) (run es opened).0.last (
      (run-create-IsConsistent online loaded_at es).shown
      ∙ ap connection_view (run-seen es opened quiet ∙ rw (seen, stopped) refl))
