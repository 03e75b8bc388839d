-- ===== src/Connection.antt =====
-- apps/console/lib/pwa.ts: the connection monitor, the platform and the install state.
-- The monitor is a machine over the events that reach it: a watched request or a probe that settled,
-- the browser's `offline`, listeners that come and go, and `stop`. What it does to its surroundings
-- is a list of effects. Times are milliseconds.
pub mod Watch
pub mod Laws
pub mod Timers
pub mod Listeners
pub mod Seen
pub mod Verdict
use vodoge_cloud.Prelude.{
  ℕ, ◌+◌, Bool, true, false, ◌&&◌, ◌||◌, not, Option, none, some, List, [], ◌∷◌, ◌++◌, ◌==◌, ltb,
  leb, if◌then◌else◌, any, map, select,
}

-- `LOST_AFTER_FAILURES`
abbrev pub lost_after_failures : ℕ
lost_after_failures = 2

pub record ConnectionSnapshot : Type 0 where
  pub online : Bool
  pub failures : ℕ
  pub last_ok_at : Option ℕ
  pub loaded_at : ℕ

pub record ConnectionView : Type 0 where
  pub lost : Bool
  pub data_at : ℕ

abbrev pub newest : Option ℕ → ℕ → ℕ
newest none loaded = loaded
newest (some at) loaded = if ltb loaded at then at else loaded

unfoldable pub connection_view : ConnectionSnapshot → ConnectionView
connection_view s = record {
  lost = not s.online || leb lost_after_failures s.failures;
  data_at = newest s.last_ok_at s.loaded_at;
}

-- The variables of `createConnectionMonitor`. `polling` says that `cancelProbes` is not null, and a
-- listener is a number.
pub record Monitor : Type 0 where
  pub seen : ConnectionSnapshot
  pub stopped : Bool
  pub polling : Bool
  pub last : ConnectionView
  pub listeners : List ℕ

pub data Effect : Type 0 where
  notify : (listener : ℕ) → ConnectionView → Effect
  start_probes : Effect
  cancel_probes : Effect

-- `schedule`
unfoldable pub schedule : Monitor → Monitor × List Effect
schedule m =
    if m.stopped
    then (m, [])
    else if m.last.lost && not m.polling
    then (record m { polling = true }, start_probes ∷ [])
    else if not m.last.lost && m.polling
    then (record m { polling = false }, cancel_probes ∷ [])
    else (m, [])

abbrev pub same_bool : Bool → Bool → Bool
same_bool true b = b
same_bool false b = not b

-- `next.lost !== last.lost || next.dataAt !== last.dataAt`
abbrev pub view_changed : ConnectionView → ConnectionView → Bool
view_changed next last = not (same_bool next.lost last.lost) || not (next.data_at == last.data_at)

abbrev pub notify_all : ConnectionView → List ℕ → List Effect
notify_all view listeners = map (λ l. notify l view) listeners

unfoldable pub publish : Monitor → Monitor × List Effect
publish m =
    let view = connection_view m.seen in
    let changed = view_changed view m.last in
    let (m', effects) = schedule (record m { last = view }) in
    (m', effects ++ (if changed then notify_all view m.listeners else []))

unfoldable pub note_reachable : ℕ → Monitor → Monitor × List Effect
note_reachable now m = publish (record m {
  seen = record {
    online = true;
    failures = 0;
    last_ok_at = some now;
    loaded_at = m.seen.loaded_at;
  };
})

unfoldable pub note_unreachable : Monitor → Monitor × List Effect
note_unreachable m = publish (record m {
  seen = record {
    online = m.seen.online;
    failures = m.seen.failures + 1;
    last_ok_at = m.seen.last_ok_at;
    loaded_at = m.seen.loaded_at;
  };
})

-- the handler of `offline`
unfoldable pub note_offline : Monitor → Monitor × List Effect
note_offline m = publish (record m {
  seen = record {
    online = false;
    failures = m.seen.failures;
    last_ok_at = m.seen.last_ok_at;
    loaded_at = m.seen.loaded_at;
  };
})

-- `listeners.add` and `listeners.delete`
unfoldable pub subscribe : ℕ → Monitor → Monitor
subscribe l m =
    if any (λ k. k == l) m.listeners then m else record m { listeners = m.listeners ++ l ∷ [] }

unfoldable pub unsubscribe : ℕ → Monitor → Monitor
unsubscribe l m = record m { listeners = select (λ k. not (k == l)) m.listeners }

unfoldable pub stop : Monitor → Monitor × List Effect
stop m = (
  record m { stopped = true; polling = false; listeners = [] },
  if m.polling then cancel_probes ∷ [] else [],
)

unfoldable pub create : Bool → ℕ → Monitor × List Effect
create online loaded_at =
    let seen : ConnectionSnapshot = record {
      online = online;
      failures = 0;
      last_ok_at = none;
      loaded_at = loaded_at;
    } in
    schedule (record {
      seen = seen;
      stopped = false;
      polling = false;
      last = connection_view seen;
      listeners = [];
    })

pub data Event : Type 0 where
  reachable : (now : ℕ) → Event
  unreachable : Event
  offline : Event
  subscribed : ℕ → Event
  unsubscribed : ℕ → Event
  stopping : Event

-- A stopped monitor has undone its listener for `offline`; a request that was under way when it
-- stopped still settles.
unfoldable pub step : Event → Monitor → Monitor × List Effect
unfolding note_reachable note_unreachable note_offline subscribe unsubscribe stop
step (reachable now) m = note_reachable now m
step unreachable m = note_unreachable m
step offline m = if m.stopped then (m, []) else note_offline m
step (subscribed l) m = (subscribe l m, [])
step (unsubscribed l) m = (unsubscribe l m, [])
step stopping m = stop m

unfoldable pub run : List Event → Monitor → Monitor × List Effect
run [] m = (m, [])
run (e ∷ es) m = let (m', first) = step e m in let (m'', rest) = run es m' in (m'', first ++ rest)
