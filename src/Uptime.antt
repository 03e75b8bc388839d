-- ===== src/Uptime.antt =====
-- apps/console/app/devices/[deviceId]/page.tsx, `uptimeSparkline`: one block per hour.
use vodoge_cloud.Prelude.{
  ℕ, suc, ◌+◌, ◌*◌, ◌/◌, ◌≤◌, Option, none, some, List, [], ◌∷◌, reverse, zero, filter_map, ltb,
  arith, if◌then◌else◌,
}
use vodoge_cloud.Prelude.Int.{ℤ, pos_part, ◌≤ℤ◌}
use vodoge_cloud.Text.{Text, units}
use vodoge_cloud.Catalog.Operations.{UptimeHourRow}

unfoldable pub uptime_blocks : Text
unfolding units
uptime_blocks = units "▁▂▃▄▅▆▇█"

-- The minutes of an hour, held between 0 and 60.
abbrev pub clamped : ℤ → ℕ
clamped minutes = if ltb 60 (pos_part minutes) then 60 else pos_part minutes

-- `Math.ceil(share * 7)`, where the share is a sixtieth of the minutes; a share of 0 has the first
-- block, which is the step 0.
unfoldable pub uptime_step : ℤ → ℕ
uptime_step minutes = (clamped minutes * 7 + 59) / 60

-- A list's element, as `UPTIME_BLOCKS[step]`.
unfoldable pub at_step : Text → ℕ → Option ℕ
at_step [] n = none
at_step (c ∷ cs) zero = some c
at_step (c ∷ cs) (suc n) = at_step cs n

-- `join("")`, where undefined has no text.
unfoldable pub uptime_sparkline : List UptimeHourRow → Text
uptime_sparkline rows =
    filter_map (λ row. at_step uptime_blocks (uptime_step row.minutes_online)) (reverse rows)

step_rises : (m n : ℤ) → m ≤ℤ n → uptime_step m ≤ uptime_step n
unfolding uptime_step
step_rises m n h = ground arith
