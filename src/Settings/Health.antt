-- ===== src/Settings/Health.antt =====
-- apps/console/lib/catalog.ts, `ChannelHealthRow` to `fetchChannelHealth`: the stored settings and how the
-- channels do. A list where an object is expected is not modelled. `date` is `Date.parse`, with `none` for NaN, and `locale` is localeCompare.
use vodoge_cloud.Prelude.{Bool, Option, none, some, List, [], ◌∷◌, ◌++◌}
use vodoge_cloud.Prelude.Int.{ℤ, pos, ◌-ℤ◌}
use vodoge_cloud.Text.{Text, units}
use vodoge_cloud.Json.{
  Json, Props, prop, end, field, as_record, text_at, text_or, number_at, number_or, true_at,
}
use vodoge_cloud.Assoc.{Assoc}
use vodoge_cloud.Catalog.{Fetch, Session, Result, ok, ◌>>=◌, get_catalog}
use vodoge_cloud.Esim.Reads.{sort}
use vodoge_cloud.Esim.Merge.{or_next}

pub record ChannelHealthRow : Type 0 where
  pub channel : Text
  pub consecutive_failures : ℤ
  pub last_success : Option ℤ
  pub last_detail : Text
  pub total : ℤ
  pub window_full : Bool

module _ (date : Text → Option ℤ) where
  unfoldable pub success_at : Option Text → Option ℤ
  success_at none = none
  success_at (some text) = date text

  unfoldable pub channel_health_row : Text → Props → ℤ → ChannelHealthRow
  channel_health_row channel row total = record {
    channel = channel;
    consecutive_failures = number_or (pos 0) "consecutive_failures" row;
    last_success = success_at (text_at "last_success" row);
    last_detail = text_or [] "last_detail" row;
    total = total;
    window_full = true_at "window_full" row;
  }

  -- A row without a total is dropped.
  unfoldable pub health_row : Text → Json → List ChannelHealthRow
  health_row channel raw = elim (as_record (some raw)) [
    | none ↦ []
    | some row ↦ elim (number_at "total" row) [
      | none ↦ []
      | some total ↦ channel_health_row channel row total ∷ []
    ]
  ]

  unfoldable pub health_rows : Props → List ChannelHealthRow
  health_rows end = []
  health_rows (prop channel raw ps) = health_row channel raw ++ health_rows ps

  module _ (locale : Text → Text → ℤ) where
    -- What fails most comes first, then the names.
    unfoldable pub health_order : ChannelHealthRow → ChannelHealthRow → ℤ
    health_order a b =
        or_next (b.consecutive_failures -ℤ a.consecutive_failures) (locale a.channel b.channel)

    unfoldable pub parse_channel_health : Option Json → List ChannelHealthRow
    parse_channel_health value = elim (as_record value) [
      | none ↦ []
      | some rows ↦ sort health_order (health_rows rows)
    ]

    unfoldable pub fetch_channel_health : Fetch → Session → Result (List ChannelHealthRow)
    unfolding units
    fetch_channel_health fetch_impl session =
        get_catalog fetch_impl session (units "/v1/settings") >>= λ body.
        ok (parse_channel_health (field "notification_health" body))

-- A section's document is an object.
unfoldable pub sections_of : Props → Assoc Props
sections_of end = []
sections_of (prop section document ps) = elim (as_record (some document)) [
  | none ↦ sections_of ps
  | some fields ↦ (section, fields) ∷ sections_of ps
]

unfoldable pub settings_in : Option Json → Assoc Props
settings_in raw = elim (as_record raw) [ none ↦ [] | some documents ↦ sections_of documents ]

unfoldable pub fetch_settings : Fetch → Session → Result (Assoc Props)
unfolding units
fetch_settings fetch_impl session =
    get_catalog fetch_impl session (units "/v1/settings") >>= λ body.
    ok (settings_in (field "settings" body))
