-- ===== src/DeviceConsole/Body.antt =====
-- The body that goes to the gateway, beside what the guards are asked about
-- (apps/console/components/device-console.tsx, `runNow` and `request`).
use vodoge_cloud.Prelude.{◌≡◌, refl, ◌∙◌, none, some, arith}
use vodoge_cloud.Text.{Text, units, text_eq}
use vodoge_cloud.Json.{str, Props, prop, end, lookup}
use vodoge_cloud.Settings.{put}
use vodoge_cloud.Settings.Document.{lookup-put}
use vodoge_cloud.DeviceConsole.{spread, Command, body_of}

-- A field that is not spread over an object keeps its value.
spread_kept :
    (j : Text) (extra base : Props)
    → lookup j extra ≡ none
    → lookup j (spread extra base) ≡ lookup j base
unfolding spread lookup
spread_kept j end base h = refl
spread_kept j (prop k v ps) base h =
    spread_kept j ps (put k v base) (ground arith) ∙ lookup-put k j v base ∙ ground arith

kind_first :
    (device_id kind : Text) (ps : Props)
    → lookup
        (units "kind")
        (prop (units "device_id") (str device_id) (prop (units "kind") (str kind) ps))
      ≡ some (str kind)
unfolding lookup text_eq units
kind_first device_id kind ps = refl

-- The body names the kind that the guards were asked about, unless the control sets that field itself.
pub body_of_kind :
    (device_id : Text) (c : Command)
    → lookup (units "kind") c.extra ≡ none
    → lookup (units "kind") (body_of device_id c) ≡ some (str c.kind)
unfolding body_of
body_of_kind device_id c h =
    let ps = prop (units "modem_imei") (str c.imei) end in
    spread_kept (units "kind") c.extra
      (prop (units "device_id") (str device_id) (prop (units "kind") (str c.kind) ps)) h
    ∙ kind_first device_id c.kind ps
