-- ===== src/Tests/Sms.antt =====
-- The hold on sending on a concrete fleet.
use vodoge_cloud.Prelude.{◌≡◌, refl, ◌↔◌, true, none, some, List, [], ◌∷◌, All}
use vodoge_cloud.Text.{units, text_eq}
use vodoge_cloud.SmsSafety.{
  SendModem, sms_blocked_modules, blocked_module, blocked_send_modules, blocked_module_hold,
  send_hold,
}
use vodoge_cloud.SmsSafety.Laws.{IsUnsafe, send_hold-none_iff}

abbrev modems : List SendModem
modems = record { device_id = units "d"; imei = units "867018069509705" } ∷ []

held : send_hold true (blocked_send_modules modems (units "d")) ≡ some blocked_module_hold
unfolding units text_eq sms_blocked_modules blocked_module blocked_send_modules send_hold
held = refl

free : send_hold true (blocked_send_modules modems (units "e")) ≡ none
unfolding units text_eq sms_blocked_modules blocked_module blocked_send_modules send_hold
free = refl

send_hold-none_iff_example :
    (send_hold true (blocked_send_modules modems (units "e")) ≡ none)
    ↔ ((true ≡ true) × All (λ modem. IsUnsafe (units "e") modem → ⊥) modems)
send_hold-none_iff_example = send_hold-none_iff true modems (units "e")
