-- ===== src/Tests/Guards.antt =====
-- The guards on concrete commands.
use vodoge_cloud.Prelude.{◌≡◌, refl, ◌≢◌, ◌↔◌, false, Option, none, some, [], All, arith}
use vodoge_cloud.Text.{Text, units, text_eq, trim, trim_start, is_space}
use vodoge_cloud.Json.{Json, bool, Props, prop, end, lookup, field, text_of, to_text}
use vodoge_cloud.Assoc.{get}
use vodoge_cloud.Pattern.{star_rests, flat_map, rests, ends_word, matches_at_start, word}
use vodoge_cloud.Guards.{
  literal, assigns, at_command_guards, first_tripped, at_command_guard, AtCommandGuard, fits,
  first_fitting, unknown_command,
}
use vodoge_cloud.Guards.Table.{
  read_guards, module_guards, network_guards, esim_guards, always, when_field,
  device_command_guards, run_at_command_guard, guard_of_typed, guard_of_variants,
  device_command_guard,
}
use vodoge_cloud.Guards.Asked.{IsUntripped, device_command_guard-typed_iff}
use vodoge_cloud.Guards.Harmless.{IsHarmless}
use vodoge_cloud.Guards.Unasked.{device_command_guard-unasked_iff}

guards : Unit {0}
unfolding units text_eq trim trim_start is_space lookup field to_text get star_rests flat_map rests
    ends_word matches_at_start word literal assigns at_command_guards first_tripped at_command_guard
    fits first_fitting unknown_command read_guards module_guards network_guards esim_guards always
    when_field device_command_guards run_at_command_guard guard_of_typed guard_of_variants
    device_command_guard
guards = tt

abbrev id_of : Option AtCommandGuard → Option Text
id_of none = none
id_of (some guard) = some guard.id

-- A reset, a radio that is switched off, an update of a card's file, and a channel.
reset_tripped : id_of (at_command_guard (units " at+CFUN = 1 ,1 ")) ≡ some (units "cfun-reset")
unfolding guards
reset_tripped = refl

off_tripped : id_of (at_command_guard (units "AT+CFUN=4,0")) ≡ some (units "cfun-off")
unfolding guards
off_tripped = refl

write_tripped : id_of (at_command_guard (units "AT+CRSM=214,28542")) ≡ some (units "crsm-write")
unfolding guards
write_tripped = refl

usbnet_tripped : id_of (at_command_guard (units "AT+QCFG=\"usbnet\",1")) ≡ some (units "usbnet")
unfolding guards
usbnet_tripped = refl

channel_tripped : id_of (at_command_guard (units "AT+CGLA=1")) ≡ some (units "logical-channel")
unfolding guards
channel_tripped = refl

-- The way back, a sweep of the band and a read go through.
recovery_free : at_command_guard (units "AT+CFUN=1") ≡ none
unfolding guards
recovery_free = refl

sweep_free : at_command_guard (units "AT+COPS=?") ≡ none
unfolding guards
sweep_free = refl

read_free : at_command_guard (units "AT+CRSM=176,28542") ≡ none
unfolding guards
read_free = refl

abbrev show : Json → Text
show v = []

abbrev radio_off : Props
unfolding units
radio_off = prop (units "enabled") (bool false) end

radio_asks :
    (device_command_guard show (units "set_radio") radio_off).consequence
    ≡ some (units "device.confirmRadioOff")
unfolding guards
radio_asks = refl

unknown_asks :
    (device_command_guard show (units "erase_flash") end).consequence
    ≡ some (units "device.confirmUnknownCommand")
unfolding guards
unknown_asks = refl

device_command_guard-typed_iff_example :
    ((device_command_guard show (units "run_at_command") end).consequence ≡ none)
    ↔ All (IsUntripped (trim (text_of show (field "command" end)))) at_command_guards
device_command_guard-typed_iff_example = device_command_guard-typed_iff show end

other_kind : units "modem_report" ≢ units "run_at_command"
unfolding units
other_kind e = absurd (ground arith)

device_command_guard-unasked_iff_example :
    ((device_command_guard show (units "modem_report") end).consequence ≡ none)
    ↔ IsHarmless (units "modem_report") end
device_command_guard-unasked_iff_example =
    device_command_guard-unasked_iff show (units "modem_report") end other_kind
