-- ===== src/Guards/Table.antt =====
-- apps/console/lib/tokens.ts, `DEVICE_COMMAND_GUARDS` and `deviceCommandGuard`.
use vodoge_cloud.Prelude.{String, false, Option, none, some, List, [], ◌∷◌, ◌++◌, if◌then◌else◌}
use vodoge_cloud.Text.{Text, units, text_eq}
use vodoge_cloud.Json.{Json, bool, str, Props, field, text_of}
use vodoge_cloud.Assoc.{Assoc, get}
use vodoge_cloud.Guards.{
  AtCommandGuard, at_command_guard, CommandGuard, CommandGuardVariant, first_fitting,
  unknown_command,
}

-- A variant without a condition, and one with a condition on one field.
unfoldable pub always : Option Text → String → CommandGuardVariant
unfolding units
always consequence why = record {
  when = [];
  guard = record { consequence = consequence; why = units why };
}

unfoldable pub when_field : String → Json → Option Text → String → CommandGuardVariant
unfolding units
when_field name value consequence why = record {
  when = (units name, value) ∷ [];
  guard = record { consequence = consequence; why = units why };
}

-- The reads of the device console.
unfoldable pub read_guards : Assoc (List CommandGuardVariant)
unfolding units
read_guards =
    (units "modem_report", always none "a diagnostic read; it changes nothing on the module" ∷ [])
    ∷ (units "refresh_modems", always none "re-enumerates what the agent can already see" ∷ [])
    ∷ []

-- The writes of the device console on a module and its record.
unfoldable pub module_guards : Assoc (List CommandGuardVariant)
unfolding units
module_guards =
    (
      units "restart_modem",
      always (some (units "device.confirmRestartModem"))
            "the vowifi board's T078: this is how a module reaches +CFUN: 7, and nobody can reach the hardware to power-cycle it"
          ∷ [],
    )
    ∷ (
      units "reset_modem_usb",
      always (some (units "device.confirmResetModemUsb"))
            "the module leaves the USB bus; it arrives over USB/IP, so a stick that does not come back cannot be replugged"
          ∷ [],
    )
    ∷ (
      units "scan_operators",
      always (some (units "device.confirmScanOperators"))
            "the radio is taken away for up to three minutes; the way back is nothing, which the old shared sentence got wrong"
          ∷ [],
    )
    ∷ (
      units "rotate_ip",
      always (some (units "device.confirmRotateIp"))
            "the data session is torn down and rebuilt for a new address; the old sentence said 'off the network', which is not what this does"
          ∷ [],
    )
    ∷ (
      units "reregister_network",
      always (some (units "device.confirmReregister"))
            "detach and attach: the module is off the air until the network takes it back"
          ∷ [],
    )
    ∷ (
      units "set_radio",
      when_field "enabled" (bool false) (some (units "device.confirmRadioOff"))
            "no calls, no messages, no data until it is switched back on"
          ∷ always none "switching the radio back on is the way back from the guarded half"
          ∷ [],
    )
    ∷ (
      units "set_data_network",
      when_field "enabled" (bool false) (some (units "device.confirmDataOff"))
            "the default bearer goes down and anything routed through this module stops"
          ∷ always none "bringing data back up is the way back from the guarded half"
          ∷ [],
    )
    ∷ (
      units "rename_esim_profile",
      always none
            "it changes a label stored on the card and nothing about the subscription; a dialog in front of renaming trains people to click through the one in front of deleting"
          ∷ [],
    )
    ∷ (
      units "disable_esim_profile",
      always (some (units "device.confirmDisableProfile"))
            "the module is left with no profile in service, so it drops off the network until another one is enabled"
          ∷ [],
    )
    ∷ (
      units "delete_esim_profile",
      always (some (units "device.confirmDeleteProfile"))
            "the only irreversible command in this catalogue: the card keeps no copy and a paid profile generally needs a fresh activation code from the operator"
          ∷ [],
    )
    ∷ (
      units "claim_modem_candidate",
      always (some (units "device.confirmClaimCandidate"))
            "approving one lets the agent write AT to a port it has only looked at, and a serial endpoint is not necessarily a modem"
          ∷ [],
    )
    ∷ (
      units "revoke_modem_candidate",
      always (some (units "device.confirmRevokeCandidate"))
            "the port stops being opened on the next pass, so a module that only answers there goes quiet; the agent refuses outright when that module is currently managed, but an operator who revoked the wrong row would watch a probe they were waiting on simply stop"
          ∷ [],
    )
    ∷ (
      units "register_modem",
      always none
            "adopting a module the agent already identified changes nothing on the hardware; reading its identity is what already happened, and the list it joins is the point"
          ∷ [],
    )
    ∷ (
      units "unregister_modem",
      always (some (units "device.confirmUnregister"))
            "the module stops being polled and leaves the list; what it carried is kept, but an operator who did this by accident would see a working stick vanish"
          ∷ [],
    )
    ∷ (
      units "create_modem",
      always (some (units "device.confirmCreateModem"))
            "it writes a register entry for hardware nothing has looked at, so a mistyped IMEI becomes a module that will never appear and will be alerted about forever, with no observation anywhere to catch the typo. Discovery-then-adopt has the module's own answer to check against; this path has nothing"
          ∷ [],
    )
    ∷ (
      units "update_modem",
      always none
            "it edits the adoption note and nothing else: the module keeps working through it, and the adoption date and who decided are not writable here at all. A dialog in front of correcting a sentence is how notes stay wrong"
          ∷ [],
    )
    ∷ (
      units "reconfirm_modem",
      always none
            "it re-runs the adoption gates and touches no hardware: the mark is cleared only when they pass, and otherwise kept while the quarantine clock restarts. It is the first thing to press after a gate alarm, and a dialog in front of that is how people stop pressing it"
          ∷ [],
    )
    ∷ []

-- The rest of the device console: logs, networks, USSD and the AT box.
unfoldable pub network_guards : Assoc (List CommandGuardVariant)
unfolding units
network_guards =
    (
      units "read_logs",
      always none
            "it returns the agent's own recent output and touches no module; a dialog in front of reading a log is how people stop reading logs"
          ∷ [],
    )
    ∷ (
      units "configure_apn",
      always (some (units "device.confirmConfigureApn"))
            "the module keeps a written context across a reboot, so a wrong APN takes the stick off data until somebody notices and there is no automatic way back"
          ∷ [],
    )
    ∷ (
      units "select_operator",
      when_field "mode" (str (units "manual")) (some (units "device.confirmSelectOperator"))
            "T030: pinning a module to a PLMN that is not on the air leaves it searching for ever, and the page shows that as 'searching'"
          ∷ always none
              "automatic selection is the recovery from a manual one; guarding the way back is how a dialog becomes reflex"
          ∷ [],
    )
    ∷ (
      units "set_usbnet_mode",
      when_field "usbnet_mode" (str (units "rmnet")) (some (units "device.confirmUsbnetRmnet"))
            "rmnet keeps the QMI port, so the module comes back by itself — but it still re-enumerates on the spot"
          ∷ always (some (units "device.confirmUsbnet"))
              "every other mode removes the port the agent finds the module through, so the undo cannot travel back"
          ∷ [],
    )
    ∷ (
      units "send_ussd",
      when_field "stage" (str (units "cancel")) none
            "cancelling closes a session somebody already opened; it is the way out, not a way in"
          ∷ when_field "stage" (str (units "continue")) (some (units "device.confirmUssdReply"))
              "T030: a menu item is a chargeable choice, and the call-forwarding menus change the subscription"
          ∷ always (some (units "device.confirmUssdSend"))
              "T030: a service code can be billed and can change the subscription; nothing asked before this card"
          ∷ [],
    )
    ∷ (
      units "run_at_command",
      always none
            "decided per typed command by AT_COMMAND_GUARDS; a command that trips no entry is a read or a reversible write"
          ∷ [],
    )
    ∷ []

-- The eSIM panel.
unfoldable pub esim_guards : Assoc (List CommandGuardVariant)
unfolding units
esim_guards =
    (
      units "list_esim_profiles",
      always none "ES10c list; it reads the chip's inventory and writes nothing" ∷ [],
    )
    ∷ (
      units "read_esim_info",
      always none "ES10b read-only, which is what its own heading says" ∷ [],
    )
    ∷ (
      units "retrieve_esim_notification",
      always none
            "fetches a notification the card is already holding for delivery; it is the delivery step, not a change of state"
          ∷ [],
    )
    ∷ (
      units "initiate_esim_authentication",
      always none
            "an ES9+ round trip that stops before PrepareDownload; the panel renders the evidence that it stopped"
          ∷ [],
    )
    ∷ (
      units "switch_esim_profile",
      always (some (units "esim.confirmSwitch"))
            "disable one profile and enable another: the card is off the network across the re-registration, and a switch that half-lands leaves no profile enabled"
          ∷ [],
    )
    ∷ (
      units "download_esim_profile",
      always (some (units "esim.dlWarn"))
            "writes a profile into the eUICC and cannot be undone from here; a ppr1/ppr2 profile could never be removed at all"
          ∷ [],
    )
    ∷ []

unfoldable pub device_command_guards : Assoc (List CommandGuardVariant)
unfolding units
device_command_guards = read_guards ++ (module_guards ++ (network_guards ++ esim_guards))

-- `DEVICE_COMMAND_GUARDS.run_at_command[0]`
unfoldable pub run_at_command_guard : CommandGuard
unfolding units
run_at_command_guard = record {
  consequence = none;
  why =
      units
        "decided per typed command by AT_COMMAND_GUARDS; a command that trips no entry is a read or a reversible write";
}

unfoldable pub guard_of_typed : Option AtCommandGuard → CommandGuard
unfolding units
guard_of_typed none = run_at_command_guard
guard_of_typed (some guard) = record {
  consequence = some guard.consequence;
  why = units "AT_COMMAND_GUARDS: " ++ guard.id;
}

-- `variants` is what the table has for a kind.
unfoldable pub guard_of_variants : Option (List CommandGuardVariant) → Props → CommandGuard
guard_of_variants none payload =
    unknown_command "no entry in DEVICE_COMMAND_GUARDS; fail closed rather than send it unasked"
guard_of_variants (some variants) payload =
    first_fitting variants payload
      (unknown_command "no variant matched, so the fallback was removed from this entry")

-- `show` is `String` on what is no text.
unfoldable pub device_command_guard : (Json → Text) → Text → Props → CommandGuard
unfolding units
device_command_guard show kind payload =
    if text_eq kind (units "run_at_command")
    then guard_of_typed (at_command_guard (text_of show (field "command" payload)))
    else guard_of_variants (get kind device_command_guards) payload
