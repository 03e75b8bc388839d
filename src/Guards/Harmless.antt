-- ===== src/Guards/Harmless.antt =====
-- What may go out to a device with no question, written apart from the guards of
-- apps/console/lib/tokens.ts.
use vodoge_cloud.Prelude.{
  String, ◌≡◌, ◌↔◌, Bool, true, false, not, ◌&&◌, List, [], ◌∷◌, Any, any, any_iff, arith,
}
use vodoge_cloud.Text.{Text, units, text_eq}
use vodoge_cloud.Text.Laws.{text_eq_iff}
use vodoge_cloud.Json.{Json, bool, str, Props, field}
use vodoge_cloud.Guards.{is_same}

-- Whatever is asked of the command, unless a field has a value, and only where it has.
abbrev anything : Props → Bool
anything payload = true

abbrev unless : String → Json → Props → Bool
unless name value payload = not (is_same (field name payload) value)

abbrev only_where : String → Json → Props → Bool
only_where name value payload = is_same (field name payload) value

-- What may go out unasked: reads, labels and notes, adoption and its re-check, and of the commands with a
-- way back only that way: not the radio or the data off, not a network picked by hand, and of USSD only
-- the end of a session.
unfoldable pub harmless_commands : List (Text × (Props → Bool))
unfolding units
harmless_commands =
    (units "modem_report", anything)
    ∷ (units "refresh_modems", anything)
    ∷ (units "read_logs", anything)
    ∷ (units "list_esim_profiles", anything)
    ∷ (units "read_esim_info", anything)
    ∷ (units "retrieve_esim_notification", anything)
    ∷ (units "initiate_esim_authentication", anything)
    ∷ (units "rename_esim_profile", anything)
    ∷ (units "update_modem", anything)
    ∷ (units "register_modem", anything)
    ∷ (units "reconfirm_modem", anything)
    ∷ (units "set_radio", unless "enabled" (bool false))
    ∷ (units "set_data_network", unless "enabled" (bool false))
    ∷ (units "select_operator", unless "mode" (str (units "manual")))
    ∷ (units "send_ussd", only_where "stage" (str (units "cancel")))
    ∷ []

abbrev pub IsHarmless : Text → Props → Type 0
IsHarmless kind payload = Any (λ h. (kind ≡ h.0) × (h.1 payload ≡ true)) harmless_commands

unfoldable pub is_harmless : Text → Props → Bool
is_harmless kind payload = any (λ h. text_eq kind h.0 && h.1 payload) harmless_commands

pub is_harmless_iff :
    (kind : Text) (payload : Props) → (is_harmless kind payload ≡ true) ↔ IsHarmless kind payload
unfolding is_harmless
is_harmless_iff kind payload =
    any_iff (λ h. text_eq kind h.0 && h.1 payload) (λ h. (kind ≡ h.0) × (h.1 payload ≡ true))
      (λ h. (
        λ e. ((text_eq_iff kind h.0).0 (ground arith), ground arith),
        λ (same, holds). let found = (text_eq_iff kind h.0).1 same in ground arith,
      ))
      harmless_commands
