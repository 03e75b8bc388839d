-- ===== src/Tones.antt =====
-- apps/console/lib/tokens.ts, `BadgeTone` to `toneForProfileState`: the colours of states. `lower` is
-- toLowerCase. A state named like a property of `Object.prototype` is not modelled.
use vodoge_cloud.Prelude.{[], ◌∷◌, or_default}
use vodoge_cloud.Text.{Text, units}
use vodoge_cloud.Assoc.{Assoc, get}

pub data BadgeTone : Type 0 where
  good warn bad info neutral : BadgeTone

unfoldable pub tone_by_state : Assoc BadgeTone
unfolding units
tone_by_state =
    (units "online", good)
    ∷ (units "registered", good)
    ∷ (units "offline", neutral)
    ∷ (units "busy", warn)
    ∷ (units "searching", warn)
    ∷ (units "denied", bad)
    ∷ (units "error", bad)
    ∷ []

unfoldable pub tone_by_delivery : Assoc BadgeTone
unfolding units
tone_by_delivery =
    (units "delivered", good)
    ∷ (units "sent", good)
    ∷ (units "failed", bad)
    ∷ (units "undelivered", bad)
    ∷ []

unfoldable pub tone_by_command_status : Assoc BadgeTone
unfolding units
tone_by_command_status =
    (units "succeeded", good)
    ∷ (units "failed", bad)
    ∷ (units "expired", bad)
    ∷ (units "cancelled", neutral)
    ∷ (units "pending", warn)
    ∷ (units "dispatched", warn)
    ∷ (units "running", warn)
    ∷ []

unfoldable pub tone_by_profile_state : Assoc BadgeTone
unfolding units
tone_by_profile_state = (units "enabled", good) ∷ (units "deleted", bad) ∷ []

module _ (lower : Text → Text) where
  unfoldable pub tone_for_state : Text → BadgeTone
  tone_for_state state = or_default (get (lower state) tone_by_state) neutral

  unfoldable pub tone_for_delivery_status : Text → BadgeTone
  tone_for_delivery_status status = or_default (get (lower status) tone_by_delivery) warn

  unfoldable pub tone_for_command_status : Text → BadgeTone
  tone_for_command_status status = or_default (get (lower status) tone_by_command_status) neutral

  unfoldable pub tone_for_profile_state : Text → BadgeTone
  tone_for_profile_state state = or_default (get (lower state) tone_by_profile_state) neutral
