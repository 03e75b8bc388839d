-- ===== src/SmsSafety/Laws.antt =====
-- When the inbox may send (apps/console/lib/sms-safety.ts).
use vodoge_cloud.Prelude.{
  ◌≡◌, refl, ◌↔◌, inl, inr, Bool, true, Option, none, List, [], ◌∷◌, All, filter_map, arith,
  Bool-cases, Option-cases,
}
use vodoge_cloud.Text.{Text, units, text_eq}
use vodoge_cloud.Text.Laws.{text_eq_iff}
use vodoge_cloud.Assoc.Newest.{All-map}
use vodoge_cloud.SmsSafety.{
  SendModem, SmsBlockedModule, sms_blocked_modules, blocked_module, blocked_send_modules, send_hold,
}

-- The modem is on the device and is the module that must not send.
abbrev pub IsUnsafe : Text → SendModem → Type 0
IsUnsafe device_id modem = (modem.device_id ≡ device_id) × (modem.imei ≡ units "867018069509705")

blocked_module_iff :
    (device_id : Text) (modem : SendModem)
    → (blocked_module device_id modem ≡ none) ↔ (IsUnsafe device_id modem → ⊥)
unfolding blocked_module sms_blocked_modules
blocked_module_iff device_id modem = (
  λ e (here, is).
      let at = (text_eq_iff modem.device_id device_id).1 here in
      let same = (text_eq_iff modem.imei (units "867018069509705")).1 is in absurd (ground arith),
  λ safe. elim (Bool-cases (text_eq modem.device_id device_id)) [
    | inl at ↦ elim (Bool-cases (text_eq modem.imei (units "867018069509705"))) [
      | inl same ↦ absurd (
          safe (
            (text_eq_iff modem.device_id device_id).0 at,
            (text_eq_iff modem.imei (units "867018069509705")).0 same,
          ))
      | inr other ↦ ground arith
    ]
    | inr away ↦ ground arith
  ],
)

filter_map-nil_iff :
    {A B : Type 0} (f : A → Option B) (xs : List A)
    → (filter_map f xs ≡ []) ↔ All (λ x. f x ≡ none) xs
filter_map-nil_iff f [] = (λ e. tt, λ h. refl)
filter_map-nil_iff f (x ∷ xs) = (
  λ e. elim (Option-cases (f x)) [
    | inl dropped ↦ (dropped, (filter_map-nil_iff f xs).0 (ground arith))
    | inr (b, kept) ↦ absurd (ground arith)
  ],
  λ (dropped, h). rw (dropped, filter_map) ((filter_map-nil_iff f xs).1 h),
)

send_hold_iff :
    (known : Bool) (blocked : List SmsBlockedModule)
    → (send_hold known blocked ≡ none) ↔ ((known ≡ true) × (blocked ≡ []))
unfolding send_hold
send_hold_iff known [] = (λ e. (ground arith, refl), λ (k, e). ground arith)
send_hold_iff known (m ∷ blocked) = (λ e. absurd (ground arith), λ (k, e). absurd (ground arith))

-- The form may send exactly when the list of modems was read and no modem on the chosen device is the
-- module that must not send.
pub send_hold-none_iff :
    (known : Bool) (modems : List SendModem) (device_id : Text)
    → (send_hold known (blocked_send_modules modems device_id) ≡ none)
      ↔ ((known ≡ true) × All (λ modem. IsUnsafe device_id modem → ⊥) modems)
unfolding blocked_send_modules
send_hold-none_iff known modems device_id =
    let hold = send_hold_iff known (filter_map (blocked_module device_id) modems) in
    let nil = filter_map-nil_iff (blocked_module device_id) modems in
    (
      λ e. (
        (hold.0 e).0,
        All-map (λ m. (blocked_module_iff device_id m).0) modems (nil.0 (hold.0 e).1),
      ),
      λ (k, safe).
          hold.1 (k, nil.1 (All-map (λ m. (blocked_module_iff device_id m).1) modems safe)),
    )
