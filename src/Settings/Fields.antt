-- ===== src/Settings/Fields.antt =====
-- apps/console/lib/tokens.ts, `NOTIFICATION_FIELDS` to `settingsGroupIsOn`: the fields of the sections,
-- and their groups.
use vodoge_cloud.Prelude.{
  Bool, true, false, ◌&&◌, Option, none, some, List, [], ◌∷◌, ◌++◌, any, map, if◌then◌else◌,
}
use vodoge_cloud.Text.{Text, units, text_eq}
use vodoge_cloud.Json.{Json, bool}
use vodoge_cloud.Assoc.{Assoc}
use vodoge_cloud.Settings.{
  SettingsField, SettingsFieldKind, text, secret, number, boolean, list, is_boolean, split_path,
  value_at,
}

unfoldable pub field_of : Text → SettingsFieldKind → SettingsField
field_of path kind = record { path = path; kind = kind }

unfoldable pub notification_fields : List SettingsField
unfolding units
notification_fields =
    field_of (units "webhook.enabled") boolean
    ∷ field_of (units "webhook.urls") list
    ∷ field_of (units "webhook.secret") secret
    ∷ field_of (units "email.enabled") boolean
    ∷ field_of (units "email.smtp_host") text
    ∷ field_of (units "email.smtp_port") number
    ∷ field_of (units "email.username") text
    ∷ field_of (units "email.password") secret
    ∷ field_of (units "email.from_address") text
    ∷ field_of (units "email.to_addresses") list
    ∷ field_of (units "bark.enabled") boolean
    ∷ field_of (units "bark.urls") list
    ∷ field_of (units "telegram.enabled") boolean
    ∷ field_of (units "telegram.chat_id") text
    ∷ field_of (units "telegram.bot_token") secret
    ∷ field_of (units "telegram.bot.enabled") boolean
    ∷ field_of (units "telegram.bot.operators") list
    ∷ field_of (units "feishu.enabled") boolean
    ∷ field_of (units "feishu.webhook_url") text
    ∷ field_of (units "feishu.secret") secret
    ∷ field_of (units "wecom.enabled") boolean
    ∷ field_of (units "wecom.webhook_url") text
    ∷ field_of (units "pushplus.enabled") boolean
    ∷ field_of (units "pushplus.token") secret
    ∷ field_of (units "pushplus.topic") text
    ∷ []

unfoldable pub sms_fields : List SettingsField
unfolding units
sms_fields = field_of (units "hourly_limit") number ∷ []

unfoldable pub device_fields : List SettingsField
unfolding units
device_fields = field_of (units "device_quota") number ∷ []

unfoldable pub security_fields : List SettingsField
unfolding units
security_fields = field_of (units "session_ttl_hours") number ∷ []

-- `new Set(...)` in the order of insertion.
unfoldable pub distinct : List Text → List Text → List Text
distinct seen [] = []
distinct seen (t ∷ ts) =
    let rest = distinct (t ∷ seen) ts in
    let rest_seen = distinct seen ts in if any (text_eq t) seen then rest_seen else t ∷ rest

unfoldable pub notification_channels : List SettingsField → List Text
notification_channels fields = distinct [] (map (λ field. (split_path field.path).0) fields)

pub record SettingsGroup : Type 0 where
  pub name : Option Text
  pub fields : List SettingsField
  pub enabled_path : Option Text

-- `parts.length > 1 ? parts[0] : null`
abbrev pub name_of_parts : Text × List Text → Option Text
name_of_parts (first, []) = none
name_of_parts (first, key ∷ keys) = some first

abbrev pub group_name : SettingsField → Option Text
group_name field = name_of_parts (split_path field.path)

unfoldable pub same_name : Option Text → Option Text → Bool
same_name none none = true
same_name (some a) (some b) = text_eq a b
same_name _ _ = false

-- The `Map` in the order of its names.
abbrev pub Named : Type 0
Named = List (Option Text × List SettingsField)

unfoldable pub add_field : Option Text → SettingsField → Named → Named
add_field name field [] = (name, field ∷ []) ∷ []
add_field name field ((other, own) ∷ named) =
    if same_name other name
    then (other, own ++ (field ∷ [])) ∷ named
    else (other, own) ∷ add_field name field named

unfoldable pub gather : List SettingsField → Named → Named
gather [] named = named
gather (field ∷ fields) named = gather fields (add_field (group_name field) field named)

abbrev pub is_switch : Text → SettingsField → Bool
is_switch path field = text_eq field.path path && is_boolean field.kind

unfoldable pub enabled_path_of : Option Text → List SettingsField → Option Text
unfolding units
enabled_path_of none own = none
enabled_path_of (some name) own =
    let path = name ++ units ".enabled" in if any (is_switch path) own then some path else none

abbrev pub group_of : Option Text × List SettingsField → SettingsGroup
group_of (name, own) = record { name = name; fields = own; enabled_path = enabled_path_of name own }

unfoldable pub group_settings_fields : List SettingsField → List SettingsGroup
group_settings_fields fields = map group_of (gather fields [])

abbrev pub is_json_true : Option Json → Bool
is_json_true (some (bool b)) = b
is_json_true _ = false

unfoldable pub settings_group_is_on : SettingsGroup → Assoc (Option Json) → Bool
settings_group_is_on group values = elim group.enabled_path [
  | none ↦ false
  | some path ↦ is_json_true (value_at path values)
]
