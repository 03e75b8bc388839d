-- ===== src/Tests/Settings.antt =====
-- The settings of the notification section.
use vodoge_cloud.Prelude.{◌≡◌, refl, Option, none, some, [], ◌∷◌, All, length}
use vodoge_cloud.Text.{Text, units, text_eq, trim, trim_start, is_space, split_first}
use vodoge_cloud.Json.{Json, num, str, arr, Number, lookup, as_record, elements, to_text}
use vodoge_cloud.Assoc.{Assoc, get}
use vodoge_cloud.Settings.{
  list, read_keys, read_setting_value, form_value, settings_form_values, item_text, join,
  split_entries, entries_of, items_of, coerce_setting_value, put, object_at, write_keys,
  write_setting_value, write_fields, settings_document, display_setting_value,
  settings_save_consequence,
}
use vodoge_cloud.Settings.Fields.{
  field_of, notification_fields, sms_fields, distinct, notification_channels, same_name, add_field,
  gather, enabled_path_of, group_settings_fields, settings_group_is_on,
}
use vodoge_cloud.Settings.Document.{are_apart, are_separate}
use vodoge_cloud.Settings.Entries.{IsEntry, coerce_setting_value-form_value}

abbrev show : Json → Text
show v = []

abbrev parse : Option Json → Option Number
parse (some (num n)) = some n
parse _ = none

settings : Unit {0}
unfolding units text_eq trim trim_start is_space split_first lookup as_record elements get read_keys
    read_setting_value form_value settings_form_values to_text item_text join split_entries
    entries_of items_of coerce_setting_value put object_at write_keys write_setting_value
    write_fields settings_document display_setting_value settings_save_consequence field_of
    notification_fields sms_fields distinct notification_channels same_name add_field gather
    enabled_path_of group_settings_fields settings_group_is_on are_apart are_separate
settings = tt

channels :
    notification_channels notification_fields
    ≡ units "webhook"
      ∷ units "email"
      ∷ units "bark"
      ∷ units "telegram"
      ∷ units "feishu"
      ∷ units "wecom"
      ∷ units "pushplus"
      ∷ []
unfolding settings
channels = refl

seven_groups : length (group_settings_fields notification_fields) ≡ 7
unfolding settings
seven_groups = refl

flat_group :
    group_settings_fields sms_fields
    ≡ record { name = none; fields = sms_fields; enabled_path = none } ∷ []
unfolding settings
flat_group = refl

-- A list by commas and line breaks, and a secret that is left alone.
abbrev typed : Assoc (Option Json)
unfolding units
typed =
    (units "webhook.urls", some (str (units " a ,b\n\nc")))
    ∷ (units "webhook.secret", some (str []))
    ∷ []

list_by_commas :
    read_setting_value
      (settings_document show parse notification_fields typed)
      (units "webhook.urls")
    ≡ some (arr (items_of (units "a" ∷ units "b" ∷ units "c" ∷ [])))
unfolding settings
list_by_commas = refl

secret_kept :
    read_setting_value
      (settings_document show parse notification_fields typed)
      (units "webhook.secret")
    ≡ none
unfolding settings
secret_kept = refl

two_entries : All IsEntry (units "a" ∷ units "b c" ∷ [])
unfolding settings
two_entries = ((refl, refl, refl), ((refl, refl, refl), tt))

coerce_setting_value-form_value_example :
    coerce_setting_value show parse list
      (form_value show (some (arr (items_of (units "a" ∷ units "b c" ∷ [])))))
    ≡ arr (items_of (units "a" ∷ units "b c" ∷ []))
coerce_setting_value-form_value_example =
    coerce_setting_value-form_value show parse (units "a" ∷ units "b c" ∷ []) two_entries
