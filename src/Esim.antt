-- ===== src/Esim.antt =====
-- apps/console/lib/catalog.ts: what the console reads of an eUICC, and its rows of profiles.
pub mod Answers
pub mod Reads
pub mod Merge
pub mod Failures
pub mod Switch
pub mod Download
pub mod Panel
use vodoge_cloud.Prelude.{
  Bool, Option, none, some, List, [], ◌++◌, ◌>>=◌ as bind, or_default, or_else, filter_map,
  if◌then◌else◌,
}
use vodoge_cloud.Prelude.Int.{ℤ, pos}
use vodoge_cloud.Text.{Text, units, is_empty}
use vodoge_cloud.Json.{
  Json, Props, end, field, as_record, cast_record, array_of, strings_of, text_at, text_or,
  number_at, number_or, true_at,
}
use vodoge_cloud.Session.{encode_uri_component}
use vodoge_cloud.Catalog.{Result, ok, failed, Fetch, Session, get_catalog, cast_rows, ◌>>=◌}

pub data EsimProfileSource : Type 0 where
  inventory : EsimProfileSource
  read : EsimProfileSource

pub record EsimProfileRow : Type 0 where
  pub eid : Text
  pub iccid : Text
  pub state : Text
  pub nickname : Option Text
  pub modem_imei : Option Text
  pub collected_at : ℤ
  pub source : EsimProfileSource

unfoldable pub esim_profile_row : Props → EsimProfileRow
unfolding units
esim_profile_row row = record {
  eid = text_or [] "eid" row;
  iccid = text_or [] "iccid" row;
  state = text_or (units "unknown") "state" row;
  nickname = text_at "nickname" row;
  modem_imei = text_at "modem_imei" row;
  collected_at = number_or (pos 0) "collected_at" row;
  source = inventory;
}

abbrev profiles_from : Fetch → Session → Text → Result (List EsimProfileRow)
profiles_from fetch_impl session path = get_catalog fetch_impl session path >>= λ body.
    cast_rows esim_profile_row (array_of (field "profiles" body))

-- `encodeURIComponent` throws on a lone surrogate; an empty identifier counts as none.
unfoldable pub fetch_esim_profiles : Fetch → Session → Option Text → Result (List EsimProfileRow)
unfolding units
fetch_esim_profiles fetch_impl session none =
    profiles_from fetch_impl session (units "/v1/esim/profiles")
fetch_esim_profiles fetch_impl session (some device_id) =
    if is_empty device_id
    then profiles_from fetch_impl session (units "/v1/esim/profiles")
    else elim (encode_uri_component device_id) [
      | none ↦ failed
      | some encoded ↦
          profiles_from fetch_impl session (units "/v1/esim/profiles?device_id=" ++ encoded)
    ]

pub record EsimChipInfo : Type 0 where
  pub profile_version : Option Text
  pub sgp22_version : Option Text
  pub firmware_version : Option Text
  pub installed_applications : Option ℤ
  pub free_non_volatile_memory : Option ℤ
  pub free_volatile_memory : Option ℤ
  pub uicc_capabilities : List Text
  pub ts102241_version : Option Text
  pub global_platform_version : Option Text
  pub rsp_capabilities : List Text
  pub ci_key_ids_for_verification : List Text
  pub ci_key_ids_for_signing : List Text
  pub category : Option ℤ
  pub forbidden_profile_policy_rules : List Text
  pub pp_version : Option Text
  pub sas_accreditation_number : Option Text
  pub decoded_fields : ℤ

pub record EsimNotificationRow : Type 0 where
  pub sequence_number : ℤ
  pub operations : List Text
  pub address : Text
  pub iccid : Option Text

pub record EsimReadProfile : Type 0 where
  pub iccid : Text
  pub enabled : Bool
  pub label : Option Text
  pub name : Option Text
  pub nickname : Option Text
  pub provider : Option Text
  pub profile_class : Option ℤ
  pub isdp_aid : Option Text

pub record EsimInfoResult : Type 0 where
  pub imei : Text
  pub eid : Text
  pub chip : EsimChipInfo
  pub profiles : List EsimReadProfile
  pub notifications : List EsimNotificationRow
  pub notifications_error : Option Text
  pub profiles_error : Option Text

unfoldable pub read_profile : Props → Text → EsimReadProfile
read_profile row iccid = record {
  iccid = iccid;
  enabled = true_at "enabled" row;
  label = text_at "label" row;
  name = text_at "name" row;
  nickname = text_at "nickname" row;
  provider = text_at "provider" row;
  profile_class = number_at "class" row;
  isdp_aid = text_at "isdp_aid" row;
}

unfoldable pub parse_esim_read_profile : Json → Option EsimReadProfile
parse_esim_read_profile value =
    bind (as_record (some value))
      λ row. bind (text_at "iccid" row) λ iccid. some (read_profile row iccid)

unfoldable pub parse_esim_notification : Json → Option EsimNotificationRow
parse_esim_notification value = bind (as_record (some value)) λ row.
    bind (number_at "sequence_number" row) λ sequence_number.
      bind (text_at "address" row) λ address. some (record {
        sequence_number = sequence_number;
        operations = strings_of (field "operations" row);
        address = address;
        iccid = text_at "iccid" row;
      })

-- `(value ?? {}) as Record<string, unknown>`
abbrev pub record_or_empty : Option Json → Props
record_or_empty none = end
record_or_empty (some value) = or_default (cast_record value) end

unfoldable pub chip_info : Props → EsimChipInfo
chip_info chip = record {
  profile_version = text_at "profile_version" chip;
  sgp22_version = text_at "sgp22_version" chip;
  firmware_version = text_at "firmware_version" chip;
  installed_applications = number_at "installed_applications" chip;
  free_non_volatile_memory = number_at "free_non_volatile_memory" chip;
  free_volatile_memory = number_at "free_volatile_memory" chip;
  uicc_capabilities = strings_of (field "uicc_capabilities" chip);
  ts102241_version = text_at "ts102241_version" chip;
  global_platform_version = text_at "global_platform_version" chip;
  rsp_capabilities = strings_of (field "rsp_capabilities" chip);
  ci_key_ids_for_verification = strings_of (field "ci_key_ids_for_verification" chip);
  ci_key_ids_for_signing = strings_of (field "ci_key_ids_for_signing" chip);
  category = number_at "category" chip;
  forbidden_profile_policy_rules = strings_of (field "forbidden_profile_policy_rules" chip);
  pp_version = text_at "pp_version" chip;
  sas_accreditation_number = text_at "sas_accreditation_number" chip;
  decoded_fields = number_or (pos 0) "decoded_fields" chip;
}

-- `arrayOf(row.profiles).map(parseEsimReadProfile).filter(...)`
abbrev pub profiles_of : Props → List EsimReadProfile
profiles_of row = filter_map parse_esim_read_profile (array_of (field "profiles" row))

unfoldable pub esim_info : Props → Text → Text → EsimInfoResult
esim_info row eid imei = record {
  imei = imei;
  eid = eid;
  chip = chip_info (record_or_empty (field "chip" row));
  profiles = profiles_of row;
  notifications = filter_map parse_esim_notification (array_of (field "notifications" row));
  notifications_error = text_at "notifications_error" row;
  profiles_error = text_at "profiles_error" row;
}

unfoldable pub parse_esim_info_result : Option Json → Option EsimInfoResult
parse_esim_info_result value = bind (as_record value) λ row.
    bind (text_at "eid" row) λ eid. bind (text_at "imei" row) λ imei. some (esim_info row eid imei)

unfoldable pub esim_profile_display_name : EsimReadProfile → Option Text
esim_profile_display_name profile =
    or_else profile.nickname (or_else profile.name (or_else profile.provider profile.label))
