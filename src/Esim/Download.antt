-- ===== src/Esim/Download.antt =====
-- apps/console/lib/catalog.ts, `EsimDownloadedProfile` to `parseEsimDownload`: the result of a download.
use vodoge_cloud.Prelude.{
  Bool, true, false, not, Option, none, some, List, [], ◌>>=◌, ◌==◌, filter_map, if◌then◌else◌,
}
use vodoge_cloud.Prelude.Int.{ℤ, pos, pos_part, neg_part}
use vodoge_cloud.Text.{Text, is_empty}
use vodoge_cloud.Json.{
  Json, null, bool, num, str, finite, infinite, Props, field, as_record, array_of, strings_of,
  text_at, text_or, number_at, number_or, true_at,
}
use vodoge_cloud.Esim.{EsimNotificationRow, parse_esim_notification, record_or_empty}

pub record EsimDownloadedProfile : Type 0 where
  pub iccid : Text
  pub label : Text
  pub enabled : Bool
  pub provider : Option Text
  pub name : Option Text

pub record EsimDownloadSnapshot : Type 0 where
  pub free_non_volatile_memory : Option ℤ
  pub profiles : List EsimDownloadedProfile
  pub notifications : List EsimNotificationRow

pub record EsimBppSegment : Type 0 where
  pub label : Text
  pub bytes : ℤ
  pub blocks : ℤ

unfoldable pub downloaded_profile : Props → Text → EsimDownloadedProfile
downloaded_profile row iccid = record {
  iccid = iccid;
  label = text_or iccid "label" row;
  enabled = true_at "enabled" row;
  provider = text_at "provider" row;
  name = text_at "name" row;
}

unfoldable pub parse_downloaded_profile : Json → Option EsimDownloadedProfile
parse_downloaded_profile value = as_record (some value) >>= λ row.
    text_at "iccid" row >>= λ iccid. some (downloaded_profile row iccid)

unfoldable pub snapshot_of : Props → EsimDownloadSnapshot
snapshot_of row = record {
  free_non_volatile_memory = number_at "free_non_volatile_memory" row;
  profiles = filter_map parse_downloaded_profile (array_of (field "profiles" row));
  notifications = filter_map parse_esim_notification (array_of (field "notifications" row));
}

unfoldable pub parse_download_snapshot : Option Json → EsimDownloadSnapshot
parse_download_snapshot value = snapshot_of (record_or_empty value)

unfoldable pub bpp_segment : Props → Text → EsimBppSegment
bpp_segment row label = record {
  label = label;
  bytes = number_or (pos 0) "bytes" row;
  blocks = number_or (pos 0) "blocks" row;
}

unfoldable pub parse_bpp_segment : Json → Option EsimBppSegment
parse_bpp_segment value =
    as_record (some value) >>= λ row. text_at "label" row >>= λ label. some (bpp_segment row label)

-- `value ? … : …`
unfoldable pub is_truthy : Option Json → Bool
is_truthy none = false
is_truthy (some null) = false
is_truthy (some (bool b)) = b
is_truthy (some (num (finite n))) = not (pos_part n == neg_part n)
is_truthy (some (num (infinite negative))) = true
is_truthy (some (str s)) = not (is_empty s)
is_truthy (some _) = true

pub record EsimDownload : Type 0 where
  pub imei : Text
  pub eid : Text
  pub smdp_address : Text
  pub transaction_id : Text
  pub matching_id_supplied : Bool
  pub profile_name : Option Text
  pub service_provider_name : Option Text
  pub profile_iccid : Option Text
  pub policy_rules : List Text
  pub refused_policy_rules : List Text
  pub before : EsimDownloadSnapshot
  pub after : Option EsimDownloadSnapshot
  pub free_memory_consumed : Option ℤ
  pub profiles_added : Option ℤ
  pub authenticate_server_blocks : ℤ
  pub prepare_download_blocks : ℤ
  pub bound_profile_package_bytes : ℤ
  pub bound_profile_package_blocks : ℤ
  pub bound_profile_package_segments : List EsimBppSegment
  pub installed : Bool
  pub enabled : Bool
  pub installation_iccid : Option Text
  pub installation_error : Option Text
  pub failed_bpp_command : Option Text
  pub notification_sequence_number : Option ℤ
  pub notification_delivered : Bool
  pub notification_delivery_error : Option Text
  pub notification_removed_code : Option ℤ
  pub notifications_pending_before : ℤ
  pub notifications_pending_after : Option ℤ
  pub session_cancelled : Option Text
  pub cancel_error : Option Text
  pub stopped_after : Option Text
  pub certificate_signed_by_ci : Bool
  pub server_signature_valid : Bool
  pub challenge_echoed : Bool
  pub ci_key_accepted_by_chip : Bool
  pub negotiated_tls : Option Text
  pub trust_anchor_key_id : Text

unfoldable pub esim_download : Props → Props → Text → Text → Text → EsimDownload
esim_download row profile imei eid transaction_id = record {
  imei = imei;
  eid = eid;
  smdp_address = text_or [] "smdp_address" row;
  transaction_id = transaction_id;
  matching_id_supplied = true_at "matching_id_supplied" row;
  profile_name = text_at "profile_name" profile;
  service_provider_name = text_at "service_provider_name" profile;
  profile_iccid = text_at "iccid" profile;
  policy_rules = strings_of (field "policy_rules" profile);
  refused_policy_rules = strings_of (field "refused_policy_rules" row);
  before = parse_download_snapshot (field "before" row);
  after =
      if is_truthy (field "after" row)
      then some (parse_download_snapshot (field "after" row))
      else none;
  free_memory_consumed = number_at "free_memory_consumed" row;
  profiles_added = number_at "profiles_added" row;
  authenticate_server_blocks = number_or (pos 0) "authenticate_server_blocks" row;
  prepare_download_blocks = number_or (pos 0) "prepare_download_blocks" row;
  bound_profile_package_bytes = number_or (pos 0) "bound_profile_package_bytes" row;
  bound_profile_package_blocks = number_or (pos 0) "bound_profile_package_blocks" row;
  bound_profile_package_segments =
      filter_map parse_bpp_segment (array_of (field "bound_profile_package_segments" row));
  installed = true_at "installed" row;
  enabled = true_at "enabled" row;
  installation_iccid = text_at "installation_iccid" row;
  installation_error = text_at "installation_error" row;
  failed_bpp_command = text_at "failed_bpp_command" row;
  notification_sequence_number = number_at "notification_sequence_number" row;
  notification_delivered = true_at "notification_delivered" row;
  notification_delivery_error = text_at "notification_delivery_error" row;
  notification_removed_code = number_at "notification_removed_code" row;
  notifications_pending_before = number_or (pos 0) "notifications_pending_before" row;
  notifications_pending_after = number_at "notifications_pending_after" row;
  session_cancelled = text_at "session_cancelled" row;
  cancel_error = text_at "cancel_error" row;
  stopped_after = text_at "stopped_after" row;
  certificate_signed_by_ci = true_at "certificate_signed_by_ci" row;
  server_signature_valid = true_at "server_signature_valid" row;
  challenge_echoed = true_at "challenge_echoed" row;
  ci_key_accepted_by_chip = true_at "ci_key_accepted_by_chip" row;
  negotiated_tls = text_at "negotiated_tls" row;
  trust_anchor_key_id = text_or [] "trust_anchor_key_id" row;
}

unfoldable pub parse_esim_download : Option Json → Option EsimDownload
parse_esim_download value = as_record value >>= λ row. text_at "imei" row >>= λ imei.
    text_at "eid" row >>= λ eid. text_at "transaction_id" row >>= λ transaction_id.
    some (esim_download row (record_or_empty (field "profile" row)) imei eid transaction_id)
