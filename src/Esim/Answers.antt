-- ===== src/Esim/Answers.antt =====
-- apps/console/lib/catalog.ts: the results of the commands on notifications and on an authentication.
use vodoge_cloud.Prelude.{Bool, Option, some, List, [], ◌>>=◌, filter_map}
use vodoge_cloud.Prelude.Int.{ℤ, pos}
use vodoge_cloud.Text.{Text}
use vodoge_cloud.Json.{
  Json, Props, field, as_record, array_of, strings_of, text_at, text_or, number_at, number_or,
  true_at,
}

pub record RetrievedNotification : Type 0 where
  pub imei : Text
  pub sequence_number : ℤ
  pub operations : List Text
  pub address : Text
  pub iccid : Option Text
  pub installation_result : Bool
  pub payload_bytes : ℤ
  pub delivered : Bool
  pub delivery_blocked_by : Option Text

unfoldable pub retrieved_notification : Props → ℤ → Text → RetrievedNotification
retrieved_notification row sequence_number imei = record {
  imei = imei;
  sequence_number = sequence_number;
  operations = strings_of (field "operations" row);
  address = text_or [] "address" row;
  iccid = text_at "iccid" row;
  installation_result = true_at "installation_result" row;
  payload_bytes = number_or (pos 0) "payload_bytes" row;
  delivered = true_at "delivered" row;
  delivery_blocked_by = text_at "delivery_blocked_by" row;
}

unfoldable pub parse_retrieved_notification : Option Json → Option RetrievedNotification
parse_retrieved_notification value = as_record value >>= λ row.
    number_at "sequence_number" row >>= λ sequence_number.
    text_at "imei" row >>= λ imei. some (retrieved_notification row sequence_number imei)

pub record EsimTrustAnchor : Type 0 where
  pub label : Text
  pub key_id : Text
  pub sha256 : Text
  pub not_after : Text

unfoldable pub trust_anchor : Props → Text → Text → EsimTrustAnchor
trust_anchor row label key_id = record {
  label = label;
  key_id = key_id;
  sha256 = text_or [] "sha256" row;
  not_after = text_or [] "not_after" row;
}

unfoldable pub parse_trust_anchor : Json → Option EsimTrustAnchor
parse_trust_anchor value = as_record (some value) >>= λ row. text_at "label" row >>= λ label.
    text_at "key_id" row >>= λ key_id. some (trust_anchor row label key_id)

pub record EsimAuthentication : Type 0 where
  pub imei : Text
  pub eid : Text
  pub smdp_address : Text
  pub smdp_address_source : Text
  pub configured_default_smdp : Option Text
  pub configured_root_smds : Option Text
  pub notification_addresses : List Text
  pub euicc_challenge : Text
  pub transaction_id : Text
  pub server_address : Text
  pub server_challenge : Text
  pub echoed_euicc_challenge : Text
  pub euicc_ci_pkid_to_be_used : Text
  pub chip_ci_key_ids : List Text
  pub ci_key_accepted_by_chip : Bool
  pub certificate_key_id : Text
  pub certificate_authority_key_id : Text
  pub certificate_sha256 : Text
  pub certificate_not_after : Text
  pub certificate_signed_by_ci : Bool
  pub server_signature_valid : Bool
  pub challenge_echoed : Bool
  pub trust_anchor_label : Text
  pub trust_anchor_key_id : Text
  pub trust_directory : Text
  pub trust_anchors : List EsimTrustAnchor
  pub negotiated_tls : Option Text
  pub admin_protocol : Option Text
  pub http_status : ℤ
  pub elapsed_ms : ℤ
  pub profile_downloaded : Bool
  pub stopped_after : Option Text

unfoldable pub esim_authentication : Props → Text → Text → Text → EsimAuthentication
esim_authentication row transaction_id imei smdp_address = record {
  imei = imei;
  eid = text_or [] "eid" row;
  smdp_address = smdp_address;
  smdp_address_source = text_or [] "smdp_address_source" row;
  configured_default_smdp = text_at "configured_default_smdp" row;
  configured_root_smds = text_at "configured_root_smds" row;
  notification_addresses = strings_of (field "notification_addresses" row);
  euicc_challenge = text_or [] "euicc_challenge" row;
  transaction_id = transaction_id;
  server_address = text_or [] "server_address" row;
  server_challenge = text_or [] "server_challenge" row;
  echoed_euicc_challenge = text_or [] "echoed_euicc_challenge" row;
  euicc_ci_pkid_to_be_used = text_or [] "euicc_ci_pkid_to_be_used" row;
  chip_ci_key_ids = strings_of (field "chip_ci_key_ids" row);
  ci_key_accepted_by_chip = true_at "ci_key_accepted_by_chip" row;
  certificate_key_id = text_or [] "certificate_key_id" row;
  certificate_authority_key_id = text_or [] "certificate_authority_key_id" row;
  certificate_sha256 = text_or [] "certificate_sha256" row;
  certificate_not_after = text_or [] "certificate_not_after" row;
  certificate_signed_by_ci = true_at "certificate_signed_by_ci" row;
  server_signature_valid = true_at "server_signature_valid" row;
  challenge_echoed = true_at "challenge_echoed" row;
  trust_anchor_label = text_or [] "trust_anchor_label" row;
  trust_anchor_key_id = text_or [] "trust_anchor_key_id" row;
  trust_directory = text_or [] "trust_directory" row;
  trust_anchors = filter_map parse_trust_anchor (array_of (field "trust_anchors" row));
  negotiated_tls = text_at "negotiated_tls" row;
  admin_protocol = text_at "admin_protocol" row;
  http_status = number_or (pos 0) "http_status" row;
  elapsed_ms = number_or (pos 0) "elapsed_ms" row;
  profile_downloaded = true_at "profile_downloaded" row;
  stopped_after = text_at "stopped_after" row;
}

unfoldable pub parse_esim_authentication : Option Json → Option EsimAuthentication
parse_esim_authentication value = as_record value >>= λ row.
    text_at "transaction_id" row >>= λ transaction_id. text_at "imei" row >>= λ imei.
    text_at "smdp_address" row >>= λ smdp_address.
    some (esim_authentication row transaction_id imei smdp_address)
