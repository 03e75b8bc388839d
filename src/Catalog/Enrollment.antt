-- ===== src/Catalog/Enrollment.antt =====
-- apps/console/lib/catalog.ts: certificates, enrollment codes, the support ledger and card policies.
use vodoge_cloud.Prelude.{Bool, Option, some, List, [], ◌>>=◌ as bind}
use vodoge_cloud.Prelude.Int.{ℤ, pos}
use vodoge_cloud.Text.{Text, units}
use vodoge_cloud.Json.{
  Json, Props, field, as_record, array_of, text_at, text_or, number_at, number_or, boolean_at,
  true_at,
}
use vodoge_cloud.Catalog.{Result, ok, Fetch, Session, get_catalog, parsed_rows, cast_rows, ◌>>=◌}

pub record CertificateRow : Type 0 where
  pub id : Text
  pub device_id : Text
  pub serial : Text
  pub fingerprint : Text
  pub not_before : ℤ
  pub not_after : ℤ
  pub revoked_at : Option ℤ

unfoldable pub certificate_row : Props → Text → Text → CertificateRow
unfolding units
certificate_row row id fingerprint = record {
  id = id;
  device_id = text_or [] "device_id" row;
  serial = text_or [] "serial" row;
  fingerprint = fingerprint;
  not_before = number_or (pos 0) "not_before" row;
  not_after = number_or (pos 0) "not_after" row;
  revoked_at = number_at "revoked_at" row;
}

unfoldable pub parse_certificate : Json → Option CertificateRow
parse_certificate value = bind (as_record (some value)) λ row.
    bind (text_at "id" row) λ id.
      bind (text_at "fingerprint" row) λ fingerprint. some (certificate_row row id fingerprint)

unfoldable pub fetch_certificates : Fetch → Session → Result (List CertificateRow)
unfolding units
fetch_certificates fetch_impl session = do
  body ← get_catalog fetch_impl session (units "/v1/device-certificates")
  ok (parsed_rows parse_certificate "certificates" body)

pub record EnrollmentCodeRow : Type 0 where
  pub id : Text
  pub expires_at : ℤ
  pub used_at : Option ℤ
  pub device_id : Option Text

unfoldable pub enrollment_code_row : Props → Text → ℤ → EnrollmentCodeRow
unfolding units
enrollment_code_row row id expires_at = record {
  id = id;
  expires_at = expires_at;
  used_at = number_at "used_at" row;
  device_id = text_at "device_id" row;
}

unfoldable pub parse_enrollment_code : Json → Option EnrollmentCodeRow
parse_enrollment_code value = bind (as_record (some value)) λ row. bind (text_at "id" row) λ id.
    bind (number_at "expires_at" row) λ expires_at. some (enrollment_code_row row id expires_at)

unfoldable pub fetch_enrollment_codes : Fetch → Session → Result (List EnrollmentCodeRow)
unfolding units
fetch_enrollment_codes fetch_impl session = do
  body ← get_catalog fetch_impl session (units "/v1/enrollment-codes")
  ok (parsed_rows parse_enrollment_code "codes" body)

pub record LedgerRow : Type 0 where
  pub modem_family : Text
  pub carrier : Text
  pub sms_mo : Option Text
  pub sms_mt : Option Text
  pub carries_data : Option Text
  pub voice : Option Text
  pub bearer : Text
  pub reason : Option Text
  pub note : Text
  pub tested_at : ℤ
  pub tested_by : Text

unfoldable pub ledger_row : Props → LedgerRow
unfolding units
ledger_row row = record {
  modem_family = text_or [] "modem_family" row;
  carrier = text_or [] "carrier" row;
  sms_mo = text_at "sms_mo" row;
  sms_mt = text_at "sms_mt" row;
  carries_data = text_at "data" row;
  voice = text_at "voice" row;
  bearer = text_or (units "cellular") "bearer" row;
  reason = text_at "reason" row;
  note = text_or [] "note" row;
  tested_at = number_or (pos 0) "tested_at" row;
  tested_by = text_or [] "tested_by" row;
}

unfoldable pub fetch_ledger : Fetch → Session → Result (List LedgerRow)
unfolding units
fetch_ledger fetch_impl session = do
  body ← get_catalog fetch_impl session (units "/v1/support-ledger")
  cast_rows ledger_row (array_of (field "entries" body))

pub record CardPolicyRow : Type 0 where
  pub iccid : Text
  pub cellular_enabled : Bool
  pub vertical : Text
  pub apn : Option Text
  pub note : Text
  pub updated_at : ℤ
  pub sms_send : Option Bool
  pub sms_receive : Option Bool
  pub carries_data : Option Bool
  pub voice : Option Bool

unfoldable pub card_policy_row : Props → CardPolicyRow
unfolding units
card_policy_row row = record {
  iccid = text_or [] "iccid" row;
  cellular_enabled = true_at "cellular_enabled" row;
  vertical = text_or (units "cn") "vertical" row;
  apn = text_at "apn" row;
  note = text_or [] "note" row;
  updated_at = number_or (pos 0) "updated_at" row;
  sms_send = boolean_at "sms_send" row;
  sms_receive = boolean_at "sms_receive" row;
  carries_data = boolean_at "data" row;
  voice = boolean_at "voice" row;
}

unfoldable pub fetch_card_policies : Fetch → Session → Result (List CardPolicyRow)
unfolding units
fetch_card_policies fetch_impl session = do
  body ← get_catalog fetch_impl session (units "/v1/cards/policies")
  cast_rows card_policy_row (array_of (field "policies" body))
