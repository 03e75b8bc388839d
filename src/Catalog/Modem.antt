-- ===== src/Catalog/Modem.antt =====
-- apps/console/lib/catalog.ts: modems and the packet data profiles that they report.
use vodoge_cloud.Prelude.{
  Bool, false, Option, none, some, List, [], ◌>>=◌ as bind, or_default, filter_map,
}
use vodoge_cloud.Prelude.Int.{ℤ}
use vodoge_cloud.Text.{Text, units}
use vodoge_cloud.Json.{
  Json, arr, Props, elements, field, as_record, is_not_false, text_at, text_or, number_at,
  boolean_at, true_at,
}
use vodoge_cloud.Catalog.{Result, ok, Fetch, Session, get_catalog, parsed_rows, ◌>>=◌}

pub record ApnContextRow : Type 0 where
  pub cid : ℤ
  pub pdp_type : Text
  pub apn : Text
  pub username : Text
  pub auth : Option Text
  pub has_password : Bool
  pub source : Option Text

-- One entry of `asApnContexts`, behind its identifier.
unfoldable pub apn_row : Props → ℤ → ApnContextRow
unfolding units
apn_row row cid = record {
  cid = cid;
  pdp_type = text_or [] "pdp_type" row;
  apn = text_or [] "apn" row;
  username = text_or [] "username" row;
  auth = text_at "auth" row;
  has_password = true_at "has_password" row;
  source = text_at "source" row;
}

abbrev pub apn_context : Json → Option ApnContextRow
apn_context entry =
    bind (as_record (some entry)) λ row. bind (number_at "cid" row) λ cid. some (apn_row row cid)

unfoldable pub as_apn_contexts : Option Json → Option (List ApnContextRow)
as_apn_contexts (some (arr vs)) = some (filter_map apn_context (elements vs))
as_apn_contexts _ = none

pub record ModemRow : Type 0 where
  pub id : Text
  pub device_id : Text
  pub imei : Text
  pub family : Text
  pub iccid : Option Text
  pub state : Option Text
  pub registration : Option Text
  pub signal_dbm : Option ℤ
  pub rsrp : Option ℤ
  pub rsrq : Option ℤ
  pub sinr : Option ℤ
  pub discovery : Option Text
  pub manageable : Option Bool
  pub home_plmn : Option Text
  pub serving_plmn : Option Text
  pub sms_mo : Option Text
  pub sms_mt : Option Text
  pub carrier_profile : Option Text
  pub capability_origin : Option Text
  pub last_seen : Option ℤ
  pub firmware : Option Text
  pub msisdn : Option Text
  pub msisdn_pending : Bool
  pub control_port : Option Text
  pub usb_device : Option Text
  pub apn_contexts : Option (List ApnContextRow)
  pub adoption_note : Option Text
  pub adopted_at : Option Text
  pub adopted_by : Option Text
  pub observed : Bool

unfoldable pub modem_row : Props → Text → Text → ModemRow
unfolding units
modem_row row id imei = record {
  id = id;
  imei = imei;
  device_id = text_or [] "device_id" row;
  family = text_or [] "family" row;
  iccid = text_at "iccid" row;
  state = text_at "state" row;
  registration = text_at "registration" row;
  signal_dbm = number_at "signal_dbm" row;
  rsrp = number_at "rsrp" row;
  rsrq = number_at "rsrq" row;
  sinr = number_at "sinr" row;
  discovery = text_at "discovery" row;
  manageable = boolean_at "manageable" row;
  home_plmn = text_at "home_plmn" row;
  serving_plmn = text_at "serving_plmn" row;
  sms_mo = text_at "sms_mo" row;
  sms_mt = text_at "sms_mt" row;
  carrier_profile = text_at "carrier_profile" row;
  capability_origin = text_at "capability_origin" row;
  last_seen = number_at "last_seen" row;
  firmware = text_at "firmware" row;
  msisdn = text_at "msisdn" row;
  msisdn_pending = or_default (boolean_at "msisdn_pending" row) false;
  control_port = text_at "control_port" row;
  usb_device = text_at "usb_device" row;
  apn_contexts = as_apn_contexts (field "apn_contexts" row);
  adoption_note = text_at "adoption_note" row;
  adopted_at = text_at "adopted_at" row;
  adopted_by = text_at "adopted_by" row;
  observed = is_not_false (field "observed" row);
}

unfoldable pub parse_modem : Json → Option ModemRow
parse_modem value = bind (as_record (some value)) λ row.
    bind (text_at "id" row) λ id. bind (text_at "imei" row) λ imei. some (modem_row row id imei)

unfoldable pub fetch_modems : Fetch → Session → Result (List ModemRow)
unfolding units
fetch_modems fetch_impl session = do
  body ← get_catalog fetch_impl session (units "/v1/modems")
  ok (parsed_rows parse_modem "modems" body)
