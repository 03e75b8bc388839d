-- ===== src/Ussd.antt =====
-- apps/console/lib/catalog.ts, `parseUssdResult` to `ussdCancelRequest`: what the console reads of a
-- USSD exchange, and the requests that it sends on one.
pub mod Laws
pub mod Latest
use vodoge_cloud.Prelude.{
  ◌≡◌, refl, Bool, true, false, ◌&&◌, not, Option, none, some, List, [], ◌∷◌, ◌>>=◌, or_default,
  if◌then◌else◌,
}
use vodoge_cloud.Prelude.Int.{ℤ, pos, ltb_ℤ, ◌-ℤ◌}
use vodoge_cloud.Text.{Text, units, text_eq, is_empty, trim}
use vodoge_cloud.Newest.{only, newest_from}
use vodoge_cloud.Json.{
  Json, Props, end, field, as_record, as_string, any_string, boolean_at, text_at, number_at,
}

pub record UssdResult : Type 0 where
  pub code : Text
  pub stage : Text
  pub text : Text
  pub dcs : Option ℤ
  pub expects_reply : Bool
  pub elapsed_ms : Option ℤ

unfoldable pub ussd_result : Props → Text → UssdResult
unfolding units
ussd_result row stage = record {
  code = or_default (any_string (field "code" row)) [];
  stage = stage;
  text = or_default (any_string (field "text" row)) [];
  dcs = number_at "dcs" row;
  expects_reply = or_default (boolean_at "expects_reply" row) (text_eq stage (units "needs_reply"));
  elapsed_ms = number_at "elapsed_ms" row;
}

unfoldable pub parse_ussd_result : Option Json → Option UssdResult
parse_ussd_result value =
    as_record value >>= λ row. text_at "stage" row >>= λ stage. some (ussd_result row stage)

pub record CommandResult : Type 0 where
  pub details : Option Json

-- Enough of a relayed command for the functions below.
pub record UssdCommandRow : Type 0 where
  pub id : Text
  pub kind : Text
  pub status : Text
  pub issued_at : ℤ
  pub completed_at : Option ℤ
  pub payload : Option Props
  pub result : Option CommandResult

pub record UssdExchange : Type 0 where
  pub command_id : Text
  pub modem_imei : Option Text
  pub stage_sent : Text
  pub status : Text
  pub completed_at : Option ℤ
  pub result : Option UssdResult

unfoldable pub is_ussd : UssdCommandRow → Bool
unfolding units
is_ussd row = text_eq row.kind (units "send_ussd")

-- The loop: the USSD command that was issued last.
unfoldable pub newest_ussd : List UssdCommandRow → Option UssdCommandRow
newest_ussd rows = newest_from (λ row. row.issued_at) (only is_ussd) none rows

unfoldable pub exchange_of : UssdCommandRow → UssdExchange
unfolding units
exchange_of latest = record {
  command_id = latest.id;
  modem_imei = text_at "modem_imei" (or_default latest.payload end);
  stage_sent = or_default (text_at "stage" (or_default latest.payload end)) (units "start");
  status = latest.status;
  completed_at = latest.completed_at;
  result = parse_ussd_result (latest.result >>= λ result. result.details);
}

unfoldable pub latest_ussd_exchange : List UssdCommandRow → Option UssdExchange
latest_ussd_exchange rows = newest_ussd rows >>= λ latest. some (exchange_of latest)

abbrev pub ussd_session_ttl_ms : ℤ
ussd_session_ttl_ms = pos 120000

-- `Math.max`
unfoldable pub max_ℤ : ℤ → ℤ → ℤ
max_ℤ a b = if ltb_ℤ a b then b else a

-- `at === null ? null : now - at`
abbrev pub since : ℤ → Option ℤ → Option ℤ
since now none = none
since now (some at) = some (now -ℤ at)

-- The larger of the two readings, a missing one counting as 0.
abbrev pub larger : Option ℤ → Option ℤ → Option ℤ
larger none none = none
larger by_gateway by_page =
    some (max_ℤ (or_default by_gateway (pos 0)) (or_default by_page (pos 0)))

unfoldable pub ussd_session_age_ms : Option UssdExchange → Option ℤ → ℤ → Option ℤ
ussd_session_age_ms none observed_at now = none
ussd_session_age_ms (some exchange) observed_at now =
    larger (since now exchange.completed_at) (since now observed_at)

pub data UssdSessionState : Type 0 where
  no_session : UssdSessionState
  open_session : UssdSessionState
  expired_session : UssdSessionState

-- `!text`, for a text that may be null
unfoldable pub is_missing : Option Text → Bool
is_missing none = true
is_missing (some s) = is_empty s

-- `!exchange.result || !exchange.result.expectsReply`, negated
unfoldable pub expects_more : Option UssdResult → Bool
expects_more none = false
expects_more (some result) = result.expects_reply

-- `ageMs === null || ageMs > ttlMs`
unfoldable pub is_stale : Option ℤ → ℤ → Bool
is_stale none ttl = true
is_stale (some age) ttl = ltb_ℤ ttl age

-- The state "none" is `no_session` here.
unfoldable pub ussd_session_state : Option UssdExchange → Option ℤ → ℤ → UssdSessionState
unfolding units
ussd_session_state none age ttl = no_session
ussd_session_state (some exchange) age ttl =
    if not (expects_more exchange.result)
    then no_session
    else if is_missing exchange.modem_imei
    then no_session
    else if not (text_eq exchange.status (units "succeeded"))
    then no_session
    else if is_stale age ttl
    then expired_session
    else open_session

pub data UssdStageLabelKey : Type 0 where
  stage_complete stage_needs_reply stage_terminated stage_other_client : UssdStageLabelKey
  stage_not_supported stage_network_timeout stage_other : UssdStageLabelKey

-- A stage named like a property of `Object.prototype` is not modelled.
unfoldable pub ussd_stage_label_key : Text → UssdStageLabelKey
unfolding units
ussd_stage_label_key stage =
    if text_eq stage (units "complete")
    then stage_complete
    else if text_eq stage (units "needs_reply")
    then stage_needs_reply
    else if text_eq stage (units "terminated")
    then stage_terminated
    else if text_eq stage (units "other_client")
    then stage_other_client
    else if text_eq stage (units "not_supported")
    then stage_not_supported
    else if text_eq stage (units "network_timeout")
    then stage_network_timeout
    else stage_other

pub data SentStage : Type 0 where
  start continue cancel : SentStage

pub record UssdRequest : Type 0 where
  pub modem_imei : Text
  pub code : Text
  pub stage : SentStage

unfoldable pub ussd_start_request : Text → Text → Option UssdRequest
ussd_start_request modem_imei code =
    if is_empty modem_imei
    then none
    else if is_empty (trim code)
    then none
    else some (record { modem_imei = modem_imei; code = trim code; stage = start })

-- `exchange?.modemImei`
abbrev pub imei_of : Option UssdExchange → Option Text
imei_of exchange = exchange >>= λ exchange. exchange.modem_imei

-- A reply to the modem that is named, unless it has no name or nothing is said.
unfoldable pub reply_to : Option Text → Text → Option UssdRequest
reply_to none reply = none
reply_to (some imei) reply =
    if is_empty imei
    then none
    else if is_empty (trim reply)
    then none
    else some (record { modem_imei = imei; code = trim reply; stage = continue })

unfoldable pub ussd_continue_request : Option UssdExchange → Text → Option UssdRequest
ussd_continue_request exchange reply = reply_to (imei_of exchange) reply

unfoldable pub ussd_cancel_request : Option UssdExchange → Text → Option UssdRequest
ussd_cancel_request exchange selected_imei =
    let modem_imei = or_default (imei_of exchange) selected_imei in
    if is_empty modem_imei
    then none
    else some (record { modem_imei = modem_imei; code = []; stage = cancel })
