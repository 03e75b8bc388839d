-- ===== src/Tests/Ussd.antt =====
-- A USSD session on concrete rows.
use vodoge_cloud.Prelude.{◌≡◌, refl, ◌⊎◌, ◌↔◌, true, false, Option, none, some, List, [], ◌∷◌, All}
use vodoge_cloud.Prelude.Int.{ℤ, pos, ◌-ℤ◌, ◌≤ℤ◌}
use vodoge_cloud.Text.{Text, units, text_eq, is_empty, trim, trim_start, is_space}
use vodoge_cloud.Json.{
  lookup, str, prop, end, obj, field, as_record, as_string, as_boolean, as_number, any_string,
}
use vodoge_cloud.Newest.{IsLatest, newest_from}
use vodoge_cloud.Ussd.{
  UssdCommandRow, UssdResult, UssdExchange, ussd_result, parse_ussd_result, is_ussd, newest_ussd,
  exchange_of, latest_ussd_exchange, ussd_session_ttl_ms, max_ℤ, ussd_session_age_ms, open_session,
  expired_session, is_missing, expects_more, is_stale, ussd_session_state, continue, cancel,
  imei_of, reply_to, ussd_continue_request, ussd_cancel_request,
}
use vodoge_cloud.Ussd.Laws.{
  ussd_session_state-open_iff, ussd_session_state-young, ussd_continue_request-open,
}
use vodoge_cloud.Ussd.Latest.{latest_ussd_exchange-IsLatest}

-- A menu that the network has answered with.
abbrev menu : UssdCommandRow
menu = record {
  id = units "c2";
  kind = units "send_ussd";
  status = units "succeeded";
  issued_at = pos 1000;
  completed_at = some (pos 2000);
  payload = some (prop (units "modem_imei") (str (units "35")) end);
  result =
      some (record { details = some (obj (prop (units "stage") (str (units "needs_reply")) end)) });
}

abbrev earlier : UssdCommandRow
earlier = record {
  id = units "c1";
  kind = units "send_ussd";
  status = units "failed";
  issued_at = pos 500;
  completed_at = none;
  payload = none;
  result = none;
}

abbrev history : List UssdCommandRow
history = earlier ∷ menu ∷ record earlier { kind = units "send_sms"; issued_at = pos 9000 } ∷ []

ussd : Unit {0}
unfolding units text_eq field lookup as_record as_string as_boolean as_number any_string ussd_result
    parse_ussd_result is_ussd newest_ussd newest_from exchange_of latest_ussd_exchange max_ℤ
    ussd_session_age_ms is_missing expects_more is_stale ussd_session_state reply_to
    ussd_continue_request ussd_cancel_request ◌-ℤ◌ trim trim_start is_space
ussd = tt

-- The menu is the last exchange, young at first and expired two minutes later.
menu_is_last : latest_ussd_exchange history ≡ some (exchange_of menu)
unfolding ussd
menu_is_last = refl

abbrev age_at : ℤ → Option ℤ
age_at now = ussd_session_age_ms (some (exchange_of menu)) (some (pos 3000)) now

menu_is_open :
    ussd_session_state (some (exchange_of menu)) (age_at (pos 62000)) ussd_session_ttl_ms
    ≡ open_session
unfolding ussd
menu_is_open = refl

menu_expires :
    ussd_session_state (some (exchange_of menu)) (age_at (pos 122001)) ussd_session_ttl_ms
    ≡ expired_session
unfolding ussd
menu_expires = refl

-- A cancel goes to the modem of the exchange, and to the selected one where none is known.
cancel_owner :
    ussd_cancel_request (some (exchange_of menu)) (units "99")
    ≡ some (record { modem_imei = units "35"; code = []; stage = cancel })
unfolding ussd
cancel_owner = refl

cancel_selected :
    ussd_cancel_request (some (exchange_of earlier)) (units "99")
    ≡ some (record { modem_imei = units "99"; code = []; stage = cancel })
unfolding ussd
cancel_selected = refl

ussd_session_state-open_iff_example :
    (ussd_session_state (some (exchange_of menu)) (age_at (pos 62000)) ussd_session_ttl_ms
      ≡ open_session)
    ↔ ((x : UssdExchange) × (some (exchange_of menu) ≡ some x)
        × ((r : UssdResult) × (x.result ≡ some r) × (r.expects_reply ≡ true))
        × ((imei : Text) × (x.modem_imei ≡ some imei) × (is_empty imei ≡ false))
        × (x.status ≡ units "succeeded")
        × ((a : ℤ) × (age_at (pos 62000) ≡ some a) × (a ≤ℤ ussd_session_ttl_ms)))
ussd_session_state-open_iff_example =
    ussd_session_state-open_iff (some (exchange_of menu)) (age_at (pos 62000)) ussd_session_ttl_ms

ussd_session_state-young_example :
    ((at : ℤ)
      → (exchange_of menu).completed_at ≡ some at
      → (pos 62000 -ℤ at) ≤ℤ ussd_session_ttl_ms)
    × ((at : ℤ) → some (pos 3000) ≡ some at → (pos 62000 -ℤ at) ≤ℤ ussd_session_ttl_ms)
ussd_session_state-young_example =
    ussd_session_state-young (exchange_of menu) (some (pos 3000)) (pos 62000) ussd_session_ttl_ms
      menu_is_open

said : is_empty (trim (units " 2")) ≡ false
unfolding ussd
said = refl

ussd_continue_request-open_example :
    (imei : Text) × (imei_of (some (exchange_of menu)) ≡ some imei)
    × (ussd_continue_request (some (exchange_of menu)) (units " 2")
        ≡ some (record { modem_imei = imei; code = trim (units " 2"); stage = continue }))
ussd_continue_request-open_example =
    ussd_continue_request-open (some (exchange_of menu)) (age_at (pos 62000)) ussd_session_ttl_ms
      (units " 2") menu_is_open said

latest_ussd_exchange-IsLatest_example :
    ((latest_ussd_exchange history ≡ none) × All (λ q. is_ussd q ≡ false) history)
    ⊎ ((r : UssdCommandRow) × (latest_ussd_exchange history ≡ some (exchange_of r))
        × IsLatest is_ussd (λ q. q.issued_at) r history)
latest_ussd_exchange-IsLatest_example = latest_ussd_exchange-IsLatest history
