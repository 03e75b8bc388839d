-- ===== src/Tests/Pages.antt =====
-- Navigation, confirmations, policies, health and uptime on concrete inputs.
use vodoge_cloud.Prelude.{
  ℕ, if◌then◌else◌, ◌≡◌, ◌≢◌, ◌↔◌, refl, true, Option, none, some, List, [], ◌∷◌, all, arith,
}
use vodoge_cloud.Prelude.Int.{ℤ, pos, ◌-ℤ◌}
use vodoge_cloud.Text.{Text, units, text_eq, trim, trim_start, is_space, starts_with}
use vodoge_cloud.Json.{
  Json, str, num, finite, obj, prop, end, field, lookup, as_record, as_string, as_number,
  any_string, to_text, is_true,
}
use vodoge_cloud.Assoc.{get}
use vodoge_cloud.Session.{
  encode_uri_component, code_points, encode_points, is_unreserved, utf8, percent_all, hex_digit,
}
use vodoge_cloud.Esim.Reads.{insert, sort}
use vodoge_cloud.Catalog.Operations.{UptimeHourRow}
use vodoge_cloud.Catalog.Activity.{session_row, parse_session}
use vodoge_cloud.Navigation.{
  NavItem, nav_item, nav_groups, items_of_groups, nav_items, section, nav_state, device_tabs,
  tab_text, find_tab, single, several, device_tab, device_tab_href, esim, overview, console,
}
use vodoge_cloud.Navigation.Unique.{is_plain, nav_state_unique}
use vodoge_cloud.Consequence.{
  ends_sentence, ends_question, the_question, no_sentence, consequence_problem, stated,
  assert_consequence, redacted_secret, secret_input_props,
}
use vodoge_cloud.Consequence.Laws.{IsStatement, assert_consequence_iff}
use vodoge_cloud.CardPolicy.{
  vertical, capability, remove, sms_send, Event, proposed, confirmed, card_policy_guard_for,
  card_policy_patch, find_policy, save_body, request_of, propose, confirm, answer, step, after,
  answered, threw, delete_policy,
}
use vodoge_cloud.CardPolicy.Asked.{open_edit, expected, step-expected}
use vodoge_cloud.CardPolicy.Saved.{current, edited, request_of-edited}
use vodoge_cloud.Settings.Health.{
  ChannelHealthRow, success_at, channel_health_row, health_row, health_rows, health_order,
  parse_channel_health,
}
use vodoge_cloud.Interpolate.{scan, interpolate}
use vodoge_cloud.Tones.{
  good, warn, tone_by_state, tone_by_delivery, tone_for_state, tone_for_delivery_status,
}
use vodoge_cloud.Uptime.{uptime_blocks, uptime_step, at_step, uptime_sparkline}

pages : Unit {0}
unfolding units text_eq trim trim_start is_space starts_with field lookup as_record as_string
    as_number any_string is_true to_text get encode_uri_component code_points encode_points
    is_unreserved utf8 percent_all hex_digit insert sort session_row parse_session nav_item
    nav_groups items_of_groups nav_items nav_state device_tabs tab_text find_tab device_tab
    device_tab_href ends_sentence ends_question consequence_problem assert_consequence
    redacted_secret secret_input_props card_policy_guard_for card_policy_patch find_policy save_body
    propose confirm answer step after open_edit success_at channel_health_row health_row health_rows
    health_order parse_channel_health tone_by_state tone_by_delivery tone_for_state
    tone_for_delivery_status uptime_blocks uptime_step at_step uptime_sparkline ◌-ℤ◌
pages = tt

-- Every entry of the navigation is a slash and one segment.
all_plain : all (λ (item : NavItem). is_plain item.href) nav_items ≡ true
unfolding pages
all_plain = refl

detail_is_inside : nav_state (units "/devices/7") (units "/devices") ≡ some section
unfolding pages
detail_is_inside = refl

archive_is_not : nav_state (units "/rules-archive") (units "/rules") ≡ none
unfolding pages
archive_is_not = refl

overview_alone : nav_state (units "/devices") (units "/") ≡ none
unfolding pages
overview_alone = refl

first_of_several : device_tab (several (units "esim" ∷ units "console" ∷ [])) ≡ esim
unfolding pages
first_of_several = refl

mistyped : device_tab (single (units "esims")) ≡ overview
unfolding pages
mistyped = refl

tab_href : device_tab_href (units "a/b") console ≡ some (units "/devices/a%2Fb?tab=console")
unfolding pages
tab_href = refl

devices_plain : is_plain (units "/devices") ≡ true
unfolding pages
devices_plain = refl

devices_marked : nav_state (units "/devices/7") (units "/devices") ≢ none
unfolding pages
devices_marked e = absurd (ground arith)

nav_state_unique_example : units "/devices" ≡ units "/devices"
nav_state_unique_example =
    nav_state_unique (units "/devices/7") (units "/devices") (units "/devices") devices_plain
      devices_plain devices_marked devices_marked

-- A bare question is refused, a sentence is stated without the spaces around it.
question_refused : consequence_problem (units "Remove this permanently?") ≡ some the_question
unfolding pages
question_refused = refl

fragment_refused : consequence_problem (units "it will be removed") ≡ some no_sentence
unfolding pages
fragment_refused = refl

sentence_stated :
    assert_consequence (units " The module leaves the bus. ")
    ≡ stated (units "The module leaves the bus.")
unfolding pages
sentence_stated = refl

assert_consequence_iff_example :
    (assert_consequence (units " The module leaves the bus. ")
      ≡ stated (units "The module leaves the bus."))
    ↔ ((units "The module leaves the bus." ≡ trim (units " The module leaves the bus. "))
        × IsStatement (trim (units " The module leaves the bus. ")))
assert_consequence_iff_example =
    assert_consequence_iff (units " The module leaves the bus. ")
      (units "The module leaves the bus.")

abbrev show : Json → Text
show v = []

bullets_hidden : (secret_input_props show (some (str redacted_secret))).value ≡ []
unfolding pages
bullets_hidden = refl

abbrev proposal : List Event
unfolding units
proposal = proposed (units "89") remove ∷ []

removal_goes :
    (step true (units "failed") (confirmed []) (after true (units "failed") proposal)).1
    ≡ some (delete_policy (units "89"))
unfolding pages
removal_goes = refl

same_vertical_asks_nothing : card_policy_guard_for (vertical (units "cn") (units "cn")) ≡ none
unfolding pages
same_vertical_asks_nothing = refl

-- A request that throws is not caught, and the controls stay off.
stays_busy : (after true (units "failed") (answered threw ∷ confirmed [] ∷ proposal)).busy ≡ true
unfolding pages
stays_busy = refl

step-expected_example :
    (step true (units "failed") (confirmed []) (after true (units "failed") proposal)).1
    ≡ expected (confirmed []) proposal
step-expected_example = step-expected (units "failed") (confirmed []) proposal

request_of-edited_example :
    request_of (card_policy_patch (capability sms_send none)) (units "89") []
    ≡ edited (capability sms_send none) (units "89") (current (find_policy (units "89") []))
request_of-edited_example = request_of-edited (capability sms_send none) (units "89") []

-- What fails comes first; a row without a total is dropped.
abbrev total : ℕ → Json
unfolding units
total failures = obj (
    prop (units "total") (num (finite (pos 5)))
      (prop (units "consecutive_failures") (num (finite (pos failures))) end))

abbrev channels : Json
unfolding units
channels = obj (
    prop (units "bark") (total 0)
      (prop (units "email") (total 2) (prop (units "feishu") (obj end) end)))

abbrev by_nothing : Text → Text → ℤ
by_nothing s t = pos 0

abbrev no_date : Text → Option ℤ
no_date s = none

abbrev names : List ChannelHealthRow → List Text
names [] = []
names (row ∷ rows) = row.channel ∷ names rows

worst_first :
    names (parse_channel_health no_date by_nothing (some channels))
    ≡ units "email" ∷ units "bark" ∷ []
unfolding pages
worst_first = refl

nameless_session : parse_session (obj end) ≡ none
unfolding pages
nameless_session = refl

abbrev same : Text → Text
same s = s

online_good : tone_for_state same (units "online") ≡ good
unfolding pages
online_good = refl

queued_warns : tone_for_delivery_status same (units "queued") ≡ warn
unfolding pages
queued_warns = refl

-- The newest hour is on the right.
abbrev hours : List UptimeHourRow
hours =
    record { hour = pos 2; minutes_online = pos 60 }
    ∷ record { hour = pos 1; minutes_online = pos 1 }
    ∷ record { hour = pos 0; minutes_online = pos 0 }
    ∷ []

three_blocks : uptime_sparkline hours ≡ units "▁▂█"
unfolding pages
three_blocks = refl

-- A placeholder with a value is filled, and one without stands as it is written.
abbrev device_only : Text → Option Text
device_only name = if text_eq name (units "device") then some (units "m1") else none

filled_in :
    interpolate (units "remove {device} from {tenant}{}") (some device_only)
    ≡ units "remove m1 from {tenant}{}"
unfolding pages scan interpolate
filled_in = refl
