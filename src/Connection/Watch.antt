-- ===== src/Connection/Watch.antt =====
-- apps/console/lib/pwa.ts: which requests say something of the connection, and what each outcome of
-- one tells the monitor; the platform, and whether the console can be installed. The parser of URLs is
-- the browser's, so it is a parameter.
use vodoge_cloud.Prelude.{
  ℕ, Bool, true, false, ◌&&◌, ◌||◌, not, Option, none, some, List, [], ◌∷◌, ltb, if◌then◌else◌, any,
  or_default,
}
use vodoge_cloud.Text.{Text, units, text_eq, is_empty, starts_with, includes}
use vodoge_cloud.Json.{Json, field, as_record, any_string}
use vodoge_cloud.Connection.{Event, reachable, unreachable}

pub record Url : Type 0 where
  pub origin : Text
  pub pathname : Text

-- `new URL(url, base)`, `none` where it throws.
abbrev pub ParseUrl : Type 0
ParseUrl = Text → Option Text → Option Url

unfoldable pub is_watched_request : ParseUrl → Text → Text → Bool
unfolding units
is_watched_request parse_url url origin =
    if is_empty url then false else elim (parse_url origin none) [
      | none ↦ false
      | some base ↦ elim (parse_url url (some origin)) [
        | none ↦ false
        | some resolved ↦
            text_eq resolved.origin base.origin
            && (starts_with resolved.pathname (units "/v1/")
                || starts_with resolved.pathname (units "/api/"))
      ]
    ]

-- A request is a text, or an object with a `url` or an `href`.
unfoldable pub request_url : Json → Text
request_url (Json.str s) = s
request_url input = elim (as_record (some input)) [
  | none ↦ []
  | some row ↦ elim (any_string (field "url" row)) [
    | some url ↦ url
    | none ↦ or_default (any_string (field "href" row)) []
  ]
]

-- An error, by its `name` where it has one.
unfoldable pub is_connection_failure : Option Text → Bool
unfolding units
is_connection_failure none = true
is_connection_failure (some name) = not (text_eq name (units "AbortError"))

pub data Outcome : Type 0 where
  resolved : (now : ℕ) → Outcome
  rejected : (name : Option Text) → Outcome

-- The event that a settled request or probe is to the monitor, if it is one.
unfoldable pub event_of : Outcome → Option Event
event_of (resolved now) = some (reachable now)
event_of (rejected name) = if is_connection_failure name then some unreachable else none

-- the wrapper of `fetch`
unfoldable pub observed : ParseUrl → Text → Json → Outcome → Option Event
observed parse_url origin input outcome =
    if is_watched_request parse_url (request_url input) origin then event_of outcome else none

-- `probe`, where the original `fetch` is there.
unfoldable pub probed : Bool → Outcome → Option Event
probed stopped outcome = if stopped then none else event_of outcome

pub data Platform : Type 0 where
  ios android other : Platform

-- The tests of the source ignore case: `agent` is the agent's text in lower case.
unfoldable pub detect_platform : (agent : Text) → (max_touch_points : ℕ) → Platform
unfolding units
detect_platform agent max_touch_points =
    if includes agent (units "iphone")
      || includes agent (units "ipad")
      || includes agent (units "ipod")
    then ios
    else if includes agent (units "macintosh") && ltb 1 max_touch_points
    then ios
    else if includes agent (units "android")
    then android
    else other

unfoldable pub standalone_queries : List Text
unfolding units
standalone_queries =
    units "(display-mode: standalone)"
    ∷ units "(display-mode: fullscreen)"
    ∷ units "(display-mode: minimal-ui)"
    ∷ []

unfoldable pub is_standalone : (Text → Bool) → Bool → Bool
is_standalone matches ios_standalone =
    if ios_standalone then true else any matches standalone_queries

pub data InstallState : Type 0 where
  installed promptable ios_guide unavailable : InstallState

abbrev pub install_guide : Platform → InstallState
install_guide ios = ios_guide
install_guide _ = unavailable

unfoldable pub install_state : (standalone prompt_available : Bool) → Platform → InstallState
install_state standalone prompt_available platform =
    if standalone
    then installed
    else if prompt_available
    then promptable
    else install_guide platform
