-- ===== src/Navigation.antt =====
-- apps/console/lib/tokens.ts, `NAV_GROUPS` to `deviceTabHref`: the navigation and the tabs of a device.
pub mod Unique
use vodoge_cloud.Prelude.{
  String, Bool, true, false, Option, none, some, List, [], ◌∷◌, ◌++◌, ◌>>=◌, or_default,
  if◌then◌else◌,
}
use vodoge_cloud.Text.{Text, units, text_eq, starts_with}
use vodoge_cloud.Session.{encode_uri_component}

pub record NavItem : Type 0 where
  pub href : Text
  pub key : Text
  pub icon : Text

pub record NavGroup : Type 0 where
  pub label : Option Text
  pub items : List NavItem

unfoldable pub nav_item : String → String → String → NavItem
unfolding units
nav_item href key icon = record { href = units href; key = units key; icon = units icon }

unfoldable pub nav_groups : List NavGroup
unfolding units
nav_groups =
    record {
      label = some (units "nav.group.fleet");
      items =
          nav_item "/" "nav.overview" "M4 4H10V10H4ZM14 4H20V10H14ZM4 14H10V20H4ZM14 14H20V20H14Z"
          ∷ nav_item "/devices" "nav.devices" "M7 3H17V21H7ZM10 18H14"
          ∷ nav_item "/journal" "nav.journal" "M6 3H15L19 7V21H6ZM9 12H16M9 16H14"
          ∷ nav_item "/support-ledger" "nav.ledger" "M4 6H20M4 12H20M4 18H13"
          ∷ nav_item "/audit" "nav.audit"
              "M12 3L20 6V12C20 17 16 20 12 21C8 20 4 17 4 12V6Z M9 12L11 14L15 10"
          ∷ [];
    }
    ∷ record {
      label = some (units "nav.group.comms");
      items =
          nav_item "/inbox" "nav.inbox" "M3 6H21V18H3Z M3 7L12 13L21 7"
          ∷ nav_item "/sessions" "nav.sessions"
              "M21 12C21 16 17 19 12 19C11 19 10 19 9 18L4 20L5 16C4 15 3 14 3 12C3 8 7 5 12 5C17 5 21 8 21 12Z"
          ∷ nav_item "/rules" "nav.rules" "M4 7H20M4 17H20 M9 4V10M15 14V20"
          ∷ nav_item "/schedule" "nav.schedule" "M4 6H20V20H4ZM4 10H20M9 3V7M15 3V7"
          ∷ [];
    }
    ∷ record {
      label = some (units "nav.group.network");
      items = nav_item "/proxy" "nav.proxy" "M4 4H10V10H4ZM14 14H20V20H14ZM10 7H17V14" ∷ [];
    }
    ∷ record {
      label = some (units "nav.group.settings");
      items =
          nav_item "/settings" "nav.settings"
            "M12 8A4 4 0 1 0 12 16A4 4 0 1 0 12 8Z M12 2V5M12 19V22M2 12H5M19 12H22"
          ∷ [];
    }
    ∷ []

-- `flatMap`
unfoldable pub items_of_groups : List NavGroup → List NavItem
items_of_groups [] = []
items_of_groups (group ∷ groups) = group.items ++ items_of_groups groups

unfoldable pub nav_items : List NavItem
nav_items = items_of_groups nav_groups

-- The path is the entry's own, or below it; null is `none`.
pub data NavState : Type 0 where
  page section : NavState

unfoldable pub nav_state : Text → Text → Option NavState
nav_state pathname href =
    if text_eq pathname href
    then some page
    else if starts_with pathname (href ++ (b'/' ∷ []))
    then some section
    else none

pub data DeviceTabId : Type 0 where
  overview diagnostics console esim : DeviceTabId

pub record DeviceTab : Type 0 where
  pub id : DeviceTabId
  pub key : Text
  pub read_only : Bool

unfoldable pub device_tabs : List DeviceTab
unfolding units
device_tabs =
    record { id = overview; key = units "device.tabOverview"; read_only = true }
    ∷ record { id = diagnostics; key = units "device.tabDiagnostics"; read_only = true }
    ∷ record { id = console; key = units "device.console"; read_only = false }
    ∷ record { id = esim; key = units "esim.title"; read_only = false }
    ∷ []

-- An identifier as it is written.
unfoldable pub tab_text : DeviceTabId → Text
unfolding units
tab_text overview = units "overview"
tab_text diagnostics = units "diagnostics"
tab_text console = units "console"
tab_text esim = units "esim"

-- `DEVICE_TABS.find((tab) => tab.id === asked)`
unfoldable pub find_tab : Text → List DeviceTab → Option DeviceTab
find_tab asked [] = none
find_tab asked (tab ∷ tabs) =
    let rest = find_tab asked tabs in if text_eq (tab_text tab.id) asked then some tab else rest

-- What stands in the query: nothing, a value, or several.
pub data TabValue : Type 0 where
  missing : TabValue
  single : Text → TabValue
  several : List Text → TabValue

abbrev pub asked_tab : TabValue → Option Text
asked_tab missing = none
asked_tab (single t) = some t
asked_tab (several []) = none
asked_tab (several (t ∷ ts)) = some t

-- `found ? found.id : DEVICE_TABS[0].id`
abbrev pub id_or_first : Option DeviceTab → DeviceTabId
id_or_first none = overview
id_or_first (some tab) = tab.id

unfoldable pub device_tab : TabValue → DeviceTabId
device_tab value = id_or_first (asked_tab value >>= λ asked. find_tab asked device_tabs)

-- A lone surrogate in the identifier throws, here `none`.
unfoldable pub device_tab_href : Text → DeviceTabId → Option Text
unfolding units
device_tab_href device_id tab = encode_uri_component device_id >>= λ encoded.
    some (units "/devices/" ++ (encoded ++ (units "?tab=" ++ tab_text tab)))
