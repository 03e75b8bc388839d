-- ===== src/Tests/Console.antt =====
-- The device page's commands on concrete events.
use vodoge_cloud.Prelude.{◌≡◌, refl, Bool, true, false, Option, none, some, List, [], ◌∷◌, all}
use vodoge_cloud.Prelude.Int.{pos}
use vodoge_cloud.Text.{Text, units, text_eq, trim, trim_start, is_space}
use vodoge_cloud.Json.{
  Json, bool, str, finite, arr, nil, cons, obj, Props, prop, end, elements, lookup, field,
  as_record, any_string, to_text,
}
use vodoge_cloud.Assoc.{get}
use vodoge_cloud.Settings.{put}
use vodoge_cloud.Guards.{fits, first_fitting, unknown_command}
use vodoge_cloud.Guards.Table.{
  read_guards, module_guards, network_guards, esim_guards, always, when_field,
  device_command_guards, guard_of_variants, device_command_guard,
}
use vodoge_cloud.DeviceConsole.{
  Command, Event, requested, proceeded, cancelled, settled, accepted, refused, rows, start,
  is_terminal, is_outstanding, is_register_write, disruptive, turns_off, spread, payload_of,
  body_of, confirmation_title, settle, is_redrawn, consequence_of, request, proceed, step, after,
  log_line, agent_log_lines,
}
use vodoge_cloud.DeviceConsole.Answered.{IsAwaited, IsAnswered, step-IsAnswered}

abbrev show : Json → Text
show v = []

abbrev labels : Text → Option Text
labels kind = none

abbrev off : Props
unfolding units
off = prop (units "enabled") (bool false) end

abbrev on : Props
unfolding units
on = prop (units "enabled") (bool true) end

abbrev radio_off : Command
unfolding units
radio_off = record { imei = units "7"; kind = units "set_radio"; extra = off }

console : Unit {0}
unfolding units text_eq trim trim_start is_space lookup field as_record any_string to_text elements
    get put fits first_fitting unknown_command read_guards module_guards network_guards esim_guards
    always when_field device_command_guards guard_of_variants device_command_guard is_terminal
    is_outstanding is_register_write disruptive turns_off spread payload_of body_of
    confirmation_title settle is_redrawn consequence_of request proceed step after log_line
    agent_log_lines IsAwaited
console = tt

-- Turning the radio off asks; turning it on does not.
off_asks :
    (step show labels (units "failed") (requested (units "7") (units "set_radio") off) start).1
    ≡ none
unfolding console
off_asks = refl

on_goes :
    (step show labels (units "failed") (requested (units "7") (units "set_radio") on) start).1
    ≡ some (record radio_off { extra = on })
unfolding console
on_goes = refl

abbrev asked : List Event
unfolding units
asked = requested (units "7") (units "set_radio") off ∷ []

answered :
    (step show labels
      (units "failed")
      (proceeded (units "7"))
      (after show labels (units "failed") asked)).1
    ≡ some radio_off
unfolding console
answered = refl

-- A second answer, and an answer to a question that was dropped, send nothing.
answered_twice :
    (step show labels
      (units "failed")
      (proceeded (units "7"))
      (after show labels (units "failed") (proceeded (units "7") ∷ asked))).1
    ≡ none
unfolding console
answered_twice = refl

dropped :
    (step show labels
      (units "failed")
      (proceeded (units "7"))
      (after show labels (units "failed") (cancelled ∷ asked))).1
    ≡ none
unfolding console
dropped = refl

-- A question about one module that is answered with another selected sends to the other.
moved :
    (step show labels
      (units "failed")
      (proceeded (units "8"))
      (after show labels (units "failed") asked)).1
    ≡ some (record radio_off { imei = units "8" })
unfolding console
moved = refl

-- A refusal shows its text, or the page's word where it has none.
refusal_shown :
    (after show labels
      (units "failed")
      (settled (units "set_radio") (refused (units " no ")) ∷ [])).error
    ≡ some (units "no")
unfolding console
refusal_shown = refl

blank_refusal :
    (after show labels
      (units "failed")
      (settled (units "set_radio") (refused (units " ")) ∷ [])).error
    ≡ some (units "failed")
unfolding console
blank_refusal = refl

redrawn : is_redrawn (units "create_modem") (accepted (rows [])) ≡ true
unfolding console
redrawn = refl

titled : confirmation_title show labels (units "set_radio") off (units "7") ≡ units "set_radio — 7"
unfolding console
titled = refl

-- Every button of the danger zone asks.
asks : Text → Bool
unfolding units
asks kind = elim (consequence_of show (units "7") kind (turns_off kind)) [
  | none ↦ false
  | some c ↦ true
]

all_ask : all asks disruptive ≡ true
unfolding console asks
all_ask = refl

one_line :
    agent_log_lines (
      some (
        obj (
          prop
            (units "lines")
            (arr (cons (obj (prop (units "text") (str (units "up")) end)) (cons (bool true) nil)))
            end)))
    ≡ some (record { at = finite (pos 0); text = units "up" } ∷ [])
unfolding console
one_line = refl

step-IsAnswered_example :
    IsAnswered show labels (units "failed") (proceeded (units "7")) asked radio_off
step-IsAnswered_example =
    step-IsAnswered show labels (units "failed") (proceeded (units "7")) asked radio_off answered
