-- ===== src/Json/CleanCommands.antt =====
-- The commands of commands/json/clean.py: their arguments, and how the last state of the robot
-- changes them before they are sent.
use client_py.Prelude.{String, Option, none, some, ℤ, if◌then◌else◌}
use client_py.Value.{Value, Fields, text, int, dict, field, end}
use client_py.Models.{
  State, state_eq, CleanAction, start, pause, resume, stop, clean_action_value, CleanMode, auto,
  clean_mode_value,
}
use client_py.Events.{Event, state}
use client_py.Events.Class.{EventClass}
use client_py.EventBus.State.{EventBus, get_last_event}

-- The classes of clean commands, with what an area command was given: its mode, the areas as a text
-- joined by commas, and, in the second version, the count in front of them.
pub data CleanKind : Type 0 where
  clean : CleanKind
  clean_area : CleanMode → String → ℤ → CleanKind
  clean_v2 : CleanKind
  clean_area_v2 : CleanMode → String → CleanKind

-- A command object: its class and `_args["act"]`, from which `_get_args` makes the rest.
pub record CleanCommand : Type 0 where
  pub kind : CleanKind
  pub act : CleanAction

abbrev act_field : CleanAction → Fields → Fields
act_field a fs = field "act" (text (clean_action_value a)) fs

-- `Clean._get_args`, and that of `CleanV2`
abbrev content_of : CleanAction → Fields
content_of start = field "type" (text (clean_mode_value auto)) end
content_of stop = field "type" (text "") end
content_of pause = field "type" (text "") end
content_of resume = end

-- `_get_args` of each class
unfoldable pub get_args : CleanKind → CleanAction → Value
get_args clean start = dict (act_field start (field "type" (text (clean_mode_value auto)) end))
get_args clean a = dict (act_field a end)
get_args (clean_area mode area count) start = dict (
    act_field start (
      field "type" (text (clean_mode_value mode))
        (field "content" (text area) (field "count" (int count) end))))
get_args (clean_area mode area count) a = dict (act_field a end)
get_args clean_v2 a = dict (act_field a (field "content" (dict (content_of a)) end))
get_args (clean_area_v2 mode value) start = dict (
    act_field start (
      field "content"
        (dict (field "type" (text (clean_mode_value mode)) (field "value" (text value) end))) end))
get_args (clean_area_v2 mode value) a =
    dict (act_field a (field "content" (dict (content_of a)) end))

-- The action that is sent, from the last state.
unfoldable pub adapt : CleanAction → State → CleanAction
adapt resume s = if state_eq s State.paused then resume else start
adapt start s = if state_eq s State.paused then resume else start
adapt a s = a

abbrev last_state : Option Event → Option State
last_state (some (state s)) = some s
last_state _ = none

-- `Clean._execute` before it sends: with no state yet the arguments stay.
unfoldable pub prepare : EventBus → CleanCommand → CleanCommand
prepare b c = elim (last_state (get_last_event EventClass.state b)) [
  | none ↦ c
  | some s ↦ record c { act = adapt c.act s }
]

-- `_args` of the command
abbrev pub args : CleanCommand → Value
args c = get_args c.kind c.act
