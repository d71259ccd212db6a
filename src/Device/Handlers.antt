-- ===== src/Device/Handlers.antt =====
-- What `Device` subscribes to on its bus, and its handling of messages.
use client_py.Prelude.{
  String, Bool, true, false, ◌&&◌, not, Option, none, some, List, [], ◌∷◌, ◌++◌, any, is_empty,
  Result, if◌then◌else◌,
}
use client_py.Value.{Value, value_eq}
use client_py.Models.{State, docked, state_eq, PositionType, deebot, charger}
use client_py.Events.{Position}
use client_py.Events.Class.{EventClass}
use client_py.EventBus.State.{request_refresh}
use client_py.Command.Base.{Command}
use client_py.Command.Execute.{payload_of}
use client_py.Message.World.{World, HandlingState, HandlingResult}
use client_py.Message.Body.{Message, Payload, handle}
use client_py.Messages.Lookup.{DataType, MessageClass, get_message}
use client_py.Device.State.{Device, set_available, running_task, begin_commands}

abbrev pub refresh : EventClass → Device → Device
refresh c d = record d { world = record d.world { bus = request_refresh c d.world.bus } }

abbrev is_deebot : PositionType → Bool
is_deebot deebot = true
is_deebot charger = false

-- The first position of the robot
unfoldable pub deebot_position : List Position → Option Position
deebot_position [] = none
deebot_position (p ∷ positions) =
    let rest = deebot_position positions in if is_deebot p.type then some p else rest

-- Whether there is a charger where the robot is.
abbrev pub at_charger : List Position → Position → Bool
at_charger positions robot =
    any (λ p. not (is_deebot p.type) && value_eq p.x robot.x && value_eq p.y robot.y) positions

abbrev is_docked : Option State → Bool
is_docked none = false
is_docked (some s) = state_eq s docked

unfoldable pub on_pos : List Position → Device → Device
on_pos positions d = if is_docked d.state then d else elim (deebot_position positions) [
  | none ↦ d
  | some robot ↦ if at_charger positions robot then refresh EventClass.state d else d
]

unfoldable pub on_state : State → Device → Device
on_state s d =
    if state_eq s docked then refresh EventClass.total_stats (refresh EventClass.clean_log d) else d

unfoldable pub on_stats : Device → Device
on_stats d = refresh EventClass.life_span d

unfoldable pub on_network : Value → Device → Device
on_network mac d = record d { mac = some mac }

unfoldable pub on_firmware : Value → Device → Device
on_firmware version d = record d { fw_version = some version }

-- `_create_request_command_task`
unfoldable pub create_request_command_task : List Command → Device → Device
create_request_command_task commands d = record d { requested = d.requested ++ commands ∷ [] }

-- `task_group_runner`, when the first of these tasks begins
unfoldable pub run_requested : Device → Device
run_requested d = elim d.requested [
  | [] ↦ d
  | commands ∷ requested ↦ begin_commands running_task commands (record d { requested = requested })
]

-- What `_handle_message` does with the result
unfoldable pub take_requests : HandlingResult → Device → Device
take_requests r d = elim r.state [
  | HandlingState.success ↦
      if is_empty r.requested_commands
      then d
      else create_request_command_task r.requested_commands d
  | _ ↦ d
]

abbrev handled : HandlingResult × World → Device → Device
handled (r, w) d = take_requests r (record d { world = w })

-- `orjson.loads`, and what is known of the device: the classes of messages, its data type, and
-- whether it has a map
module _ (loads : Payload → Result Value) (message_of : MessageClass → Message) (type : DataType)
    (has_map : Bool) where
  unfoldable pub handle_message : String → Payload → Device → Device
  handle_message name payload d =
      let d1 = set_available true d in
      elim (get_message type has_map name) [
        | none ↦ d1
        | some c ↦ handled (handle loads (message_of c) payload d1.world) d1
      ]

  unfoldable pub on_custom_command : String → Value → Device → Device
  on_custom_command name response d = handle_message name (payload_of response) d
