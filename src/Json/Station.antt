-- ===== src/Json/Station.antt =====
-- messages/json/work_state.py and station_state.py: the states of the robot and of its station.
use client_py.Prelude.{
  Bool, false, ◌&&◌, ◌||◌, not, Option, none, some, List, [], ◌∷◌, ◌++◌, ℤ, pos, type_error, Result,
  ok, err, if◌then◌else◌,
}
use client_py.Prelude.Results.{◌>>=◌}
use client_py.Value.{Value, list, dict, end, get, get_or, is_text, is_int, truthy}
use client_py.Models.{State, StationState, emptying_dustbin, washing_mop, drying_mop}
use client_py.Events.{Event, state, station}
use client_py.Message.Body.{Message, message_body_data_dict}
use client_py.Json.Conclude.{conclude}

-- A key that a dict can be asked for; a list and a dict have no hash.
abbrev pub hashable : Value → Result Value
hashable (list vs) = err type_error
hashable (dict fs) = err type_error
hashable v = ok v

-- A row of `_WORK_STATE_2_EVENTS`.
abbrev pub station_row : Option State → Value → Option (Option State × StationState)
station_row at_idle station_state =
    if is_text station_state "idle"
    then some (at_idle, StationState.idle)
    else if is_text station_state "goCharging" || is_text station_state "goEmptying"
    then some (some State.returning, StationState.idle)
    else if is_text station_state "emptying"
    then some (some State.docked, emptying_dustbin)
    else if is_text station_state "washing"
    then some (some State.docked, washing_mop)
    else if is_text station_state "drying"
    then some (some State.docked, drying_mop)
    else none

-- `_WORK_STATE_2_EVENTS`
unfoldable pub work_state_events : Value → Value → Option (Option State × StationState)
work_state_events robot_state station_state =
    if is_text robot_state "idle"
    then station_row none station_state
    else if is_text robot_state "cleaning"
    then station_row (some State.cleaning) station_state
    else none

abbrev pub robot_event : Option State → List Event
robot_event none = []
robot_event (some s) = state s ∷ []

-- The events for a known pair; `paused` overrides the state of the robot.
abbrev pub work_events : Bool → Option (Option State × StationState) → Option (List Event)
work_events paused none = none
work_events paused (some (robot, at)) =
    some (robot_event (if paused then some State.paused else robot) ++ station at ∷ [])

unfoldable pub work_state : Value → Result (Option (List Event))
work_state value = do
  robot ← get_or value "robotState" (dict end)
  robot_state ← get robot "state"
  at ← get_or value "stationState" (dict end)
  station_state ← get at "state"
  robot_key ← hashable robot_state
  station_key ← hashable station_state
  paused ← get value "paused"
  ok (work_events (is_int paused (pos 1)) (work_state_events robot_key station_key))

abbrev pub on_work_state : Message
on_work_state = message_body_data_dict "onWorkState" (λ value. conclude (work_state value))

-- `(content := data.get("content")) and content.get("type") == t and content.get("motionState") == 1`
unfoldable pub does : ℤ → Value → Result Bool
does t content =
    if truthy content
    then (get content "type" >>= λ kind.
        if is_int kind t
        then (get content "motionState" >>= λ motion. ok (is_int motion (pos 1)))
        else ok false)
    else ok false

unfoldable pub station_state : Value → Result (Option (List Event))
station_state value = do
  status ← get value "state"
  content ← get value "content"
  let working = is_int status (pos 1)
  let idle = is_int status (pos 0)
  emptying ← if working then does (pos 1) content else ok false
  drying ← if working && not emptying then does (pos 2) content else ok false
  ok (
      if idle
      then some (station StationState.idle ∷ [])
      else if emptying
      then some (station emptying_dustbin ∷ [])
      else if drying
      then some (station drying_mop ∷ [])
      else none)

abbrev pub on_station_state : Message
on_station_state = message_body_data_dict "onStationState" (λ value. conclude (station_state value))
