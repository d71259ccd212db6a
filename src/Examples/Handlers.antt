-- ===== src/Examples/Handlers.antt =====
-- Messages, responses and commands on concrete inputs.
use client_py.Prelude.{
  if◌then◌else◌, map, ◌+◌, ◌≡◌, ◌≢◌, refl, true, false, Option, some, [], ◌∷◌, ◌++◌, pos, text_keys,
  Result, ok, err, value_error,
}
use client_py.Dict
use client_py.Value.{
  Value, Fields, null, int, text, dict, field, end, get_or, item, find, truthy, is_text, is_int,
  items_eq,
}
use client_py.Models.{State, StationState, state_eq, start, resume}
use client_py.Events.{state, station, availability, class_of, event_eq}
use client_py.Events.Class.{EventClass, class_eq, class_keys}
use client_py.EventBus.State.{
  data_of, deliver, init, get_last_event, has_subscribers, request_refresh,
}
use client_py.EventBus.Subscribe.{subscribe, greet}
use client_py.EventBus.Notify
use client_py.EventBus.Notify.{same_as_last}
use client_py.Message.World.{World, HandlingState, HandlingResult, result, notify, failures}
use client_py.Message.Body.{Payload, object, message_body_data, handle, firmware_version}
use client_py.Message.Routing.{times, handle-≢-analyse, handle-body_data}
use client_py.Message.Throttle.{warnings, warnings-times}
use client_py.Command.Execute.{Executable, unreached, execute, handle_message_response}
use client_py.Command.Outcome.{offline_is_told}
use client_py.Json.Conclude.{success, conclude, notify_each}
use client_py.Json.Status.{clean_info, charge_failure, handle_charge_state, get_clean_info}
use client_py.Json.Station.{work_state, work_state_events, robot_event}
use client_py.Json.CleanCommands.{CleanCommand, clean, adapt, prepare, args}
use client_py.Json.Docking.{clean_info-≢-docked, idle_answer_stays_docked}
use client_py.Json.WorkEvents.{work_state_reports}
use client_py.Json.Resume.{resume_only_paused, prepare-prepare}

-- A parser for the examples: it reads no text.
abbrev no_json : Payload → Result Value
no_json _ = err value_error

-- A robot with one subscriber of its state, which was told that the robot is in a state.
abbrev world_at : State → World
world_at s = record {
  bus = Notify.notify (state s) 0 (subscribe EventClass.state 7 (init (λ _. [])));
  parse_failure_counts = [];
  log = [];
}

abbrev docked : World
docked = world_at State.docked

abbrev idle_data : Value
idle_data = dict (field "state" (text "idle") end)

abbrev idle_body : Fields
idle_body = field "data" idle_data end

abbrev idle_message : Fields
idle_message = field "body" (dict idle_body) end

handle-≢-analyse_example :
    (handle no_json get_clean_info (object idle_message) docked).0.state ≢ HandlingState.analyse
handle-≢-analyse_example = handle-≢-analyse no_json get_clean_info (object idle_message) docked

abbrev raising : Value → World → Result (Option HandlingResult) × World
raising value w = (err value_error, w)

handle-body_data_example :
    handle no_json (message_body_data "getCleanInfo" raising) (object idle_message) docked
    ≡ (result HandlingState.error, times 4 "getCleanInfo" docked)
unfolding firmware_version find get_or truthy
handle-body_data_example =
    handle-body_data no_json "getCleanInfo" raising idle_message idle_body idle_data null docked
      refl refl refl

warnings-times_example :
    (failures "onPos" (times 5 "onPos" docked) ≡ 5)
    × (warnings "onPos" (times 5 "onPos" docked) + 0 ≡ 3)
unfolding failures warnings Dict.get
warnings-times_example = warnings-times 5 "onPos" docked

abbrev get_clean : Executable
get_clean = record {
  name = "getCleanInfo";
  targets_bot = true;
  handle_response = handle_message_response "getCleanInfo" false (handle no_json get_clean_info);
}

abbrev offline_response : Value
offline_response = dict (field "ret" (text "fail") (field "errno" (int (pos 4200)) end))

-- A robot with one subscriber of its availability
abbrev watched : World
watched = record docked { bus = subscribe EventClass.availability 9 docked.bus }

offline_is_told_example :
    let x = execute get_clean (ok offline_response) watched in
    (x.0 ≡ (unreached, []))
    × (same_as_last (availability false) (data_of EventClass.availability x.1.bus).last_event
        ≡ true)
    × (x.1.bus.tasks
        ≡ watched.bus.tasks
          ++ (if same_as_last
                (availability false)
                (data_of EventClass.availability watched.bus).last_event
              then []
              else map
                  (deliver (availability false))
                  (data_of EventClass.availability watched.bus).subscriber_callbacks))
unfolding get_or find is_text is_int
offline_is_told_example =
    offline_is_told "getCleanInfo" false true (handle no_json get_clean_info) offline_response
      (text "fail") (int (pos 4200)) watched refl refl refl refl

clean_info-≢-docked_example : State.idle ≢ State.docked
unfolding clean_info get_or find is_text
clean_info-≢-docked_example = clean_info-≢-docked idle_data State.idle refl

-- A robot that is stuck answers "fail" with the code 3.
abbrev stuck : Value
stuck = dict (field "code" (text "3") (field "msg" (text "fail") end))

-- A test: it is reported as docked.
stuck_is_docked :
    handle_charge_state stuck docked ≡ (ok success, notify (state State.docked) docked)
unfolding handle_charge_state charge_failure conclude notify_each get_or find is_text is_int item
stuck_is_docked = refl

idle_answer_stays_docked_example :
    ((handle no_json get_clean_info (object idle_message) docked).0.state ≡ HandlingState.success)
    × ((data_of EventClass.state
          (handle no_json get_clean_info (object idle_message) docked).1.bus).last_event
        ≡ some (state State.docked))
    × ((handle no_json get_clean_info (object idle_message) docked).1.bus.tasks ≡ docked.bus.tasks)
unfolding clean_info get_or find is_text firmware_version state_eq data_of class_of event_eq
    class_eq items_eq Notify.notify Notify.notify_now Notify.normalize Notify.recovers
    Notify.publish Dict.get Dict.set subscribe greet has_subscribers request_refresh
idle_answer_stays_docked_example =
    idle_answer_stays_docked no_json idle_message idle_body idle_data docked refl refl refl refl
      refl refl

abbrev washing : Value
washing = dict (
    field "robotState" (dict (field "state" (text "cleaning") end)) (
      field "stationState" (dict (field "state" (text "washing") end))
        (field "paused" (int (pos 1)) end)))

work_state_reports_example :
    (robot : Option State) × (at : StationState) × ((state State.paused
        ∷ station StationState.washing_mop
        ∷ [])
      ≡ robot_event (some State.paused) ++ station at ∷ [])
unfolding work_state work_state_events get_or find is_text is_int
work_state_reports_example =
    work_state_reports washing (int (pos 1))
      (state State.paused ∷ station StationState.washing_mop ∷ []) refl refl

abbrev starting : CleanCommand
starting = record { kind = clean; act = start }

paused-last :
    get_last_event EventClass.state (world_at State.paused).bus ≡ some (state State.paused)
unfolding state_eq get_last_event class_of event_eq class_eq items_eq Notify.notify
    Notify.notify_now Notify.normalize Notify.recovers Notify.publish Dict.get Dict.set subscribe
    greet has_subscribers request_refresh data_of
paused-last = refl

paused-resume : (prepare (world_at State.paused).bus starting).act ≡ resume
unfolding prepare adapt state_eq get_last_event class_of event_eq class_eq items_eq Notify.notify
    Notify.notify_now Notify.normalize Notify.recovers Notify.publish Dict.get Dict.set subscribe
    greet has_subscribers request_refresh data_of
paused-resume = refl

resume_only_paused_example : State.paused ≡ State.paused
resume_only_paused_example =
    resume_only_paused (world_at State.paused).bus starting State.paused paused-last paused-resume

prepare-prepare_example :
    args (prepare (world_at State.paused).bus (prepare (world_at State.paused).bus starting))
    ≡ args (prepare (world_at State.paused).bus starting)
prepare-prepare_example =
    prepare-prepare (world_at State.paused).bus starting State.paused paused-last
