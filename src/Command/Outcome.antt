-- ===== src/Command/Outcome.antt =====
-- What `execute` comes to: when a device counts as reached, and what an offline device does.
use client_py.Prelude.{
  ◌≡◌, refl, ◌++◌, map, if◌then◌else◌, String, Bool, true, false, List, [], pos, api_timeout,
  Result, ok, err,
}
use client_py.Value.{Value, get, is_text, is_int}
use client_py.Events.{availability}
use client_py.Events.Class.{EventClass}
use client_py.EventBus.State.{data_of, deliver}
use client_py.EventBus.Notify.{same_as_last}
use client_py.EventBus.Publishing.{unavailable_is_told}
use client_py.Command.Base.{Command}
use client_py.Message.World.{
  World, HandlingState, HandlingResult, debug, info, warning, offline, could_not_parse,
  could_not_handle, could_not_execute, timeout_reached, write, notify,
}
use client_py.Message.Body.{Payload}
use client_py.Command.Execute.{
  Executable, DeviceCommandResult, handle_message_response, handle_errno, settle_response,
  guard_response, report, run, execute, unreached,
}

abbrev pub Execution : Type 0
Execution = (DeviceCommandResult × List Command) × World

-- What comes of what `_handle_response` did.
abbrev pub responded : String → Bool → Value → Result HandlingResult × World → Execution
responded name targets_bot response (err e, w) =
    ((unreached, []), write warning could_not_parse name (write warning could_not_parse name w))
responded name targets_bot response (ok r, w) = elim r.state [
  | HandlingState.success ↦
      ((record { device_reached = targets_bot; raw_response = response }, r.requested_commands), w)
  | HandlingState.error ↦ ((unreached, []), write warning could_not_parse name w)
  | HandlingState.analyse ↦ ((unreached, []), write debug could_not_handle name w)
  | _ ↦ ((unreached, []), w)
]

-- What comes of the request.
abbrev pub executed : Executable → Result Value → World → Execution
executed c (err api_timeout) w = ((unreached, []), write warning timeout_reached c.name w)
executed c (err e) w = ((unreached, []), write warning could_not_execute c.name w)
executed c (ok response) w = responded c.name c.targets_bot response (c.handle_response response w)

responded_lem :
    (name : String) (bot : Bool) (response : Value) (x : Result HandlingResult × World) (w : World)
    → execute
        (record { name = name; targets_bot = bot; handle_response = λ (_ : Value) (_ : World). x })
        (ok response)
        w
      ≡ responded name bot response x
unfolding execute run report guard_response settle_response
responded_lem name bot response (err e, w') w = refl
responded_lem name bot response (ok r, w') w =
    elim r.state
      as (λ s.
        execute
          (record {
            name = name;
            targets_bot = bot;
            handle_response = λ (_ : Value) (_ : World). (ok (record r { state = s }), w');
          })
          (ok response) w
        ≡ responded name bot response (ok (record r { state = s }), w')) [
          | HandlingState.success ↦ refl
          | HandlingState.failed ↦ refl
          | HandlingState.error ↦ refl
          | HandlingState.analyse ↦ refl
          | HandlingState.analyse_logged ↦ refl
        ]

pub execute-eq-executed :
    (c : Executable) (outcome : Result Value) (w : World)
    → execute c outcome w ≡ executed c outcome w
unfolding execute run guard_response
execute-eq-executed c (ok response) w =
    responded_lem c.name c.targets_bot response (c.handle_response response w) w
execute-eq-executed c (err api_timeout) w = refl
execute-eq-executed c (err e) w = refl

-- What becomes of a response that says that the robot is offline.
offline_lem :
    (name : String) (check bot : Bool) (handle : Payload → World → HandlingResult × World)
    (response ret errno : Value) (w : World)
    → get response "ret" ≡ ok ret
    → is_text ret "ok" ≡ false
    → get response "errno" ≡ ok errno
    → is_int errno (pos 4200) ≡ true
    → execute
        (record {
          name = name;
          targets_bot = bot;
          handle_response = handle_message_response name check handle;
        })
        (ok response)
        w
      ≡ ((unreached, []), notify (availability false) (write info offline name w))
unfolding handle_message_response handle_errno
offline_lem name check bot handle response ret errno w hret hok herr hnum =
    rw (execute-eq-executed, handle_message_response, hret, hok, herr, handle_errno, hnum)

-- A command whose response says that the robot is offline (4200) does not reach it, and requests
-- nothing. Afterwards the last availability on the bus is that the robot is not available, and each
-- subscriber of the availability is told so, in the order of subscription, unless that was the last
-- one before.
pub offline_is_told :
    (name : String) (check bot : Bool) (handle : Payload → World → HandlingResult × World)
    (response ret errno : Value) (w : World)
    → get response "ret" ≡ ok ret
    → is_text ret "ok" ≡ false
    → get response "errno" ≡ ok errno
    → is_int errno (pos 4200) ≡ true
    → let x =
        execute
          (record {
            name = name;
            targets_bot = bot;
            handle_response = handle_message_response name check handle;
          })
          (ok response)
          w in
      let d = data_of EventClass.availability w.bus in
      (x.0 ≡ (unreached, []))
      × (same_as_last (availability false) (data_of EventClass.availability x.1.bus).last_event
          ≡ true)
      × (x.1.bus.tasks
          ≡ w.bus.tasks
            ++ (if same_as_last (availability false) d.last_event
                then []
                else map (deliver (availability false)) d.subscriber_callbacks))
offline_is_told name check bot handle response ret errno w hret hok herr hnum =
    let (last, told) = unavailable_is_told w.bus in
    rw (offline_lem name check bot handle response ret errno w hret hok herr hnum)
      (refl, last, told)
