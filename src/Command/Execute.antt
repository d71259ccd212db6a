-- ===== src/Command/Execute.antt =====
-- `Command.execute`, `_execute` and `__handle_response`, and the response of a
-- `CommandWithMessageHandling`.
use client_py.Prelude.{
  String, Bool, true, false, List, [], pos, Error, api_timeout, Result, ok, err, Exec,
  if◌then◌else◌,
}
use client_py.Value.{Value, Fields, text, dict, get, get_or, is_text, is_int}
use client_py.Events.{availability}
use client_py.Command.Base.{Command}
use client_py.Message.World.{
  World, HandlingState, HandlingResult, debug, info, warning, could_not_parse, could_not_handle,
  could_not_execute, timeout_reached, offline, no_answer, not_successful, result, write, notify,
}
use client_py.Message.Body.{Payload, str, object, other}

-- A command object as `execute` sees it; `handle` is `Message.handle` of its class, and
-- `_handle_response` is that of its class.
pub record Executable : Type 0 where
  pub name : String
  pub targets_bot : Bool
  pub handle_response : Value → Exec World HandlingResult

pub record DeviceCommandResult : Type 0 where
  pub device_reached : Bool
  pub raw_response : Value

abbrev pub payload_of : Value → Payload
payload_of (text s) = str s
payload_of (dict fs) = object fs
payload_of v = other v

-- `response.get("ret") == "ok"`: the message in the response is handled. The commands that it
-- requests are not taken over.
unfoldable pub handle_ok :
    (Payload → World → HandlingResult × World) → Value → Exec World HandlingResult
handle_ok handle response w = elim (get_or response "resp" response) [
  | err e ↦ (err e, w)
  | ok value ↦
      let (r, w') = handle (payload_of value) w in
      (ok (record { state = r.state; args = r.args; requested_commands = [] }), w')
]

abbrev failed : HandlingResult
failed = result HandlingState.failed

-- The rest of `_handle_response`, on the error number of the response.
unfoldable pub handle_errno : String → Bool → Value → World → HandlingResult × World
handle_errno name is_available_check errno w =
    if is_int errno (pos 4200)
    then (failed, notify (availability false) (write info offline name w))
    else if is_int errno (pos 500)
    then (failed, write (if is_available_check then info else warning) no_answer name w)
    else (result HandlingState.analyse, write warning not_successful name w)

-- `CommandWithMessageHandling._handle_response`
unfoldable pub handle_message_response :
    String → Bool → (Payload → World → HandlingResult × World) → Value → Exec World HandlingResult
handle_message_response name is_available_check handle response w = elim (get response "ret") [
  | err e ↦ (err e, w)
  | ok ret ↦ if is_text ret "ok" then handle_ok handle response w else elim (get response "errno") [
    | err e ↦ (err e, w)
    | ok errno ↦ (let (r, w') = handle_errno name is_available_check errno w in (ok r, w'))
  ]
]

-- The `else` clause of `__handle_response`
unfoldable pub settle_response : String → HandlingResult → World → HandlingResult × World
settle_response name r w = elim r.state [
  | HandlingState.analyse ↦
      (record r { state = HandlingState.analyse_logged }, write debug could_not_handle name w)
  | _ ↦ (r, w)
]

-- `__handle_response`
unfoldable pub guard_response : Executable → Value → World → HandlingResult × World
guard_response c response w =
    let (answer, w') = c.handle_response response w in
    elim answer [
      | err e ↦ (result HandlingState.error, write warning could_not_parse c.name w')
      | ok r ↦ settle_response c.name r w'
    ]

-- What `_execute` logs and returns after the response was handled.
unfoldable pub report : String → HandlingResult → World → HandlingResult × World
report name r w = elim r.state [
  | HandlingState.analyse ↦
      (record r { state = HandlingState.analyse_logged }, write debug could_not_handle name w)
  | HandlingState.error ↦ (r, write warning could_not_parse name w)
  | _ ↦ (r, w)
]

abbrev is_timeout : Error → Bool
is_timeout api_timeout = true
is_timeout _ = false

-- `_execute`, on what `_execute_api_request` returned or raised.
unfoldable pub run : Executable → Result Value → Exec World (HandlingResult × Value)
run c (err e) w =
    if is_timeout e
    then (ok (result HandlingState.error, dict Fields.end), write warning timeout_reached c.name w)
    else (err e, w)
run c (ok response) w =
    let (r, w') = guard_response c response w in
    let (r', w'') = report c.name r w' in (ok (r', response), w'')

abbrev pub unreached : DeviceCommandResult
unreached = record { device_reached = false; raw_response = dict Fields.end }

abbrev is_success : HandlingState → Bool
is_success HandlingState.success = true
is_success _ = false

-- `execute`, with the commands that its task group executes before it returns; they raise nothing,
-- since each is executed in the same way.
unfoldable pub execute :
    Executable → Result Value → World → (DeviceCommandResult × List Command) × World
execute c outcome w =
    let (answer, w') = run c outcome w in
    elim answer [
      | err e ↦ ((unreached, []), write warning could_not_execute c.name w')
      | ok (r, response) ↦
          if is_success r.state
          then (
            (
              record { device_reached = c.targets_bot; raw_response = response },
              r.requested_commands,
            ),
            w',
          )
          else ((unreached, []), w')
    ]
