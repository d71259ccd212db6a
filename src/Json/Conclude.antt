-- ===== src/Json/Conclude.antt =====
-- The end that most handlers share: events for the bus and a result.
use client_py.Prelude.{Option, none, some, List, [], ◌∷◌, ◌++◌, Result, ok, err, Exec}
use client_py.Value.{Fields}
use client_py.Events.{Event}
use client_py.Command.Base.{Command}
use client_py.Message.World.{World, HandlingState, HandlingResult, result, notify}

abbrev pub success : Option HandlingResult
success = some (result HandlingState.success)

abbrev pub analyse : Option HandlingResult
analyse = some (result HandlingState.analyse)

-- `event_bus.notify` of each, in order.
unfoldable pub notify_each : List Event → World → World
notify_each [] w = w
notify_each (e ∷ es) w = notify_each es (notify e w)

-- The events of a message that was understood and success, or `HandlingResult.analyse()`; a handler
-- that raises before its first event has told the bus nothing.
unfoldable pub conclude : Result (Option (List Event)) → Exec World (Option HandlingResult)
conclude (err e) w = (err e, w)
conclude (ok none) w = (ok analyse, w)
conclude (ok (some es)) w = (ok success, notify_each es w)

-- `HandlingResult(HandlingState.SUCCESS, args)`
abbrev pub success_with : Fields → Option HandlingResult
success_with fs =
    some (record { state = HandlingState.success; args = some fs; requested_commands = [] })

-- As `conclude`, with the arguments that the result carries.
unfoldable pub conclude_with :
    Result (Option (List Event × Fields)) → Exec World (Option HandlingResult)
conclude_with (err e) w = (err e, w)
conclude_with (ok none) w = (ok analyse, w)
conclude_with (ok (some (es, fs))) w = (ok (success_with fs), notify_each es w)

-- An override of `_handle_response` that requests commands for a success with arguments.
abbrev pub requesting :
    HandlingResult → Option Fields → Result (List Command) → Result HandlingResult
requesting r none commands = ok r
requesting r (some fs) (err e) = err e
requesting r (some fs) (ok commands) =
    ok (record r { requested_commands = r.requested_commands ++ commands })

abbrev no_fields : Option Fields → Fields
no_fields none = Fields.end
no_fields (some fs) = fs

unfoldable pub request : (Fields → Result (List Command)) → HandlingResult → Result HandlingResult
request commands_of r = elim r.state [
  | HandlingState.success ↦ requesting r r.args (commands_of (no_fields r.args))
  | _ ↦ ok r
]

unfoldable pub and_request :
    (Fields → Result (List Command)) → Exec World HandlingResult → Exec World HandlingResult
and_request commands_of super w =
    let (answer, w') = super w in
    elim answer [ err e ↦ (err e, w') | ok r ↦ (request commands_of r, w') ]
