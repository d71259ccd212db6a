-- ===== src/Command/Parameters.antt =====
-- Which P2P commands are refused, and what a set command that the device accepted does.
use client_py.Prelude.{
  ◌≡◌, refl, inl, inr, Bool-cases, Option-cases, Result-cases, arith, String, false, none, some, [],
  ◌∷◌, ◌++◌, text_keys, Error, key_error, deebot_error, Result, ok, err, pos, negsuc, if◌then◌else◌,
}
use client_py.Value.{Value, Fields, end, field, find, dict, int, get_or, is_int}
use client_py.Message.World.{World, HandlingState, Handler, warning, not_successful, result, write}
use client_py.Message.Wrap.{wrapper, settle}
use client_py.Message.Body.{
  Payload, object, message_body, handle, firmware_version, notify_firmware,
}
use client_py.Message.Routing.{handle-body, again}
use client_py.Command.P2p.{
  InitParam, Params, pop_field, pop_or_raise, is_key_error, name_or, set_field, create_values,
  handle_mqtt_p2p,
}
use client_py.Json.Conclude.{success}
use client_py.Json.Status.{handle_execute}

find-pop_field : (j k : String) (fs : Fields) → find j fs ≡ none → find j (pop_field k fs) ≡ none
unfolding find pop_field
find-pop_field j k end h = refl
find-pop_field j k (field i v fs) h = ground (arith, find-pop_field j k fs)

find-pop_or_raise :
    (j k : String) (type : Value → Result Value) (fs : Fields)
    → find j fs ≡ none
    → find j (pop_or_raise k type fs).1 ≡ none
unfolding pop_or_raise
find-pop_or_raise j k type fs h = elim (Option-cases (find k fs)) [
  | inl gone ↦ rw (gone, pop_or_raise) h
  | inr (v, found) ↦ elim (Result-cases (type v)) [
    | inl (u, good) ↦ rw (found, pop_or_raise, good) (find-pop_field j k fs h)
    | inr (e, bad) ↦ rw (found, pop_or_raise, bad) (find-pop_field j k fs h)
  ]
]

pop-missing :
    (name : String) (type : Value → Result Value) (fs : Fields)
    → find name fs ≡ none
    → pop_or_raise name type fs ≡ (err key_error, fs)
unfolding pop_or_raise
pop-missing name type fs h = rw (h, pop_or_raise)

-- A command that lacks a required parameter is refused, whatever its other parameters are.
pub missing_is_refused :
    (before after : Params) (name : String) (p : InitParam) (fs values : Fields)
    → p.optional ≡ false
    → find name fs ≡ none
    → (e : Error) × (create_values (before ++ (name, some p) ∷ after) fs values ≡ err e)
unfolding create_values
missing_is_refused [] after name p fs values required missing =
    (deebot_error, rw (create_values, pop-missing name p.type fs missing, required))
missing_is_refused ((k, none) ∷ before) after name p fs values required missing =
    missing_is_refused before after name p (pop_field k fs) values required
      (find-pop_field name k fs missing)
missing_is_refused ((k, some q) ∷ before) after name p fs values required missing =
    let popped = pop_or_raise k q.type fs in
    let still = find-pop_or_raise name k q.type fs missing in
    elim (Result-cases popped.0) [
      | inl (v, h) ↦
          let (e, eq) =
            missing_is_refused before after name p popped.1
              (set_field (name_or k q.rename) v values) required still in
          (e, rw (create_values, h) eq)
      | inr (e, h) ↦ elim (Bool-cases (is_key_error e)) [
        | inr other ↦ (e, rw (create_values, h, other))
        | inl key ↦ elim (Bool-cases q.optional) [
          | inr must ↦ (deebot_error, rw (create_values, h, key, must))
          | inl may ↦
              let (e', eq) =
                missing_is_refused before after name p popped.1 values required still in
              (e', rw (create_values, h, key, may) eq)
        ]
      ]
    ]

handle_execute_lem :
    (name : String) (body : Fields) (code : Value) (w : World)
    → get_or (dict body) "code" (int (negsuc 0)) ≡ ok code
    → handle_execute name (dict body) w ≡ (
        if is_int code (pos 0)
        then (ok success, w)
        else (ok (some (result HandlingState.failed)), write warning not_successful name w))
unfolding handle_execute
handle_execute_lem name body code w h = rw (h, handle_execute)

-- A set command over MQTT whose response has a body with a code: if the code is 0, its arguments are
-- handled as if the device had answered the linked get command with them; else the bus is told
-- nothing but the firmware version, and the failure is logged.
pub set_accepted :
    (loads : Payload → Result Value) (name : String) (h : Handler Value) (args fs body : Fields)
    (code version : Value) (w : World)
    → firmware_version (dict fs) ≡ ok version
    → find "body" fs ≡ some (dict body)
    → get_or (dict body) "code" (int (negsuc 0)) ≡ ok code
    → handle_mqtt_p2p
        (record {
          handle = handle loads (message_body name (handle_execute name));
          args = dict args;
          handle_set_args = h;
        })
        (object fs)
        w
      ≡ (if is_int code (pos 0)
          then h (dict args) (notify_firmware version w)
          else (ok none, write warning not_successful name (notify_firmware version w)))
unfolding handle_mqtt_p2p wrapper settle again
set_accepted loads name h args fs body code version w hfw hbody hcode =
    let w0 = notify_firmware version w in
    let answered = handle_execute_lem name body code w0 hcode in
    elim (Bool-cases (is_int code (pos 0))) [
      | inl fine ↦ rw (
        handle_mqtt_p2p,
        handle-body loads name (handle_execute name) fs body version w hfw hbody,
        answered,
        fine,
      )
      | inr bad ↦ rw (
        handle_mqtt_p2p,
        handle-body loads name (handle_execute name) fs body version w hfw hbody,
        answered,
        bad,
      )
    ]
