-- ===== src/Message/Routing.antt =====
-- `Message.handle`: what it returns and what a message with a body and data comes to.
use client_py.Prelude.{
  ℕ, zero, suc, ◌≡◌, ◌≢◌, refl, ap, ◌∙◌, String, Option, none, some, Result, ok, err,
}
use client_py.Value.{Value, Fields, dict, find, has, item}
use client_py.Message.World.{
  World, HandlingState, HandlingResult, Handler, debug, could_not_handle, result, analysed, write,
  log_parse_failure,
}
use client_py.Message.Wrap.{wrapper, wrapped, settle}
use client_py.Message.Body.{
  Payload, object, Message, message_body, message_body_data, handle, handle_dict_or_json,
  handle_decoded, handle_in_body, handle_in_body_data, guard_body_data, settle_body_data,
  firmware_version, notify_firmware,
}

-- The parse failure is logged a number of times.
unfoldable pub times : ℕ → String → World → World
times zero name w = w
times (suc n) name w = times n name (log_parse_failure name w)

-- What comes of what `_handle_body_data` did.
abbrev pub settled : String → Result (Option HandlingResult) × World → HandlingResult × World
settled name (err e, w) = (result HandlingState.error, times 4 name w)
settled name (ok none, w) = (result HandlingState.error, times 3 name w)
settled name (ok (some r), w) = elim r.state [
  | HandlingState.analyse ↦ (analysed r, write debug could_not_handle name w)
  | HandlingState.error ↦ (r, times 3 name w)
  | _ ↦ (r, w)
]

settle-≢ :
    (name : String) (response : Option HandlingResult) (w : World)
    → (settle name response w).0.state ≢ HandlingState.analyse
unfolding settle
settle-≢ name none w = λ h. cc
settle-≢ name (some r) w =
    elim r.state
      as (λ s. (settle name (some (record r { state = s })) w).0.state ≢ HandlingState.analyse) [
        | HandlingState.success ↦ λ h. cc
        | HandlingState.failed ↦ λ h. cc
        | HandlingState.error ↦ λ h. cc
        | HandlingState.analyse ↦ λ h. cc
        | HandlingState.analyse_logged ↦ λ h. cc
      ]

-- The three decorated methods and the guard, on what `_handle_body_data` did.
guarded_lem :
    (name : String) (x : Result (Option HandlingResult) × World) (v : Value) (w : World)
    → wrapper name
        (wrapped name (wrapped name (guard_body_data name (λ (_ : Value) (_ : World). x))))
        v
        w
      ≡ settled name x
unfolding wrapper settle guard_body_data settle_body_data times
guarded_lem name (err e, w') v w = refl
guarded_lem name (ok none, w') v w = refl
guarded_lem name (ok (some r), w') v w =
    elim r.state
      as (λ s.
        wrapper name
          (wrapped name (
            wrapped name (
              guard_body_data name
                (λ (_ : Value) (_ : World). (ok (some (record r { state = s })), w')))))
          v w
        ≡ settled name (ok (some (record r { state = s })), w')) [
          | HandlingState.success ↦ refl
          | HandlingState.failed ↦ refl
          | HandlingState.error ↦ refl
          | HandlingState.analyse ↦ refl
          | HandlingState.analyse_logged ↦ refl
        ]

wrapper-≢ :
    (name : String) (x : Result (Option HandlingResult) × World) (v : Payload) (w : World)
    → (wrapper name (λ (_ : Payload) (_ : World). x) v w).0.state ≢ HandlingState.analyse
unfolding wrapper
wrapper-≢ name (err e, w') v w = λ h. cc
wrapper-≢ name (ok response, w') v w = settle-≢ name response w'

-- `handle` returns a result for every payload, whatever the class does, and never `ANALYSE`.
pub handle-≢-analyse :
    (loads : Payload → Result Value) (m : Message) (payload : Payload) (w : World)
    → (handle loads m payload w).0.state ≢ HandlingState.analyse
unfolding handle wrapper
handle-≢-analyse loads m payload w =
    wrapper-≢ m.name (handle_dict_or_json loads m payload w) payload w

handle_decoded_lem :
    (m : Message) (fs : Fields) (version : Value) (w : World)
    → firmware_version (dict fs) ≡ ok version
    → handle_decoded m (dict fs) w
      ≡ wrapped m.name m.handle_dict (dict fs) (notify_firmware version w)
unfolding handle_decoded
handle_decoded_lem m fs version w h = rw (h, handle_decoded)

handle_in_body_lem :
    (name : String) (h : Handler Value) (fs : Fields) (body : Value) (w : World)
    → find "body" fs ≡ some body
    → handle_in_body name h (dict fs) w ≡ wrapped name h body w
unfolding handle_in_body has item
handle_in_body_lem name h fs body w found = rw (found, handle_in_body, has, item)

handle_in_body_data_lem :
    (name : String) (h : Handler Value) (fs : Fields) (value : Value) (w : World)
    → find "data" fs ≡ some value
    → handle_in_body_data name h (dict fs) w ≡ guard_body_data name h value w
unfolding handle_in_body_data has item
handle_in_body_data_lem name h fs value w found = rw (found, handle_in_body_data, has, item)

-- A decorated method, on what the method does.
unfoldable pub again :
    String → Result (Option HandlingResult) × World → Result (Option HandlingResult) × World
again name x = wrapped name (λ (_ : Value) (_ : World). x) Value.null x.1

-- A decorated method that is called from outside.
abbrev pub outer : String → Result (Option HandlingResult) × World → HandlingResult × World
outer name x = wrapper name (λ (_ : Value) (_ : World). x) Value.null x.1

-- A message with a body is handed to the class with that body.
pub handle-body :
    (loads : Payload → Result Value) (name : String) (h : Handler Value) (fs body : Fields)
    (version : Value) (w : World)
    → firmware_version (dict fs) ≡ ok version
    → find "body" fs ≡ some (dict body)
    → handle loads (message_body name h) (object fs) w
      ≡ outer name (again name (again name (h (dict body) (notify_firmware version w))))
unfolding handle handle_dict_or_json again wrapper
handle-body loads name h fs body version w fw hb =
    ap (outer name) (handle_decoded_lem (message_body name h) fs version w fw)
    ∙ ap (λ x. outer name (again name x))
        (handle_in_body_lem name h fs (dict body) (notify_firmware version w) hb)

-- A message whose body has data is handed to the class with that data, after the firmware version
-- of the header was told to the bus. A result `SUCCESS` or `FAILED` is returned as it is,
-- `ANALYSE` is logged and becomes `ANALYSE_LOGGED`. One failure is counted and logged more than
-- once: four times for an exception, three for the state `ERROR` or no result.
pub handle-body_data :
    (loads : Payload → Result Value) (name : String) (h : Handler Value) (fs body : Fields)
    (value version : Value) (w : World)
    → firmware_version (dict fs) ≡ ok version
    → find "body" fs ≡ some (dict body)
    → find "data" body ≡ some value
    → handle loads (message_body_data name h) (object fs) w
      ≡ settled name (h value (notify_firmware version w))
unfolding handle handle_dict_or_json again wrapper guard_body_data
handle-body_data loads name h fs body value version w fw hb hd =
    let w0 = notify_firmware version w in
    handle-body loads name (handle_in_body_data name h) fs body version w fw hb
    ∙ ap (λ x. outer name (again name (again name x)))
        (handle_in_body_data_lem name h body value w0 hd)
    ∙ guarded_lem name (h value w0) Value.null w
