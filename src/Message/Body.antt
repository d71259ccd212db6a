-- ===== src/Message/Body.antt =====
-- `MessageDictOrJson`, `MessageBody`, `MessageBodyData` and their variants for a dict and a list.
-- A class of messages is its `NAME` and the method that its base class leaves open; each base class
-- is a function from that method to the method of its own base.
use client_py.Prelude.{
  String, Option, none, some, ℕ, List, attribute_error, Result, ok, err, Exec, pure, lift, ◌>>=◌,
  if◌then◌else◌,
}
use client_py.Value.{Value, Fields, dict, end, null, truthy, is_dict, is_list, get_or, item, has}
use client_py.Events.{firmware}
use client_py.Message.World.{
  World, HandlingState, HandlingResult, Handler, debug, could_not_handle, could_not_decode, result,
  analysed, write, notify, log_parse_failure,
}
use client_py.Message.Wrap.{wrapper, wrapped}

-- `MessagePayloadType`, and what a response may hold in its place.
pub data Payload : Type 0 where
  str : String → Payload
  bytes bytearray : List ℕ → Payload
  object : Fields → Payload
  other : Value → Payload

-- A class of messages with a dict: `NAME` and `_handle_dict`.
pub record Message : Type 0 where
  pub name : String
  pub handle_dict : Handler Value

-- `MessageBody._handle_dict`; the method of the base class has no body.
unfoldable pub handle_in_body : String → Handler Value → Handler Value
handle_in_body name handle_body message = do
  present ← lift (has message "body")
  if present then lift (item message "body") >>= wrapped name handle_body else pure none

-- The `else` clause of `__handle_body_data`; a `None` has no `state`.
unfoldable pub settle_body_data :
    String → Option HandlingResult → Exec World (Option HandlingResult)
settle_body_data name none w = (err attribute_error, w)
settle_body_data name (some r) w = elim r.state [
  | HandlingState.analyse ↦ (ok (some (analysed r)), write debug could_not_handle name w)
  | _ ↦ (ok (some r), w)
]

-- `__handle_body_data`
unfoldable pub guard_body_data : String → Handler Value → Handler Value
guard_body_data name handle_body_data value w =
    let (answer, w') = handle_body_data value w in
    elim answer [
      | err e ↦ (ok (some (result HandlingState.error)), log_parse_failure name w')
      | ok response ↦ settle_body_data name response w'
    ]

-- `MessageBodyData._handle_body`
unfoldable pub handle_in_body_data : String → Handler Value → Handler Value
handle_in_body_data name handle_body_data body = do
  present ← lift (has body "data")
  if present then lift (item body "data") >>= guard_body_data name handle_body_data else pure none

-- `_handle_body_data` of `MessageBodyDataDict` and of `MessageBodyDataList`
abbrev pub only_dict : Handler Value → Handler Value
only_dict handle value = if is_dict value then handle value else pure none

abbrev pub only_list : Handler Value → Handler Value
only_list handle value = if is_list value then handle value else pure none

-- The classes of messages, from the method that a subclass of each base class defines.
abbrev pub message_body : String → Handler Value → Message
message_body name h = record { name = name; handle_dict = handle_in_body name h }

abbrev pub message_body_data : String → Handler Value → Message
message_body_data name h = message_body name (handle_in_body_data name h)

abbrev pub message_body_data_dict : String → Handler Value → Message
message_body_data_dict name h = message_body_data name (only_dict h)

abbrev pub message_body_data_list : String → Handler Value → Message
message_body_data_list name h = message_body_data name (only_list h)

-- The firmware version in the header, which every message carries.
unfoldable pub firmware_version : Value → Result Value
firmware_version message = elim (get_or message "header" (dict end)) [
  | err e ↦ err e
  | ok header ↦ get_or header "fwVer" null
]

abbrev pub notify_firmware : Value → World → World
notify_firmware version w = if truthy version then notify (firmware version) w else w

-- The rest of `MessageDictOrJson._handle` for a payload that was decoded.
unfoldable pub handle_decoded : Message → Handler Value
handle_decoded m value =
    if is_dict value
    then (lift (firmware_version value) >>= λ version w.
        wrapped m.name m.handle_dict value (notify_firmware version w))
    else pure none

-- `orjson.loads`
module _ (loads : Payload → Result Value) where
  -- `MessageDictOrJson._handle`; a payload that is no dict and cannot be decoded stays what it was.
  unfoldable pub handle_dict_or_json : Message → Handler Payload
  handle_dict_or_json m (object fs) = handle_decoded m (dict fs)
  handle_dict_or_json m payload = elim (loads payload) [
    | ok value ↦ handle_decoded m value
    | err e ↦ λ w. (ok none, write debug could_not_decode m.name w)
  ]

  -- `Message.handle`
  unfoldable pub handle : Message → Payload → World → HandlingResult × World
  handle m = wrapper m.name (handle_dict_or_json m)
