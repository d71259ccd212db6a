-- ===== src/Command/P2p.antt =====
-- `CommandMqttP2P._create_from_mqtt` and `SetCommand._handle_mqtt_p2p`: commands that the app sends
-- to the device over MQTT, and that the client sees.
use client_py.Prelude.{
  String, Bool, true, false, Option, none, some, List, [], ◌∷◌, str_eq, text_keys, Error, key_error,
  value_error, deebot_error, Result, ok, err, Exec, if◌then◌else◌,
}
use client_py.Value.{Value, Fields, end, field, find, is_dict}
use client_py.Command.Base.{Command}
use client_py.Message.World.{World, HandlingState, HandlingResult, Handler}
use client_py.Message.Body.{Payload}

-- `InitParam`; `type_` is called on the value.
pub record InitParam : Type 0 where
  pub type : Value → Result Value
  pub rename : Option String
  pub optional : Bool

-- `_mqtt_params`
abbrev pub Params : Type 0
Params = List (String × Option InitParam)

-- `data.pop(name, None)`
unfoldable pub pop_field : String → Fields → Fields
pop_field k end = end
pop_field k (field j v fs) =
    let rest = pop_field k fs in if str_eq j k then rest else field j v rest

-- `values[name] = v`
unfoldable pub set_field : String → Value → Fields → Fields
set_field k v end = field k v end
set_field k v (field j w fs) = if str_eq j k then field j v fs else field j w (set_field k v fs)

abbrev pub as_deebot_error : Error → Error
as_deebot_error value_error = deebot_error
as_deebot_error e = e

-- `_pop_or_raise`: a value that cannot be converted is refused.
unfoldable pub pop_or_raise : String → (Value → Result Value) → Fields → Result Value × Fields
pop_or_raise name type fs = elim (find name fs) [
  | none ↦ (err key_error, fs)
  | some v ↦ elim (type v) [
    | ok u ↦ (ok u, pop_field name fs)
    | err e ↦ (err (as_deebot_error e), pop_field name fs)
  ]
]

abbrev pub name_or : String → Option String → String
name_or name none = name
name_or name (some other) = other

abbrev pub is_key_error : Error → Bool
is_key_error key_error = true
is_key_error _ = false

-- The loop over `_mqtt_params`: the arguments for the class, and the data that is ignored.
unfoldable pub create_values : Params → Fields → Fields → Result (Fields × Fields)
create_values [] fs values = ok (values, fs)
create_values ((name, none) ∷ ps) fs values = create_values ps (pop_field name fs) values
create_values ((name, some p) ∷ ps) fs values =
    let (popped, left) = pop_or_raise name p.type fs in
    let skipped = create_values ps left values in
    elim popped [
      | ok v ↦ create_values ps left (set_field (name_or name p.rename) v values)
      | err e ↦ if is_key_error e then (if p.optional then skipped else err deebot_error) else err e
    ]

-- `_create_from_mqtt`; the class is called with the arguments.
unfoldable pub create_from_mqtt : Params → (Fields → Result Command) → Fields → Result Command
create_from_mqtt ps cls fs = elim (create_values ps fs end) [
  | ok (values, ignored) ↦ cls values
  | err e ↦ err e
]

-- A set command: what `handle` of its class is, its arguments, and `handle_set_args` of the linked
-- get command.
pub record SetCommand : Type 0 where
  pub handle : Payload → World → HandlingResult × World
  pub args : Value
  pub handle_set_args : Handler Value

abbrev is_success : HandlingState → Bool
is_success HandlingState.success = true
is_success _ = false

-- `SetCommand._handle_mqtt_p2p`
unfoldable pub handle_mqtt_p2p : SetCommand → Payload → Exec World (Option HandlingResult)
handle_mqtt_p2p c response w =
    let (r, w') = c.handle response w in
    if is_success r.state
    then (if is_dict c.args then c.handle_set_args c.args w' else (ok none, w'))
    else (ok none, w')
