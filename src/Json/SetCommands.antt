-- ===== src/Json/SetCommands.antt =====
-- The set commands of commands/json that have one parameter: `_mqtt_params` and `__init__`.
use client_py.Prelude.{
  String, false, Option, none, some, List, [], ◌∷◌, ℤ, pos, value_error, type_error, Result, ok,
  err, text_keys, if◌then◌else◌,
}
use client_py.Value.{Value, Fields, int, boolean, dict, field, end, find, is_int, to_int, truthy}
use client_py.Command.Base.{Command}
use client_py.Command.P2p.{InitParam, Params, create_from_mqtt}

-- `int(value)`
abbrev pub int_type : Value → Result Value
int_type v = elim (to_int v) [ ok n ↦ ok (int n) | err e ↦ err e ]

-- `bool(value)`
abbrev pub bool_type : Value → Result Value
bool_type v = ok (boolean (truthy v))

-- `E(value)` for an `IntEnum` with these values
unfoldable pub enum_type : List ℤ → Value → Result Value
enum_type [] v = err value_error
enum_type (n ∷ ns) v = let rest = enum_type ns v in if is_int v n then ok (int n) else rest

abbrev pub required : String → (Value → Result Value) → String × Option InitParam
required name type = (name, some (record { type = type; rename = none; optional = false }))

-- `__init__` with one argument, which is the value of the field of the same name
unfoldable pub init_one : String → String → Fields → Result Command
init_one name key values = elim (find key values) [
  | none ↦ err type_error
  | some v ↦ ok (record { name = name; args = dict (field key v end) })
]

-- `SetEnableCommand`
abbrev pub enable_params : String → Params
enable_params key =
    (key, some (record { type = bool_type; rename = some "enable"; optional = false })) ∷ []

unfoldable pub init_enable : String → String → Fields → Result Command
init_enable name key values = elim (find "enable" values) [
  | none ↦ err type_error
  | some v ↦ ok (record {
    name = name;
    args = dict (field key (int (if truthy v then pos 1 else pos 0)) end);
  })
]

unfoldable pub set_volume : Fields → Result Command
set_volume =
    create_from_mqtt (required "volume" int_type ∷ ("total", none) ∷ [])
      (init_one "setVolume" "volume")

unfoldable pub set_clean_count : Fields → Result Command
set_clean_count =
    create_from_mqtt (required "count" int_type ∷ []) (init_one "setCleanCount" "count")

unfoldable pub set_cut_direction : Fields → Result Command
set_cut_direction =
    create_from_mqtt (required "angle" int_type ∷ []) (init_one "setCutDirection" "angle")

unfoldable pub set_wash_frequency : Fields → Result Command
set_wash_frequency =
    create_from_mqtt (required "interval" int_type ∷ []) (init_one "setWashInfo" "interval")

unfoldable pub set_efficiency : Fields → Result Command
set_efficiency =
    create_from_mqtt (required "efficiency" (enum_type (pos 0 ∷ pos 1 ∷ [])) ∷ [])
      (init_one "setEfficiency" "efficiency")

unfoldable pub set_fan_speed : Fields → Result Command
set_fan_speed =
    create_from_mqtt (required "speed" (enum_type (pos 1000 ∷ pos 0 ∷ pos 1 ∷ pos 2 ∷ [])) ∷ [])
      (init_one "setSpeed" "speed")

unfoldable pub set_work_mode : Fields → Result Command
set_work_mode =
    create_from_mqtt (required "mode" (enum_type (pos 0 ∷ pos 1 ∷ pos 2 ∷ pos 3 ∷ [])) ∷ [])
      (init_one "setWorkMode" "mode")

-- A subclass of `SetEnableCommand`, by its name and its field.
unfoldable pub set_enable : String → String → Fields → Result Command
set_enable name key = create_from_mqtt (enable_params key) (init_enable name key)
