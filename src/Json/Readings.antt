-- ===== src/Json/Readings.antt =====
-- The classes that read one value of the data and tell the bus of it: battery, volume, counts,
-- modes, switches, statistics and positions.
use client_py.Prelude.{
  String, false, not, Option, none, some, List, [], ◌∷◌, ◌++◌, ℤ, pos, int_eq, any, is_empty, Error,
  value_error, Result, ok, err, if◌then◌else◌,
}
use client_py.Prelude.Results.{◌>>=◌}
use client_py.Value.{
  Value, Items, nil, cons, boolean, int, list, dict, get, get_or, item, is_text, is_int, to_int,
  truthy,
}
use client_py.Models.{PositionType, deebot, charger}
use client_py.Events.{
  Event, Position, battery, volume, clean_count, cut_direction, efficiency_mode, fan_speed,
  work_mode, enable, mop_auto_wash_frequency, ota, stats, total_stats, positions, auto_empty,
  map_info, minor_map,
}
use client_py.Events.Class.{EventClass}
use client_py.Message.Body.{Message, message_body_data_dict}
use client_py.Json.Conclude.{conclude}

-- One event and success.
abbrev pub one : Result Event → Result (Option (List Event))
one r = r >>= λ e. ok (some (e ∷ []))

abbrev pub reading : String → (Value → Result Event) → Message
reading name read = message_body_data_dict name (λ value. conclude (one (read value)))

-- `E(n)` for an `IntEnum` with these values
unfoldable pub member : List ℤ → ℤ → Result ℤ
member values n = if any (int_eq n) values then ok n else err value_error

-- `E(int(data[key]))`
unfoldable pub int_member : List ℤ → String → Value → Result ℤ
int_member values key value = do v ← item value key; n ← to_int v; member values n

-- `OnBattery` and `GetBattery`
unfoldable pub read_battery : Value → Result Event
read_battery value = item value "value" >>= λ v. ok (battery v)

-- `GetVolume`
unfoldable pub read_volume : Value → Result Event
read_volume value = do v ← item value "volume"; maximum ← get value "total"; ok (volume v maximum)

-- `GetCleanCount`
unfoldable pub read_clean_count : Value → Result Event
read_clean_count value = item value "count" >>= λ v. ok (clean_count v)

-- `GetCutDirection`
unfoldable pub read_cut_direction : Value → Result Event
read_cut_direction value = item value "angle" >>= λ v. ok (cut_direction v)

-- `GetEfficiencyMode`, with the values of `EfficiencyMode`
unfoldable pub read_efficiency : Value → Result Event
read_efficiency value =
    int_member (pos 0 ∷ pos 1 ∷ []) "efficiency" value >>= λ n. ok (efficiency_mode n)

-- `GetFanSpeed`, with the values of `FanSpeedLevel`
unfoldable pub read_fan_speed : Value → Result Event
read_fan_speed value =
    int_member (pos 1000 ∷ pos 0 ∷ pos 1 ∷ pos 2 ∷ []) "speed" value >>= λ n. ok (fan_speed n)

-- `GetWorkMode`, with the values of `WorkMode`
unfoldable pub read_work_mode : Value → Result Event
read_work_mode value =
    int_member (pos 0 ∷ pos 1 ∷ pos 2 ∷ pos 3 ∷ []) "mode" value >>= λ n. ok (work_mode n)

-- `GetMopAutoWashFrequency`
unfoldable pub read_wash_frequency : Value → Result Event
read_wash_frequency value = do
  v ← item value "interval"
  n ← to_int v
  ok (mop_auto_wash_frequency n)

-- `GetEnableCommand`: the class of the event and the field that a subclass names.
unfoldable pub read_enable : EventClass → String → Value → Result Event
read_enable c field value = item value field >>= λ v. ok (enable c (truthy v))

-- `GetOta`
unfoldable pub read_ota : Value → Result Event
read_ota value = do
  support ← get_or value "supportAuto" (boolean false)
  auto ← get_or value "autoSwitch" (boolean false)
  version ← item value "ver"
  status ← item value "status"
  progress ← item value "progress"
  ok (ota (truthy support) (boolean (truthy auto)) version status progress)

-- `GetStats`
unfoldable pub read_stats : Value → Result Event
read_stats value = do
  area ← get value "area"
  time ← get value "time"
  kind ← get value "type"
  ok (stats area time kind)

-- `OnStats`
unfoldable pub read_on_stats : Value → Result Event
read_on_stats value = do
  area ← item value "area"
  time ← item value "time"
  kind ← get value "type"
  ok (stats area time kind)

-- `GetTotalStats`
unfoldable pub read_total_stats : Value → Result Event
read_total_stats value = do
  area ← item value "area"
  time ← item value "time"
  count ← item value "count"
  ok (total_stats area time count)

-- `OnAutoEmpty`, with the values of `Frequency`
unfoldable pub frequency_of : Value → Result (Option String)
frequency_of v =
    if not (truthy v)
    then ok none
    else if is_text v "10"
    then ok (some "10")
    else if is_text v "15"
    then ok (some "15")
    else if is_text v "25"
    then ok (some "25")
    else if is_text v "auto"
    then ok (some "auto")
    else if is_text v "smart"
    then ok (some "smart")
    else err value_error

unfoldable pub read_auto_empty : Value → Result Event
read_auto_empty value = do
  v ← get value "frequency"
  frequency ← frequency_of v
  enabled ← item value "enable"
  ok (auto_empty (truthy enabled) frequency)

-- A position of `GetPos`; an entry that is marked invalid is skipped.
unfoldable pub read_position : PositionType → Value → Result (List Position)
read_position kind entry = do
  invalid ← get_or entry "invalid" (int (pos 0))
  if is_int invalid (pos 0)
      then (item entry "x" >>= λ x. item entry "y" >>= λ y. get_or entry "a" (int (pos 0)) >>= λ a.
          ok ((record { type = kind; x = x; y = y; a = a }) ∷ []))
      else ok []

unfoldable pub read_positions : PositionType → Items → Result (List Position)
read_positions kind nil = ok []
read_positions kind (cons v vs) =
    let rest = read_positions kind vs in read_position kind v >>= λ ps. rest >>= λ qs. ok (ps ++ qs)

-- `GetMinorMap`; a message without a type counts as one of the outline.
unfoldable pub read_minor_map : Value → Result (Option (List Event))
read_minor_map value = do
  kind ← get_or value "type" (Value.text "ol")
  if is_text kind "ol"
      then (item value "pieceIndex" >>= λ index.
          item value "pieceValue" >>= λ piece. ok (some (minor_map index piece ∷ [])))
      else ok none

-- `OnMapInfoV2`
unfoldable pub read_map_info : Value → Result (Option (List Event))
read_map_info value = do
  version ← get value "outlineVer"
  if is_text version "0"
      then ok (some [])
      else if is_text version "1"
      then (item value "mid" >>= λ id.
          item value "info" >>= λ info. ok (some (map_info id info ∷ [])))
      else ok none

-- What a loop over `data.get(key, [])` goes through, where a dict counts as one entry; a text's
-- characters are no dicts.
unfoldable pub entries_of : Value → String → Result Items
entries_of value key = do
  found ← get_or value key (list nil)
  elim found [
    | list vs ↦ ok vs
    | dict fs ↦ ok (cons (dict fs) nil)
    | Value.text s ↦ if truthy (Value.text s) then err Error.attribute_error else ok nil
    | _ ↦ err Error.type_error
  ]

-- `GetPos`
unfoldable pub read_pos : Value → Result (Option (List Event))
read_pos value = do
  robots ← entries_of value "deebotPos"
  robot_positions ← read_positions deebot robots
  stations ← entries_of value "chargePos"
  station_positions ← read_positions charger stations
  let all_positions = robot_positions ++ station_positions
  ok (if is_empty all_positions then none else some (positions all_positions ∷ []))
