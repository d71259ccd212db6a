-- ===== src/Json/MapSets.antt =====
-- The sets of the map and their subsets: `GetMapSet` and `GetMapSubSet` of commands/json/map.
use client_py.Prelude.{
  ℕ, String, Bool, true, false, not, ◌&&◌, Option, none, some, List, [], ◌∷◌, map, ℤ, pos, negsuc,
  type_error, value_error, attribute_error, Result, ok, err, Exec, str_eq, if◌then◌else◌,
}
use client_py.Prelude.Results.{◌>>=◌}
use client_py.Value.{
  Value, Items, nil, cons, Fields, end, field, int, text, list, dict, get, get_or, item, is_text,
  is_int, to_int, truthy, is_none,
}
use client_py.Util.Text.{strip}
use client_py.Models.{MapSetType, rooms, map_set_of, map_set_value}
use client_py.Events.{Event, map_set, map_subset, items}
use client_py.Command.Base.{Command}
use client_py.Message.World.{World, HandlingResult}
use client_py.Message.Body.{Message, message_body_data_dict}
use client_py.Json.Conclude.{conclude, conclude_with, and_request}
use client_py.Json.Station.{hashable}

-- `MapSetType(v)`, where it has the value
unfoldable pub set_type : Value → Result (Option MapSetType)
set_type v = elim (hashable v) [ err e ↦ err e | ok (text s) ↦ ok (map_set_of s) | ok _ ↦ ok none ]

-- `[int(subset["mssid"]) for subset in subsets]`
unfoldable pub subset_ids : Items → Result (List ℤ)
subset_ids nil = ok []
subset_ids (cons subset subsets) = do
  id ← item subset "mssid" >>= to_int
  ids ← subset_ids subsets
  ok (id ∷ ids)

-- `_get_handling_success_with_subset_command_args`
unfoldable pub set_args : Value → List ℤ → Result Fields
set_args value ids = do
  mid ← item value "mid"
  set_id ← get value "msid"
  type ← item value "type"
  ok (
      field "id" mid (
        field "set_id" set_id
          (field "type" type (field "subsets" (list (items (map int ids))) end))))

-- `_handle_subsets`
unfoldable pub handle_subsets : MapSetType → Value → Items → Result (Option (List Event × Fields))
handle_subsets type value subsets = do
  ids ← subset_ids subsets
  mid ← item value "mid"
  fs ← set_args value ids
  ok (some (map_set type ids mid ∷ [], fs))

-- The subsets of the data; an entry of anything but a list has no text as an index.
abbrev with_subsets : MapSetType → Value → Value → Result (Option (List Event × Fields))
with_subsets type value (list subsets) = handle_subsets type value subsets
with_subsets type value _ = err type_error

-- `GetMapSet._handle_body_data_dict`
unfoldable pub read_map_set : Value → Result (Option (List Event × Fields))
read_map_set value = item value "type" >>= λ t. set_type t >>= λ found. elim found [
  | none ↦ ok none
  | some type ↦ get value "subsets" >>= λ subsets.
      if truthy subsets then with_subsets type value subsets else ok none
]

abbrev pub get_map_set : Message
get_map_set = message_body_data_dict "getMapSet" (λ value. conclude_with (read_map_set value))

-- `GetMapSubSet(mid=…, msid=…, type=…, mssid=…)`, with the texts of the values
unfoldable pub get_map_sub_set : (Value → String) → Value → Value → Value → Value → Result Command
get_map_sub_set text_of mid msid type mssid =
    if is_none msid && is_text type (map_set_value rooms)
    then err value_error
    else ok (record {
      name = "getMapSubSet";
      args = dict (
          field "mid" (text (text_of mid)) (
            field "msid" (text (text_of msid))
              (field "type" type (field "mssid" (text (text_of mssid)) end))));
    })

unfoldable pub sub_set_commands :
    (Value → String) → Value → Value → Value → Items → Result (List Command)
sub_set_commands text_of mid msid type nil = ok []
sub_set_commands text_of mid msid type (cons mssid subsets) = do
  command ← get_map_sub_set text_of mid msid type mssid
  commands ← sub_set_commands text_of mid msid type subsets
  ok (command ∷ commands)

abbrev as_items : Value → Items
as_items (list vs) = vs
as_items _ = nil

-- The commands that `GetMapSet._handle_response` requests
unfoldable pub set_commands : (Value → String) → Fields → Result (List Command)
set_commands text_of fs = do
  mid ← item (dict fs) "id"
  msid ← item (dict fs) "set_id"
  type ← item (dict fs) "type"
  subsets ← item (dict fs) "subsets"
  sub_set_commands text_of mid msid type (as_items subsets)

abbrev pub handle_set_response :
    (Value → String) → Exec World HandlingResult → Exec World HandlingResult
handle_set_response text_of = and_request (set_commands text_of)

-- `_ROOM_NUM_TO_NAME`
abbrev room_names : List String
room_names =
    "Default" ∷ "Living Room" ∷ "Dining Room" ∷ "Bedroom" ∷ "Study" ∷ "Kitchen" ∷ "Bathroom"
    ∷ "Laundry" ∷ "Lounge" ∷ "Storeroom" ∷ "Kids room" ∷ "Sunroom" ∷ "Corridor" ∷ "Balcony" ∷ "Gym"
    ∷ []

abbrev nth_name : List String → ℕ → Option String
nth_name [] n = none
nth_name (s ∷ names) ℕ.zero = some s
nth_name (s ∷ names) (ℕ.suc n) = nth_name names n

unfoldable pub room_name : ℤ → Option String
room_name (pos n) = nth_name room_names n
room_name (negsuc n) = none

-- The name that the number of a kind of room stands for; none is `HandlingResult.analyse()`.
abbrev name_or_stop : Result ℤ → Result (Option (Option String))
name_or_stop (ok n) = ok (some (room_name n))
name_or_stop (err value_error) = ok none
name_or_stop (err e) = err e

-- `data.get("name", "").strip()`
abbrev stripped : Value → Result String
stripped (text s) = ok (strip s)
stripped _ = err attribute_error

unfoldable pub subset_name : Value → Result (Option (Option String))
subset_name value = do
  name ← get_or value "name" (text "") >>= stripped
  other ← get value "subType"
  subtype ← get_or value "subtype" other
  if str_eq name "" && truthy subtype then name_or_stop (to_int subtype) else ok (some (some name))

abbrev has_name : Option String → Bool
has_name none = false
has_name (some s) = not (str_eq s "")

abbrev pub is_room_set : MapSetType → Bool
is_room_set rooms = true
is_room_set _ = false

-- The coordinates; `decompress` is that of a base64 text to a text.
unfoldable pub coordinates_of : (Value → Result Value) → Value → Result Value
coordinates_of decompress value = do
  compress ← get_or value "compress" (int (pos 0))
  coordinates ← item value "value"
  if is_int compress (pos 1) then decompress coordinates else ok coordinates

unfoldable pub subset_event :
    (Value → Result Value) → MapSetType → Option String → Value → Result (Option (List Event))
subset_event decompress type name value =
    if is_room_set type && not (has_name name)
    then ok none
    else coordinates_of decompress value >>= λ coordinates.
        item value "mssid" >>= to_int >>= λ id. ok (some (map_subset id type coordinates name ∷ []))

-- `GetMapSubSet._handle_body_data_dict`
unfoldable pub read_map_sub_set : (Value → Result Value) → Value → Result (Option (List Event))
read_map_sub_set decompress value = item value "type" >>= λ t. set_type t >>= λ found. elim found [
  | none ↦ ok none
  | some type ↦ subset_name value >>= λ named. elim named [
    | none ↦ ok none
    | some name ↦ subset_event decompress type name value
  ]
]

abbrev pub get_map_sub_set_message : (Value → Result Value) → Message
get_map_sub_set_message decompress =
    message_body_data_dict "getMapSubSet" (λ value. conclude (read_map_sub_set decompress value))
