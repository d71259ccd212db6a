-- ===== src/Json/MapCached.antt =====
-- The cached maps and the set messages of the map: messages/json/map, `GetCachedMapInfo` of
-- commands/json/map/cached_map_info.py.
use client_py.Prelude.{
  ℕ, Bool, Option, none, some, List, [], ◌∷◌, ◌++◌, map, any, ℤ, pos, negsuc, ltb_ℤ, ◌||◌,
  other_error, int_eq, is_empty, type_error, value_error, Result, ok, err, Exec, if◌then◌else◌,
}
use client_py.Prelude.Results.{◌>>=◌}
use client_py.Value.{
  Value, Items, nil, cons, Fields, end, field, int, boolean, text, list, dict, get, get_or, item,
  is_text, is_int, truthy, value_eq,
}
use client_py.Models.{MapSetType, rooms, virtual_walls, no_mop_zones}
use client_py.Events.{MapInfo, cached_map_info, map_value}
use client_py.Command.Base.{Command}
use client_py.Message.World.{World, HandlingState, HandlingResult, result, notify}
use client_py.Message.Body.{Message, message_body_data_dict}
use client_py.Json.Conclude.{analyse, success_with, and_request}
use client_py.Json.Station.{hashable}
use client_py.Json.MapSets.{set_type}

-- `RotationAngle.from_int` of the Rust module, whose argument has 16 bits, by the degrees
abbrev angle_of : ℤ → Result ℕ
angle_of n =
    if ltb_ℤ n (negsuc 32767) || ltb_ℤ (pos 32767) n
    then err other_error
    else if int_eq n (pos 0)
    then ok 0
    else if int_eq n (pos 90)
    then ok 90
    else if int_eq n (pos 180)
    then ok 180
    else if int_eq n (pos 270)
    then ok 270
    else err value_error

abbrev int_of : Value → Result ℤ
int_of (int n) = ok n
int_of (boolean b) = ok (pos (if b then 1 else 0))
int_of _ = err type_error

-- An entry of the cached maps; none is the map with the id "0". What is put into the set of maps is
-- hashed.
unfoldable pub cached_map : Value → Result (Option MapInfo)
cached_map info = item info "mid" >>= λ map_id. if is_text map_id "0" then ok none else do
  name ← get_or info "name" (text "")
  using ← item info "using"
  built ← item info "built"
  angle ← get_or info "angle" (int (pos 0)) >>= int_of >>= angle_of
  id ← hashable map_id
  hashed ← hashable name
  ok (
      some (record {
        id = id;
        name = hashed;
        using = is_int using (pos 1);
        built = is_int built (pos 1);
        angle = angle;
      }))

abbrev pub same_map : MapInfo → MapInfo → Bool
same_map m n = value_eq (map_value m) (map_value n)

-- `maps.add`
abbrev pub add_map : MapInfo → List MapInfo → List MapInfo
add_map m maps = if any (same_map m) maps then maps else maps ++ m ∷ []

-- The loop, with the maps and the one in use so far
unfoldable pub collect :
    Items → List MapInfo → Option MapInfo → Result (List MapInfo × Option MapInfo)
collect nil maps map_using = ok (maps, map_using)
collect (cons info infos) maps map_using = cached_map info >>= λ found. elim found [
  | none ↦ collect infos maps map_using
  | some m ↦ collect infos (add_map m maps) (if m.using then some m else map_using)
]

-- `HandlingResult(HandlingState.SUCCESS, {"map_id": …})`, or to analyse
abbrev pub used_result : Option MapInfo → Option HandlingResult
used_result none = analyse
used_result (some m) = success_with (field "map_id" m.id end)

abbrev pub tell_maps : List MapInfo → World → World
tell_maps maps w = if is_empty maps then w else notify (cached_map_info maps) w

abbrev pub collected : Value → Result (List MapInfo × Option MapInfo)
collected (list infos) = collect infos [] none
collected _ = err type_error

-- `OnCachedMapInfo._handle_body_data_dict`
unfoldable pub handle_cached_map_info : Value → Exec World (Option HandlingResult)
handle_cached_map_info value w = elim (item value "info" >>= collected) [
  | err e ↦ (err e, w)
  | ok (maps, map_using) ↦ (ok (used_result map_using), tell_maps maps w)
]

abbrev pub on_cached_map_info : Message
on_cached_map_info = message_body_data_dict "onCachedMapInfo" handle_cached_map_info

-- What is used of `CapabilityMap`
pub record MapCapability : Type 0 where
  pub set : Value → MapSetType → Command
  pub info : Option (Value → Command)

abbrev pub set_types : List MapSetType
set_types = rooms ∷ virtual_walls ∷ no_mop_zones ∷ []

abbrev info_commands : Option (Value → Command) → Value → List Command
info_commands none map_id = []
info_commands (some execute) map_id = execute map_id ∷ []

-- The commands that `GetCachedMapInfo._handle_response` requests, where there is a map.
unfoldable pub cached_commands : Option MapCapability → Fields → Result (List Command)
cached_commands none fs = ok []
cached_commands (some c) fs = item (dict fs) "map_id" >>= λ map_id.
    ok (map (c.set map_id) set_types ++ info_commands c.info map_id)

abbrev pub handle_cached_response :
    Option MapCapability → Exec World HandlingResult → Exec World HandlingResult
handle_cached_response c = and_request (cached_commands c)

abbrev set_command : Option MapCapability → Value → MapSetType → List Command
set_command none mid type = []
set_command (some c) mid type = c.set mid type ∷ []

-- `OnMapSetV2._handle_body_data_dict`
unfoldable pub read_map_set_v2 : Option MapCapability → Value → Result HandlingResult
read_map_set_v2 c value = item value "type" >>= λ t. set_type t >>= λ found. elim found [
  | none ↦ ok (result HandlingState.analyse)
  | some type ↦ get value "mid" >>= λ mid.
      if truthy mid
      then ok (record {
        state = HandlingState.success;
        args = none;
        requested_commands = set_command c mid type;
      })
      else ok (result HandlingState.analyse)
]

abbrev as_answer : Result HandlingResult → Result (Option HandlingResult)
as_answer (err e) = err e
as_answer (ok r) = ok (some r)

abbrev pub on_map_set_v2 : Option MapCapability → Message
on_map_set_v2 c =
    message_body_data_dict "onMapSet_V2" (λ value w. (as_answer (read_map_set_v2 c value), w))
