-- ===== src/Map/Handlers.antt =====
-- The callbacks of `Map` and `MapRoomHandling` in map.py.
use client_py.Prelude.{
  ℕ, suc, String, Bool, false, ◌&&◌, not, Option, none, some, List, [], ◌∷◌, ℤ, pos, int_eq,
  attribute_error, Result, ok, err, Exec, nat_eq, str_eq, any, length, int_keys, if◌then◌else◌,
}
use client_py.Dict.{Dict}
use client_py.Dict
use client_py.Value.{Value, text, value_eq}
use client_py.Models.{MapSetType, rooms, map_set_value, Room}
use client_py.Events.{Event, MapInfo, Position, event_eq, room_value}
use client_py.Events
use client_py.EventBus.Notify
use client_py.Util.Text.{strip}
use client_py.Map.Data.{
  Subset, subset_event, Drawing, MapState, put_subset, pop_subset, put_room, pop_room,
  set_rotation_angle, add_trace_points, clear_trace_points, redrawn,
}

abbrev pub type_eq : MapSetType → MapSetType → Bool
type_eq a b = str_eq (map_set_value a) (map_set_value b)

abbrev pub is_rooms : MapSetType → Bool
is_rooms type = type_eq type rooms

-- `id in subsets`
abbrev pub listed : ℤ → List ℤ → Bool
listed id ids = any (int_eq id) ids

abbrev pub same_subset : Option Subset → Subset → Bool
same_subset none s = false
same_subset (some t) s = event_eq (subset_event t) (subset_event s)

abbrev pub same_room : Option Room → Room → Bool
same_room none r = false
same_room (some q) r = value_eq (room_value q) (room_value r)

-- `not event.name`
abbrev pub name_of : Option String → Option String
name_of none = none
name_of (some name) = if str_eq name "" then none else some name

-- `on_cached_info`: the angle of the first map that is used
unfoldable pub used_angle : List MapInfo → Option ℕ
used_angle [] = none
used_angle (m ∷ maps) = let rest = used_angle maps in if m.using then some m.angle else rest

abbrev with_index : Bool → ℕ → Result (List ℕ) → Result (List ℕ)
with_index update index (err e) = err e
with_index update index (ok indexes) = ok (if update then index ∷ indexes else indexes)

abbrev only_if : Bool → Result (List ℕ) → Result (List ℕ)
only_if requested (err e) = err e
only_if requested (ok indexes) = ok (if requested then indexes else [])

module _ {D : Type 0} where
  -- The loop of `on_map_set` over a copy of the subsets
  unfoldable pub prune_subsets : MapSetType → List ℤ → Dict ℤ Subset → MapState D → MapState D
  prune_subsets type ids [] s = s
  prune_subsets type ids ((id, subset) ∷ subsets) s =
      prune_subsets type ids subsets
        (if type_eq subset.type type && not (listed id ids) then pop_subset id s else s)

  -- `on_map_set` of `Map`
  unfoldable pub on_map_set : MapSetType → List ℤ → MapState D → MapState D
  on_map_set type ids s =
      if is_rooms type then s else prune_subsets type ids s.map_data.map_subsets s

  -- `on_map_subset` of `Map`
  unfoldable pub on_map_subset : Subset → MapState D → MapState D
  on_map_subset subset s =
      if is_rooms subset.type
      then s
      else if same_subset (Dict.get subset.id s.map_data.map_subsets) subset
      then s
      else put_subset subset s

  unfoldable pub prune_rooms : List ℤ → List ℤ → MapState D → MapState D
  prune_rooms ids [] s = s
  prune_rooms ids (id ∷ known) s =
      prune_rooms ids known (if listed id ids then s else pop_room id s)

  -- `on_map_set` of `MapRoomHandling`
  unfoldable pub rooms_on_map_set : MapSetType → List ℤ → Value → MapState D → MapState D
  rooms_on_map_set type ids map_id s =
      if is_rooms type
      then prune_rooms ids (Dict.keys s.map_data.rooms)
          (record s { map_data = record s.map_data { map_id = map_id; amount_rooms = length ids } })
      else s

  -- The rooms are told once as many are known as were announced.
  unfoldable pub tell_rooms : MapState D → MapState D
  tell_rooms s =
      if nat_eq (length s.map_data.rooms) s.map_data.amount_rooms
      then record s {
        bus = Notify.notify (Events.rooms s.map_data.map_id (Dict.values s.map_data.rooms)) 0 s.bus;
      }
      else s

  unfoldable pub take_room : Room → MapState D → MapState D
  take_room room s =
      if same_room (Dict.get room.id s.map_data.rooms) room then s else tell_rooms (put_room room s)

  -- `on_map_subset` of `MapRoomHandling`
  unfoldable pub rooms_on_map_subset : Subset → MapState D → MapState D
  rooms_on_map_subset subset s =
      if is_rooms subset.type
      then elim (name_of subset.name) [
        | none ↦ s
        | some name ↦
            take_room (record { name = name; id = subset.id; coordinates = subset.coordinates }) s
      ]
      else s

  unfoldable pub on_cached_info : List MapInfo → MapState D → MapState D
  on_cached_info maps s = elim (used_angle maps) [
    | none ↦ s
    | some angle ↦ set_rotation_angle angle s
  ]

  module _ (rust : Drawing D) where
    -- `on_major_map`: the test of a checksum may change the piece. The indexes of the pieces that are
    -- requested come back; if a test raises, the task group cancels the requests.
    unfoldable pub pieces_from : ℕ → List ℤ → D → Result (List ℕ) × D
    pieces_from index [] drawing = (ok [], drawing)
    pieces_from index (value ∷ values) drawing =
        elim (rust.map_piece_crc32_indicates_update index value drawing) [
          | err e ↦ (err e, drawing)
          | ok (update, drawing') ↦
              let (rest, last) = pieces_from (suc index) values drawing' in
              (with_index update index rest, last)
        ]

    unfoldable pub on_major_map : List ℤ → Bool → Exec (MapState D) (List ℕ)
    on_major_map values requested s =
        let (indexes, drawing) = pieces_from 0 values s.map_data.drawing in
        (only_if requested indexes, redrawn s drawing)

    unfoldable pub add_if_any : String → Exec (MapState D) Unit
    add_if_any points s =
        if str_eq points "" then (ok tt, s) else add_trace_points rust (text points) s

    -- `on_map_trace`; only a text has `strip`.
    unfoldable pub on_map_trace : ℤ → Value → Exec (MapState D) Unit
    on_map_trace start points s =
        let s1 = if int_eq start (pos 0) then clear_trace_points rust s else s in
        elim points [ text t ↦ add_if_any (strip t) s1 | _ ↦ (err attribute_error, s1) ]
