-- ===== src/Map/Data.antt =====
-- `MapData` and `MapRoomHandling` of map.py, with the bus that they notify. The drawing, in Rust, is
-- an argument.
use client_py.Prelude.{
  ℕ, String, Bool, true, false, Option, List, ℤ, Result, ok, err, Exec, int_keys, if◌then◌else◌,
}
use client_py.Dict.{Dict}
use client_py.Dict
use client_py.Value.{Value}
use client_py.Models.{MapSetType, Room}
use client_py.Events.{Event, Position, map_changed, map_subset}
use client_py.EventBus.State.{EventBus}
use client_py.EventBus.Notify

-- The fields of a `MapSubsetEvent`
pub record Subset : Type 0 where
  pub id : ℤ
  pub type : MapSetType
  pub coordinates : Value
  pub name : Option String

abbrev pub subset_event : Subset → Event
subset_event s = map_subset s.id s.type s.coordinates s.name

-- `MapData` of the Rust module, over its type: each method may raise, and then changes nothing.
pub record Drawing (D : Type 0) : Type 0 where
  pub add_trace_points : Value → D → Result D
  pub clear_trace_points : D → D
  pub update_map_piece : Value → Value → D → Result (Bool × D)
  pub map_piece_crc32_indicates_update : ℕ → ℤ → D → Result (Bool × D)
  pub set_map_info : Value → D → Result D
  pub generate_svg : List Subset → List Position → ℕ → D → Result (Option String)

-- `MapData` with its `MapRoomHandling`
pub record MapData (D : Type 0) : Type 0 where
  pub changed : Bool
  pub map_subsets : Dict ℤ Subset
  pub positions : List Position
  pub rotation : ℕ
  pub drawing : D
  pub amount_rooms : ℕ
  pub rooms : Dict ℤ Room
  pub map_id : Value

-- `Map`; the callbacks are subscribed while `enabled`.
pub record MapState (D : Type 0) : Type 0 where
  pub bus : EventBus
  pub map_data : MapData D
  pub last_image : Option String
  pub enabled : Bool

abbrev pub second : ℕ
second = 1000000

module _ {D : Type 0} where
  -- `on_change` of `MapData.__init__`
  unfoldable pub on_change : MapState D → MapState D
  on_change s = record s {
    map_data = record s.map_data { changed = true };
    bus = Notify.notify (map_changed s.bus.now) second s.bus;
  }

  abbrev pub reset_changed : MapData D → MapData D
  reset_changed d = record d { changed = false }

  -- An item of an `OnChangedDict` is set or taken out: `on_change` comes first.
  unfoldable pub put_subset : Subset → MapState D → MapState D
  put_subset subset s =
      let s1 = on_change s in
      record s1 {
        map_data = record s1.map_data {
          map_subsets = Dict.set subset.id subset s1.map_data.map_subsets;
        };
      }

  unfoldable pub pop_subset : ℤ → MapState D → MapState D
  pop_subset id s =
      let s1 = on_change s in
      record s1 {
        map_data = record s1.map_data { map_subsets = Dict.remove id s1.map_data.map_subsets };
      }

  unfoldable pub put_room : Room → MapState D → MapState D
  put_room room s =
      let s1 = on_change s in
      record s1 {
        map_data = record s1.map_data { rooms = Dict.set room.id room s1.map_data.rooms };
      }

  unfoldable pub pop_room : ℤ → MapState D → MapState D
  pop_room id s =
      let s1 = on_change s in
      record s1 { map_data = record s1.map_data { rooms = Dict.remove id s1.map_data.rooms } }

  unfoldable pub update_positions : List Position → MapState D → MapState D
  update_positions positions s =
      on_change (record s { map_data = record s.map_data { positions = positions } })

  unfoldable pub set_rotation_angle : ℕ → MapState D → MapState D
  set_rotation_angle rotation s =
      on_change (record s { map_data = record s.map_data { rotation = rotation } })

  abbrev pub redrawn : MapState D → D → MapState D
  redrawn s drawing = record s { map_data = record s.map_data { drawing = drawing } }

  -- What a method of the drawing returned, and `on_change` after it
  unfoldable pub with_drawing : Result D → Exec (MapState D) Unit
  with_drawing (err e) s = (err e, s)
  with_drawing (ok drawing) s = (ok tt, on_change (redrawn s drawing))

  module _ (rust : Drawing D) where
    unfoldable pub add_trace_points : Value → Exec (MapState D) Unit
    add_trace_points value s = with_drawing (rust.add_trace_points value s.map_data.drawing) s

    unfoldable pub clear_trace_points : MapState D → MapState D
    clear_trace_points s = on_change (redrawn s (rust.clear_trace_points s.map_data.drawing))

    unfoldable pub set_map_info : Value → Exec (MapState D) Unit
    set_map_info info s = with_drawing (rust.set_map_info info s.map_data.drawing) s

    -- What `update_map_piece` of the drawing returned
    unfoldable pub with_piece : Result (Bool × D) → Exec (MapState D) Unit
    with_piece (err e) s = (err e, s)
    with_piece (ok (updated, drawing)) s =
        (ok tt, if updated then on_change (redrawn s drawing) else redrawn s drawing)

    unfoldable pub update_map_piece : Value → Value → Exec (MapState D) Unit
    update_map_piece index piece s =
        with_piece (rust.update_map_piece index piece s.map_data.drawing) s

    unfoldable pub generate_svg : MapData D → Result (Option String)
    generate_svg d = rust.generate_svg (Dict.values d.map_subsets) d.positions d.rotation d.drawing
