-- ===== src/Map/Current.antt =====
-- The image that is kept is current after each callback.
use client_py.Prelude.{
  ℕ, ◌≡◌, refl, ◌∙◌, length, attribute_error, String, Bool, true, false, ◌&&◌, not, none, some,
  List, [], ◌∷◌, ℤ, pos, int_eq, Result, ok, err, str_eq, arith, int_keys, if◌then◌else◌,
}
use client_py.Dict.{Dict}
use client_py.Dict
use client_py.Value.{Value, text}
use client_py.Models.{MapSetType, Room}
use client_py.Events.{MapInfo, Position}
use client_py.Util.Text.{strip}
use client_py.Map.Data.{
  Subset, Drawing, MapState, on_change, put_subset, pop_subset, put_room, pop_room,
  set_rotation_angle, with_drawing, with_piece, add_trace_points, clear_trace_points,
  update_map_piece, generate_svg, redrawn,
}
use client_py.Map.Handlers.{
  type_eq, is_rooms, listed, same_subset, same_room, name_of, prune_subsets, on_map_set,
  on_map_subset, prune_rooms, rooms_on_map_set, tell_rooms, take_room, rooms_on_map_subset,
  used_angle, on_cached_info, add_if_any, on_map_trace,
}

module _ {D : Type 0} (rust : Drawing D) where
  -- A piece that is not updated leaves the drawing as it was.
  abbrev pub IsQuiet : Type 0
  IsQuiet =
      (index piece : Value) (d d' : D)
      → rust.update_map_piece index piece d ≡ ok (false, d')
      → (subsets : List Subset) (positions : List Position) (rotation : ℕ)
      → rust.generate_svg subsets positions rotation d'
        ≡ rust.generate_svg subsets positions rotation d

  -- The image that is kept is that of the data, unless the data is marked as changed.
  abbrev pub IsCurrent : MapState D → Type 0
  IsCurrent s =
      (image : String)
      → s.map_data.changed ≡ false
      → s.last_image ≡ some image
      → generate_svg rust s.map_data ≡ ok (some image)

  abbrev IsMarked : MapState D → Type 0
  IsMarked s = s.map_data.changed ≡ true

  IsMarked-IsCurrent : (s : MapState D) → IsMarked s → IsCurrent s
  IsMarked-IsCurrent s m image unchanged kept = absurd (ground (arith, m, unchanged))

  pub on_change-IsCurrent : (s : MapState D) → IsCurrent (on_change s)
  unfolding on_change
  on_change-IsCurrent s = IsMarked-IsCurrent (on_change s) refl

  put_subset-IsCurrent : (subset : Subset) (s : MapState D) → IsCurrent (put_subset subset s)
  unfolding put_subset on_change
  put_subset-IsCurrent subset s = IsMarked-IsCurrent (put_subset subset s) refl

  pop_subset-IsCurrent : (id : ℤ) (s : MapState D) → IsCurrent (pop_subset id s)
  unfolding pop_subset on_change
  pop_subset-IsCurrent id s = IsMarked-IsCurrent (pop_subset id s) refl

  put_room-IsCurrent : (room : Room) (s : MapState D) → IsCurrent (put_room room s)
  unfolding put_room on_change
  put_room-IsCurrent room s = IsMarked-IsCurrent (put_room room s) refl

  pop_room-IsCurrent : (id : ℤ) (s : MapState D) → IsCurrent (pop_room id s)
  unfolding pop_room on_change
  pop_room-IsCurrent id s = IsMarked-IsCurrent (pop_room id s) refl

  if-IsCurrent :
      (b : Bool) (s t : MapState D) → IsCurrent s → IsCurrent t → IsCurrent (if b then s else t)
  if-IsCurrent true s t p q = p
  if-IsCurrent false s t p q = q

  prune_subsets-IsCurrent :
      (type : MapSetType) (ids : List ℤ) (subsets : Dict ℤ Subset) (s : MapState D)
      → IsCurrent s
      → IsCurrent (prune_subsets type ids subsets s)
  unfolding prune_subsets
  prune_subsets-IsCurrent type ids [] s c = c
  prune_subsets-IsCurrent type ids ((id, subset) ∷ subsets) s c =
      let b = type_eq subset.type type && not (listed id ids) in
      prune_subsets-IsCurrent type ids subsets (if b then pop_subset id s else s)
        (if-IsCurrent b (pop_subset id s) s (pop_subset-IsCurrent id s) c)

  prune_rooms-IsCurrent :
      (ids known : List ℤ) (s : MapState D) → IsCurrent s → IsCurrent (prune_rooms ids known s)
  unfolding prune_rooms
  prune_rooms-IsCurrent ids [] s c = c
  prune_rooms-IsCurrent ids (id ∷ known) s c =
      prune_rooms-IsCurrent ids known (if listed id ids then s else pop_room id s)
        (if-IsCurrent (listed id ids) s (pop_room id s) c (pop_room-IsCurrent id s))

  tell_rooms-IsCurrent : (s : MapState D) → IsCurrent s → IsCurrent (tell_rooms s)
  unfolding tell_rooms
  tell_rooms-IsCurrent s c = if-IsCurrent _ _ s c c

  pub on_map_set-IsCurrent :
      (type : MapSetType) (ids : List ℤ) (s : MapState D)
      → IsCurrent s
      → IsCurrent (on_map_set type ids s)
  unfolding on_map_set
  on_map_set-IsCurrent type ids s c =
      let pruned = prune_subsets type ids s.map_data.map_subsets s in
      if-IsCurrent (is_rooms type) s pruned c
        (prune_subsets-IsCurrent type ids s.map_data.map_subsets s c)

  pub on_map_subset-IsCurrent :
      (subset : Subset) (s : MapState D) → IsCurrent s → IsCurrent (on_map_subset subset s)
  unfolding on_map_subset
  on_map_subset-IsCurrent subset s c =
      let same = same_subset (Dict.get subset.id s.map_data.map_subsets) subset in
      if-IsCurrent (is_rooms subset.type) s (if same then s else put_subset subset s) c
        (if-IsCurrent same s (put_subset subset s) c (put_subset-IsCurrent subset s))

  pub rooms_on_map_set-IsCurrent :
      (type : MapSetType) (ids : List ℤ) (map_id : Value) (s : MapState D)
      → IsCurrent s
      → IsCurrent (rooms_on_map_set type ids map_id s)
  unfolding rooms_on_map_set generate_svg
  rooms_on_map_set-IsCurrent type ids map_id s c =
      let s1 : MapState D = record s {
        map_data = record s.map_data { map_id = map_id; amount_rooms = length ids };
      } in
      let known = Dict.keys s.map_data.rooms in
      if-IsCurrent (is_rooms type) (prune_rooms ids known s1) s
        (prune_rooms-IsCurrent ids known s1 c) c

  take_room-IsCurrent : (room : Room) (s : MapState D) → IsCurrent s → IsCurrent (take_room room s)
  unfolding take_room
  take_room-IsCurrent room s c =
      if-IsCurrent (same_room (Dict.get room.id s.map_data.rooms) room) s
        (tell_rooms (put_room room s)) c
        (tell_rooms-IsCurrent (put_room room s) (put_room-IsCurrent room s))

  pub rooms_on_map_subset-IsCurrent :
      (subset : Subset) (s : MapState D) → IsCurrent s → IsCurrent (rooms_on_map_subset subset s)
  unfolding rooms_on_map_subset
  rooms_on_map_subset-IsCurrent subset s c =
      let taken = λ (name : String).
        take_room (record { name = name; id = subset.id; coordinates = subset.coordinates }) s in
      elim (is_rooms subset.type)
        as (λ b.
          IsCurrent
            (if b then elim (name_of subset.name) [ none ↦ s | some name ↦ taken name ] else s)) [
              | true ↦
                  elim (name_of subset.name)
                    as (λ o. IsCurrent (elim o [ none ↦ s | some name ↦ taken name ])) [
                      | none ↦ c
                      | some name ↦ take_room-IsCurrent _ s c
                    ]
              | false ↦ c
            ]

  pub with_drawing-IsCurrent :
      (r : Result D) (s : MapState D) → IsCurrent s → IsCurrent (with_drawing r s).1
  unfolding with_drawing
  with_drawing-IsCurrent (err e) s c = c
  with_drawing-IsCurrent (ok drawing) s c = on_change-IsCurrent (redrawn s drawing)

  pub update_map_piece-IsCurrent :
      (index piece : Value) (s : MapState D)
      → IsQuiet
      → IsCurrent s
      → IsCurrent (update_map_piece rust index piece s).1
  unfolding update_map_piece with_piece generate_svg
  update_map_piece-IsCurrent index piece s quiet c =
      elim (rust.update_map_piece index piece s.map_data.drawing)
          as (λ r.
            rust.update_map_piece index piece s.map_data.drawing ≡ r
            → IsCurrent (with_piece rust r s).1) [
              | err e ↦ λ h. c
              | ok (updated, drawing) ↦
                  elim updated
                    as (λ u.
                      rust.update_map_piece index piece s.map_data.drawing ≡ ok (u, drawing)
                      → IsCurrent
                          (if u then on_change (redrawn s drawing) else redrawn s drawing)) [
                            | true ↦ λ h. on_change-IsCurrent (redrawn s drawing)
                            | false ↦ λ h image unchanged kept.
                                quiet index piece s.map_data.drawing drawing h
                                  (Dict.values s.map_data.map_subsets) s.map_data.positions
                                  s.map_data.rotation
                                ∙ c image unchanged kept
                          ]
            ]
        refl

  pub on_cached_info-IsCurrent :
      (maps : List MapInfo) (s : MapState D) → IsCurrent s → IsCurrent (on_cached_info maps s)
  unfolding on_cached_info set_rotation_angle
  on_cached_info-IsCurrent maps s c =
      elim (used_angle maps)
        as (λ o. IsCurrent (elim o [ none ↦ s | some angle ↦ set_rotation_angle angle s ])) [
          | none ↦ c
          | some angle ↦
              on_change-IsCurrent (record s { map_data = record s.map_data { rotation = angle } })
        ]

  add_if_any-IsCurrent :
      (points : String) (s : MapState D) → IsCurrent s → IsCurrent (add_if_any rust points s).1
  unfolding add_if_any add_trace_points
  add_if_any-IsCurrent points s c =
      elim (str_eq points "")
        as (λ b. IsCurrent (if b then (ok tt, s) else add_trace_points rust (text points) s).1) [
          | true ↦ c
          | false ↦
              with_drawing-IsCurrent (rust.add_trace_points (text points) s.map_data.drawing) s c
        ]

  pub on_map_trace-IsCurrent :
      (start : ℤ) (points : Value) (s : MapState D)
      → IsCurrent s
      → IsCurrent (on_map_trace rust start points s).1
  unfolding on_map_trace clear_trace_points
  on_map_trace-IsCurrent start points s c =
      let cleared = clear_trace_points rust s in
      let s1 = if int_eq start (pos 0) then cleared else s in
      let c1 =
        if-IsCurrent (int_eq start (pos 0)) cleared s
          (on_change-IsCurrent (redrawn s (rust.clear_trace_points s.map_data.drawing))) c in
      elim points
        as (λ v.
          IsCurrent
            (elim v as (λ _. Result {0} Unit × MapState D) [
              | text t ↦ add_if_any rust (strip t) s1
              | _ ↦ (err attribute_error, s1)
            ]).1) [ text t ↦ add_if_any-IsCurrent (strip t) s1 c1 | _ ↦ c1 ]
