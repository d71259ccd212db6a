-- ===== src/Map/Wiring.antt =====
-- What `Map` subscribes to on the bus, and its methods for the user.
use client_py.Prelude.{
  ℕ, String, Bool, true, false, ◌||◌, Option, none, some, List, [], ◌∷◌, ◌++◌, map_error, Result,
  ok, err, Exec, str_eq, if◌then◌else◌,
}
use client_py.Prelude.Results.{◌>>=◌}
use client_py.Value.{text}
use client_py.Events.Class.{EventClass}
use client_py.EventBus.State.{EventBus, request_refresh, has_subscribers}
use client_py.EventBus.Subscribe.{
  subscribe, unsubscribe, add_on_subscription_callback, remove_on_subscription_callback,
}
use client_py.Map.Data.{Drawing, MapState, reset_changed, generate_svg}

-- The callbacks, as the numbers that the bus knows them by: those of `MapRoomHandling`, of `Map`,
-- and of `_on_first_map_changed_subscription`.
abbrev pub rooms_set_callback : ℕ
rooms_set_callback = 100

abbrev pub rooms_subset_callback : ℕ
rooms_subset_callback = 101

abbrev pub set_callback : ℕ
set_callback = 102

abbrev pub subset_callback : ℕ
subset_callback = 103

abbrev pub first_subscription : ℕ
first_subscription = 104

abbrev pub info_callback : ℕ
info_callback = 105

abbrev pub Subscriptions : Type 0
Subscriptions = List (EventClass × ℕ)

-- `_subscribe_minor_major_map_events`, where the device has the capability
abbrev pub piece_subscriptions : Bool → Subscriptions
piece_subscriptions has_minor =
    if has_minor then (EventClass.major_map, 106) ∷ (EventClass.minor_map, 107) ∷ [] else []

abbrev pub later_subscriptions : Subscriptions
later_subscriptions = (EventClass.positions, 109) ∷ (EventClass.map_trace, 110) ∷ []

unfoldable pub subscribe_all : Subscriptions → EventBus → EventBus
subscribe_all [] b = b
subscribe_all ((c, callback) ∷ subscriptions) b =
    subscribe_all subscriptions (subscribe c callback b)

unfoldable pub unsubscribe_all : Subscriptions → EventBus → Result EventBus
unsubscribe_all [] b = ok b
unsubscribe_all ((c, callback) ∷ subscriptions) b =
    unsubscribe c callback b >>= λ b'. unsubscribe_all subscriptions b'

-- `_on_first_map_changed_subscription`
unfoldable pub on_first_map_changed_subscription : Bool → EventBus → EventBus
on_first_map_changed_subscription has_minor b =
    let b1 = subscribe_all (piece_subscriptions has_minor) b in
    let b2 = subscribe EventClass.cached_map_info 108 b1 in
    let b3 =
      if has_subscribers EventClass.cached_map_info b1
      then request_refresh EventClass.cached_map_info b2
      else b2 in
    subscribe_all later_subscriptions b3

-- `unsub`, the function that it returns
unfoldable pub unsub : Bool → EventBus → Result EventBus
unsub has_minor b =
    unsubscribe_all
      (piece_subscriptions has_minor ++ (EventClass.cached_map_info, 108) ∷ later_subscriptions) b

-- The bus after the functions of `_unsubscribers`, then those of `MapRoomHandling`
unfoldable pub leave_bus : EventBus → Result EventBus
leave_bus b = unsubscribe EventClass.map_set set_callback b >>= λ b1.
    unsubscribe EventClass.map_subset subset_callback b1 >>= λ b2.
    remove_on_subscription_callback EventClass.map_changed first_subscription b2 >>= λ b3.
    unsubscribe EventClass.map_info info_callback b3 >>= λ b4.
    unsubscribe EventClass.map_set rooms_set_callback b4 >>= λ b5.
    unsubscribe EventClass.map_subset rooms_subset_callback b5

module _ {D : Type 0} where
  -- `__init__` of `MapData` and of `Map`
  unfoldable pub init : D → EventBus → MapState D
  init drawing b =
      let b1 = subscribe EventClass.map_set rooms_set_callback b in
      let b2 = subscribe EventClass.map_subset rooms_subset_callback b1 in
      let b3 = subscribe EventClass.map_set set_callback b2 in
      let b4 = subscribe EventClass.map_subset subset_callback b3 in
      let b5 = add_on_subscription_callback EventClass.map_changed first_subscription b4 in
      record {
        bus = subscribe EventClass.map_info info_callback b5;
        map_data = record {
          changed = false;
          map_subsets = [];
          positions = [];
          rotation = 0;
          drawing = drawing;
          amount_rooms = 0;
          rooms = [];
          map_id = text "";
        };
        last_image = none;
        enabled = true;
      }

  -- `refresh`, with `_capabilities.major`
  unfoldable pub refresh : Bool → Exec (MapState D) Unit
  refresh has_major s =
      let b1 = request_refresh EventClass.cached_map_info s.bus in
      let b2 = request_refresh EventClass.positions b1 in
      let b3 = request_refresh EventClass.map_trace b2 in
      let b4 = if has_major then request_refresh EventClass.major_map b3 else b3 in
      if s.enabled then (ok tt, record s { bus = b4 }) else (err map_error, s)

  -- `teardown`; a second one finds no function to call.
  unfoldable pub teardown : MapState D → Result (MapState D)
  teardown s =
      let left : Result (MapState D) = elim (leave_bus s.bus) [
        | err e ↦ err e
        | ok b ↦ ok (record s { bus = b; enabled = false })
      ] in
      if s.enabled then left else ok s

  -- `self._last_image and not self._map_data.changed`
  abbrev pub kept_image : MapState D → Option String
  kept_image s = elim s.last_image [
    | none ↦ none
    | some image ↦ if str_eq image "" || s.map_data.changed then none else some image
  ]

  -- If the drawing raises, the data is not marked as changed any more and the old image is kept.
  unfoldable pub get_svg_map : Drawing D → Exec (MapState D) (Option String)
  get_svg_map rust s =
      let s1 = record s { map_data = reset_changed s.map_data } in
      let drawn : Result (Option String) × MapState D = elim (generate_svg rust s1.map_data) [
        | err e ↦ (err e, s1)
        | ok image ↦ (ok image, record s1 { last_image = image })
      ] in
      if s.enabled
      then elim (kept_image s) [ some kept ↦ (ok (some kept), s) | none ↦ drawn ]
      else (err map_error, s)
