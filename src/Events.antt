-- ===== src/Events.antt =====
-- events/: one class of events for each attribute that a subscriber can watch. An attribute that
-- the handlers copy from a message unchecked is a `Value`.
pub mod Class
use client_py.Prelude.{
  ℕ, String, Bool, true, false, ◌&&◌, Option, none, some, ℤ, pos, List, [], ◌∷◌, map, any, all,
  if◌then◌else◌,
}
use client_py.Value.{Value, Items, null, boolean, int, text, list, nil, cons, items_eq, value_eq}
use client_py.Models.{
  State, state_value, StationState, station_value, CleanJobStatus, job_status_value, MapSetType,
  map_set_value, Room, PositionType, deebot, charger,
}
use Class.{EventClass, class_eq}

-- `CleanLogEntry`
pub record CleanLogEntry : Type 0 where
  pub timestamp : Value
  pub image_url : Value
  pub type : Value
  pub area : Value
  pub stop_reason : CleanJobStatus
  pub duration : Value

-- `Position`
pub record Position : Type 0 where
  pub type : PositionType
  pub x : Value
  pub y : Value
  pub a : Value

-- `Map` of events/map.py; the angle is a member of the `RotationAngle` of the Rust module.
pub record MapInfo : Type 0 where
  pub id : Value
  pub name : Value
  pub using : Bool
  pub built : Bool
  pub angle : ℕ

pub data Event : Type 0 where
  auto_empty : Bool → Option String → Event
  availability : Bool → Event
  battery : Value → Event
  cached_map_info : List MapInfo → Event
  clean_count : Value → Event
  clean_log : List CleanLogEntry → Event
  custom_command : String → Value → Event
  cut_direction : Value → Event
  efficiency_mode : ℤ → Event
  -- `EnableEvent` and its subclasses, with the class
  enable : EventClass → Bool → Event
  error : Value → Option String → Event
  fan_speed : ℤ → Event
  firmware : Value → Event
  gps_position : Value → Value → Event
  life_span : String → Value → ℤ → Event
  major_map : Value → List ℤ → Bool → Event
  map_changed : ℕ → Event
  map_info : Value → Value → Event
  map_set : MapSetType → List ℤ → Value → Event
  map_subset : ℤ → MapSetType → Value → Option String → Event
  map_trace : ℤ → ℤ → Value → Event
  minor_map : Value → Value → Event
  mop_attached : Bool → Event
  mop_auto_wash_frequency : ℤ → Event
  network_info : Value → Value → ℤ → Value → Event
  ota : Bool → Value → Value → Value → Value → Event
  positions : List Position → Event
  report_stats : Value → Value → Value → Value → CleanJobStatus → List ℤ → Event
  rooms : Value → List Room → Event
  state : State → Event
  station : StationState → Event
  stats : Value → Value → Value → Event
  total_stats : Value → Value → Value → Event
  volume : Value → Value → Event
  water_amount water_custom_amount water_sweep_type : ℤ → Event
  work_mode : ℤ → Event

-- `type(event)`
unfoldable pub class_of : Event → EventClass
class_of (auto_empty e f) = EventClass.auto_empty
class_of (availability a) = EventClass.availability
class_of (battery v) = EventClass.battery
class_of (cached_map_info ms) = EventClass.cached_map_info
class_of (clean_count c) = EventClass.clean_count
class_of (clean_log ls) = EventClass.clean_log
class_of (custom_command n r) = EventClass.custom_command
class_of (cut_direction a) = EventClass.cut_direction
class_of (efficiency_mode m) = EventClass.efficiency_mode
class_of (enable c e) = c
class_of (error c d) = EventClass.error
class_of (fan_speed s) = EventClass.fan_speed
class_of (firmware v) = EventClass.firmware
class_of (gps_position x y) = EventClass.gps_position
class_of (life_span t p r) = EventClass.life_span
class_of (major_map i vs r) = EventClass.major_map
class_of (map_changed w) = EventClass.map_changed
class_of (map_info i m) = EventClass.map_info
class_of (map_set t ss i) = EventClass.map_set
class_of (map_subset i t c n) = EventClass.map_subset
class_of (map_trace s t d) = EventClass.map_trace
class_of (minor_map i v) = EventClass.minor_map
class_of (mop_attached v) = EventClass.mop_attached
class_of (mop_auto_wash_frequency v) = EventClass.mop_auto_wash_frequency
class_of (network_info i s r m) = EventClass.network_info
class_of (ota s a v t p) = EventClass.ota
class_of (positions ps) = EventClass.positions
class_of (report_stats a t y c s l) = EventClass.report_stats
class_of (rooms i rs) = EventClass.rooms
class_of (state s) = EventClass.state
class_of (station s) = EventClass.station
class_of (stats a t y) = EventClass.stats
class_of (total_stats a t c) = EventClass.total_stats
class_of (volume v m) = EventClass.volume
class_of (water_amount v) = EventClass.water_amount
class_of (water_custom_amount v) = EventClass.water_custom_amount
class_of (water_sweep_type v) = EventClass.water_sweep_type
class_of (work_mode m) = EventClass.work_mode

abbrev pub items : List Value → Items
items [] = nil
items (v ∷ vs) = cons v (items vs)

abbrev pack : List Value → Value
pack vs = list (items vs)

abbrev optional : Option String → Value
optional none = null
optional (some s) = text s

abbrev entry_value : CleanLogEntry → Value
entry_value l = pack (
    l.timestamp
    ∷ l.image_url
    ∷ l.type
    ∷ l.area
    ∷ int (job_status_value l.stop_reason)
    ∷ l.duration
    ∷ [])

abbrev position_type_value : PositionType → ℤ
position_type_value deebot = pos 1
position_type_value charger = pos 2

abbrev position_value : Position → Value
position_value p = pack (int (position_type_value p.type) ∷ p.x ∷ p.y ∷ p.a ∷ [])

abbrev pub map_value : MapInfo → Value
map_value m = pack (m.id ∷ m.name ∷ boolean m.using ∷ boolean m.built ∷ int (pos m.angle) ∷ [])

abbrev pub room_value : Room → Value
room_value r = pack (text r.name ∷ int r.id ∷ r.coordinates ∷ [])

-- The tuple of the fields, which the `__eq__` of a dataclass compares. Members of an enumeration
-- stand by their values, since `IntEnum` and `StrEnum` compare by them.
payload : Event → List Value
payload (auto_empty e f) = boolean e ∷ optional f ∷ []
payload (availability a) = boolean a ∷ []
payload (battery v) = v ∷ []
payload (cached_map_info ms) = map map_value ms
payload (clean_count c) = c ∷ []
payload (clean_log ls) = pack (map entry_value ls) ∷ []
payload (custom_command n r) = text n ∷ r ∷ []
payload (cut_direction a) = a ∷ []
payload (efficiency_mode m) = int m ∷ []
payload (enable c e) = boolean e ∷ []
payload (error c d) = c ∷ optional d ∷ []
payload (fan_speed s) = int s ∷ []
payload (firmware v) = v ∷ []
payload (gps_position x y) = x ∷ y ∷ []
payload (life_span t p r) = text t ∷ p ∷ int r ∷ []
payload (major_map i vs r) = i ∷ pack (map int vs) ∷ boolean r ∷ []
payload (map_changed w) = int (pos w) ∷ []
payload (map_info i m) = i ∷ m ∷ []
payload (map_set t ss i) = text (map_set_value t) ∷ pack (map int ss) ∷ i ∷ []
payload (map_subset i t c n) = int i ∷ text (map_set_value t) ∷ c ∷ optional n ∷ []
payload (map_trace s t d) = int s ∷ int t ∷ d ∷ []
payload (minor_map i v) = i ∷ v ∷ []
payload (mop_attached v) = boolean v ∷ []
payload (mop_auto_wash_frequency v) = int v ∷ []
payload (network_info i s r m) = i ∷ s ∷ int r ∷ m ∷ []
payload (ota s a v t p) = boolean s ∷ a ∷ v ∷ t ∷ p ∷ []
payload (positions ps) = pack (map position_value ps) ∷ []
payload (report_stats a t y c s l) =
    a ∷ t ∷ y ∷ c ∷ int (job_status_value s) ∷ pack (map int l) ∷ []
payload (rooms i rs) = i ∷ pack (map room_value rs) ∷ []
payload (state s) = int (pos (state_value s)) ∷ []
payload (station s) = int (pos (station_value s)) ∷ []
payload (stats a t y) = a ∷ t ∷ y ∷ []
payload (total_stats a t c) = a ∷ t ∷ c ∷ []
payload (volume v m) = v ∷ m ∷ []
payload (water_amount v) = int v ∷ []
payload (water_custom_amount v) = int v ∷ []
payload (water_sweep_type v) = int v ∷ []
payload (work_mode m) = int m ∷ []

abbrev within : List Value → List Value → Bool
within vs ws = all (λ v. any (value_eq v) ws) vs

-- `CachedMapInfoEvent` holds a set.
holds_set : Event → Bool
holds_set (cached_map_info ms) = true
holds_set _ = false

-- `a == b` on events
unfoldable pub event_eq : Event → Event → Bool
unfolding class_of payload holds_set
event_eq a b =
    class_eq (class_of a) (class_of b)
    && (if holds_set a
        then within (payload a) (payload b) && within (payload b) (payload a)
        else items_eq (items (payload a)) (items (payload b)))
