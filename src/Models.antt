-- ===== src/Models.antt =====
-- models.py and the enumerations of events/: the members with their values. A member's value is
-- what `Enum(value)` looks up and what `==` compares.
use client_py.Prelude.{
  ℕ, ◌≡◌, refl, Bool, true, String, Option, none, some, ℤ, pos, negsuc, int_eq, str_eq, arith,
  if◌then◌else◌,
}
use client_py.Value.{Value}

-- `State` of models.py
pub data State : Type 0 where
  idle cleaning returning docked error paused : State

unfoldable pub state_value : State → ℕ
state_value State.idle = 1
state_value State.cleaning = 2
state_value State.returning = 3
state_value State.docked = 4
state_value State.error = 5
state_value State.paused = 6

-- `State` of events/station.py
pub data StationState : Type 0 where
  idle emptying_dustbin washing_mop drying_mop : StationState

unfoldable pub station_value : StationState → ℕ
station_value StationState.idle = 0
station_value emptying_dustbin = 1
station_value washing_mop = 2
station_value drying_mop = 3

pub data CleanJobStatus : Type 0 where
  no_status cleaning finished manually_stopped finished_with_warnings : CleanJobStatus

unfoldable pub job_status_value : CleanJobStatus → ℤ
job_status_value no_status = negsuc 1
job_status_value CleanJobStatus.cleaning = negsuc 0
job_status_value finished = pos 1
job_status_value manually_stopped = pos 2
job_status_value finished_with_warnings = pos 3

-- `CleanJobStatus(n)`
unfoldable pub job_status_of : ℤ → Option CleanJobStatus
job_status_of n =
    if int_eq n (negsuc 1)
    then some no_status
    else if int_eq n (negsuc 0)
    then some CleanJobStatus.cleaning
    else if int_eq n (pos 1)
    then some finished
    else if int_eq n (pos 2)
    then some manually_stopped
    else if int_eq n (pos 3)
    then some finished_with_warnings
    else none

pub data MapSetType : Type 0 where
  rooms virtual_walls no_mop_zones : MapSetType

unfoldable pub map_set_value : MapSetType → String
map_set_value rooms = "ar"
map_set_value virtual_walls = "vw"
map_set_value no_mop_zones = "mw"

-- `MapSetType(s)`, and `MapSetType.has_value`
unfoldable pub map_set_of : String → Option MapSetType
map_set_of s =
    if str_eq s "ar"
    then some rooms
    else if str_eq s "vw"
    then some virtual_walls
    else if str_eq s "mw"
    then some no_mop_zones
    else none

pub data CleanAction : Type 0 where
  start pause resume stop : CleanAction

unfoldable pub clean_action_value : CleanAction → String
clean_action_value start = "start"
clean_action_value pause = "pause"
clean_action_value resume = "resume"
clean_action_value stop = "stop"

pub data CleanMode : Type 0 where
  auto spot_area custom_area free_clean : CleanMode

unfoldable pub clean_mode_value : CleanMode → String
clean_mode_value auto = "auto"
clean_mode_value spot_area = "spotArea"
clean_mode_value custom_area = "customArea"
clean_mode_value free_clean = "freeClean"

-- `Room`
pub record Room : Type 0 where
  pub name : String
  pub id : ℤ
  pub coordinates : Value

-- `PositionType` of rs/map.pyi
pub data PositionType : Type 0 where
  deebot charger : PositionType

-- The test `a == b` on states; `State` is an `IntEnum` with unique values.
unfoldable pub state_eq : State → State → Bool
unfolding state_value
state_eq a b = int_eq (pos (state_value a)) (pos (state_value b))

pub state_eq_self : (a : State) → state_eq a a ≡ true
unfolding state_eq
state_eq_self State.idle = refl
state_eq_self _ = refl

pub state_eq_sound : (a b : State) → state_eq a b ≡ true → a ≡ b
unfolding state_eq
state_eq_sound a b h = ground arith
