-- ===== src/Events/Class.antt =====
-- The classes of events, the keys of the event bus.
use client_py.Prelude.{
  ℕ, ◌≡◌, refl, sym, ap, ◌∙◌, ◌↔◌, Bool, true, Eq, nat_eq, nat_eq_iff, if◌then◌else◌,
}

pub data EventClass : Type 0 where
  advanced_mode auto_empty availability battery border_spin border_switch : EventClass
  cached_map_info carpet_auto_fan_boost child_lock clean_count clean_log : EventClass
  clean_preference continuous_cleaning cross_map_border_warning custom_command : EventClass
  cut_direction efficiency_mode error fan_speed firmware gps_position life_span : EventClass
  major_map map_changed map_info map_set map_subset map_trace minor_map : EventClass
  mop_attached mop_auto_wash_frequency move_up_warning multimap_state network_info : EventClass
  ota positions report_stats rooms safe_protect state station stats sweep_mode : EventClass
  total_stats true_detect voice_assistant_state volume water_amount : EventClass
  water_custom_amount water_sweep_type work_mode : EventClass

-- Classes are compared by identity: each has a number of its own.
class_number : EventClass → ℕ
class_number advanced_mode = 0
class_number auto_empty = 1
class_number availability = 2
class_number battery = 3
class_number border_spin = 4
class_number border_switch = 5
class_number cached_map_info = 6
class_number carpet_auto_fan_boost = 7
class_number child_lock = 8
class_number clean_count = 9
class_number clean_log = 10
class_number clean_preference = 11
class_number continuous_cleaning = 12
class_number cross_map_border_warning = 13
class_number custom_command = 14
class_number cut_direction = 15
class_number efficiency_mode = 16
class_number error = 17
class_number fan_speed = 18
class_number firmware = 19
class_number gps_position = 20
class_number life_span = 21
class_number major_map = 22
class_number map_changed = 23
class_number map_info = 24
class_number map_set = 25
class_number map_subset = 26
class_number map_trace = 27
class_number minor_map = 28
class_number mop_attached = 29
class_number mop_auto_wash_frequency = 30
class_number move_up_warning = 31
class_number multimap_state = 32
class_number network_info = 33
class_number ota = 34
class_number positions = 35
class_number report_stats = 36
class_number rooms = 37
class_number safe_protect = 38
class_number state = 39
class_number station = 40
class_number stats = 41
class_number sweep_mode = 42
class_number total_stats = 43
class_number true_detect = 44
class_number voice_assistant_state = 45
class_number volume = 46
class_number water_amount = 47
class_number water_custom_amount = 48
class_number water_sweep_type = 49
class_number work_mode = 50

class_at : ℕ → EventClass
class_at n =
    if nat_eq n 0
    then advanced_mode
    else if nat_eq n 1
    then auto_empty
    else if nat_eq n 2
    then availability
    else if nat_eq n 3
    then battery
    else if nat_eq n 4
    then border_spin
    else if nat_eq n 5
    then border_switch
    else if nat_eq n 6
    then cached_map_info
    else if nat_eq n 7
    then carpet_auto_fan_boost
    else if nat_eq n 8
    then child_lock
    else if nat_eq n 9
    then clean_count
    else if nat_eq n 10
    then clean_log
    else if nat_eq n 11
    then clean_preference
    else if nat_eq n 12
    then continuous_cleaning
    else if nat_eq n 13
    then cross_map_border_warning
    else if nat_eq n 14
    then custom_command
    else if nat_eq n 15
    then cut_direction
    else if nat_eq n 16
    then efficiency_mode
    else if nat_eq n 17
    then error
    else if nat_eq n 18
    then fan_speed
    else if nat_eq n 19
    then firmware
    else if nat_eq n 20
    then gps_position
    else if nat_eq n 21
    then life_span
    else if nat_eq n 22
    then major_map
    else if nat_eq n 23
    then map_changed
    else if nat_eq n 24
    then map_info
    else if nat_eq n 25
    then map_set
    else if nat_eq n 26
    then map_subset
    else if nat_eq n 27
    then map_trace
    else if nat_eq n 28
    then minor_map
    else if nat_eq n 29
    then mop_attached
    else if nat_eq n 30
    then mop_auto_wash_frequency
    else if nat_eq n 31
    then move_up_warning
    else if nat_eq n 32
    then multimap_state
    else if nat_eq n 33
    then network_info
    else if nat_eq n 34
    then ota
    else if nat_eq n 35
    then positions
    else if nat_eq n 36
    then report_stats
    else if nat_eq n 37
    then rooms
    else if nat_eq n 38
    then safe_protect
    else if nat_eq n 39
    then state
    else if nat_eq n 40
    then station
    else if nat_eq n 41
    then stats
    else if nat_eq n 42
    then sweep_mode
    else if nat_eq n 43
    then total_stats
    else if nat_eq n 44
    then true_detect
    else if nat_eq n 45
    then voice_assistant_state
    else if nat_eq n 46
    then volume
    else if nat_eq n 47
    then water_amount
    else if nat_eq n 48
    then water_custom_amount
    else if nat_eq n 49
    then water_sweep_type
    else work_mode

class_at-number : (c : EventClass) → class_at (class_number c) ≡ c
unfolding class_at class_number
class_at-number advanced_mode = refl
class_at-number _ = refl

unfoldable pub class_eq : EventClass → EventClass → Bool
unfolding class_number
class_eq a b = nat_eq (class_number a) (class_number b)

pub class_eq_iff : (a b : EventClass) → (class_eq a b ≡ true) ↔ (a ≡ b)
unfolding class_eq
class_eq_iff a b = (
  λ h. sym (class_at-number a) ∙ ap class_at ((nat_eq_iff _ _).0 h) ∙ class_at-number b,
  λ h. (nat_eq_iff _ _).1 (ap class_number h),
)

instance abbrev pub class_keys : Eq EventClass
class_keys = record { beq = class_eq; beq_iff = class_eq_iff }
