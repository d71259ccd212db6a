-- ===== src/Json/Errors.antt =====
-- commands/json/error.py with `ERROR_CODES` of const.py.
use client_py.Prelude.{
  String, Option, none, some, List, [], ◌∷◌, ℤ, pos, negsuc, Result, ok, if◌then◌else◌,
}
use client_py.Prelude.Results.{◌>>=◌}
use client_py.Value.{Value, Items, nil, cons, int, list, get, is_int, is_none}
use client_py.Models.{State}
use client_py.Events.{Event, state, error}
use client_py.Message.Body.{Message, message_body_data_dict}
use client_py.Json.Conclude.{conclude}
use client_py.Json.Station.{hashable}

unfoldable pub error_codes : List (ℤ × String)
error_codes =
    (negsuc 2, "Error parsing response data")
    ∷ (negsuc 1, "Internal error")
    ∷ (negsuc 0, "Host not reachable or communication malfunction")
    ∷ (pos 0, "NoError: Robot is operational")
    ∷ (pos 1, "Request error")
    ∷ (pos 3, "RequestOAuthError: Authentication error")
    ∷ (pos 5, "Access denied")
    ∷ (pos 7, "log data is not found")
    ∷ (pos 100, "NoError: Robot is operational")
    ∷ (pos 101, "BatteryLow: Low battery")
    ∷ (pos 102, "HostHang: Robot is off the floor")
    ∷ (pos 103, "WheelAbnormal: Driving Wheel malfunction")
    ∷ (pos 104, "DownSensorAbnormal: Excess dust on the Anti-Drop Sensors")
    ∷ (pos 105, "Stuck: Robot is stuck")
    ∷ (pos 106, "SideBrushExhausted: Side Brushes have expired")
    ∷ (pos 107, "DustCaseHeapExhausted: Dust case filter expired")
    ∷ (pos 108, "SideAbnormal: Side Brushes are tangled")
    ∷ (pos 109, "RollAbnormal: Main Brush is tangled")
    ∷ (pos 110, "NoDustBox: Dust Bin Not installed")
    ∷ (pos 111, "BumpAbnormal: Bump sensor stuck")
    ∷ (pos 112, "LDS: LDS \"Laser Distance Sensor\" malfunction")
    ∷ (pos 113, "MainBrushExhausted: Main brush has expired")
    ∷ (pos 114, "DustCaseFilled: Dust bin full")
    ∷ (pos 115, "BatteryError:")
    ∷ (pos 116, "ForwardLookingError:")
    ∷ (pos 117, "GyroscopeError:")
    ∷ (pos 118, "StrainerBlock:")
    ∷ (pos 119, "FanError:")
    ∷ (pos 120, "WaterBoxError:")
    ∷ (pos 121, "PlateJammed:")
    ∷ (pos 125, "Reservoir malfunction")
    ∷ (pos 126, "Reservoir is not installed")
    ∷ (pos 128, "Mopping Pad Plates are not both installed")
    ∷ (pos 129, "Mopping Pad Plate is tangled")
    ∷ (pos 201, "AirFilterUninstall:")
    ∷ (pos 202, "UltrasonicComponentAbnormal")
    ∷ (pos 203, "SmallWheelError")
    ∷ (pos 204, "WheelHang")
    ∷ (pos 205, "IonSterilizeExhausted")
    ∷ (pos 206, "IonSterilizeAbnormal")
    ∷ (pos 207, "IonSterilizeFault")
    ∷ (pos 209, "D-ToF Sensor malfunction")
    ∷ (pos 301, "FreshWaterBox empty")
    ∷ (pos 302, "WasteWaterBox full")
    ∷ (pos 303, "FreshWaterBox missing")
    ∷ (pos 304, "WasteWaterBox missing")
    ∷ (pos 305, "Dirty Water Tank is full")
    ∷ (pos 306, "Cleaning Sink Filter is not installed")
    ∷ (pos 307, "Auto-Clean Station malfunction")
    ∷ (pos 308, "Communication Malfunction")
    ∷ (pos 310, "Lid open")
    ∷ (pos 311, "Replace the Dust Bag")
    ∷ (pos 312, "Dust Bag Full")
    ∷ (pos 313, "TODO: unknown")
    ∷ (pos 314, "Water Supply Module or Silver Ion Sterilization module is not installed")
    ∷ (pos 315, "Water Supply Module is not installed")
    ∷ (pos 316, "Clean silk is full")
    ∷ (pos 317, "Clean Water Tank refill malfunction")
    ∷ (pos 318, "Dirty Water Tank is full")
    ∷ (pos 319, "Cleaning solution is running low")
    ∷ (pos 322, "Clean Water Tank is empty or not installed")
    ∷ (pos 323, "Dirty Water Tank is full not installed")
    ∷ (pos 404, "Recipient unavailable")
    ∷ (pos 500, "Request Timeout")
    ∷ (pos 601, "ERROR_ClosedAIVISideAbnormal")
    ∷ (pos 602, "ClosedAIVIRollAbnormal")
    ∷ (pos 1007, "Mop plugged")
    ∷ (pos 1021, "Cleaning complete")
    ∷ (pos 1024, "Low battery, returning to charge")
    ∷ (pos 1027, "Unable de find the charging dock, returning to starting position")
    ∷ (pos 1052, "Time to change the mop")
    ∷ (pos 1053, "Task interrupted, returning to charge")
    ∷ (pos 1061, "Resuming cleaning after position retrieved")
    ∷ (pos 1062, "Unable de locate, starting new map")
    ∷ (pos 1068, "Failed to find position, returning to charge")
    ∷ (pos 1071, "Position updated")
    ∷ (pos 1094, "AirDrying mop")
    ∷ (pos 1088, "Failed to find position")
    ∷ (pos 2036, "Obstacle detected")
    ∷ (pos 2079, "TODO: unknown")
    ∷ (pos 4200, "Robot not reachable")
    ∷ (pos 20003, "Task type not supported")
    ∷ (pos 20011, "Handle deal message fail")
    ∷ (pos 20012, "Get point count out of range")
    ∷ []

-- `ERROR_CODES.get(error)`: a key is found by `==`, so `True` finds the row of 1.
unfoldable pub description_in : List (ℤ × String) → Value → Option String
description_in [] code = none
description_in ((n, description) ∷ rows) code =
    let rest = description_in rows code in if is_int code n then some description else rest

-- `codes[-1]`, the last error code; 0 if there is none.
unfoldable pub last_code : Items → Value
last_code nil = int (pos 0)
last_code (cons v nil) = v
last_code (cons v (cons w vs)) = last_code (cons w vs)

abbrev pub error_events : Value → Option String → List Event
error_events code description =
    if is_int code (pos 0)
    then error code description ∷ []
    else state State.error ∷ error code description ∷ []

-- The events for the last code; `None` is no code.
unfoldable pub error_report : Value → Result (Option (List Event))
error_report code =
    if is_none code
    then ok none
    else (hashable code >>= λ key. ok (some (error_events key (description_in error_codes key))))

-- `GetError._handle_body_data_dict`
unfoldable pub read_error : Value → Result (Option (List Event))
read_error value =
    get value "code" >>= λ codes. elim codes [ list vs ↦ error_report (last_code vs) | _ ↦ ok none ]

abbrev pub get_error : Message
get_error = message_body_data_dict "getError" (λ value. conclude (read_error value))
