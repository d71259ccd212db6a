-- ===== src/Json/Status.antt =====
-- commands/json/clean.py, charge.py, charge_state.py and error.py: what the robot does.
use client_py.Prelude.{
  String, ◌||◌, Option, none, some, List, [], ◌∷◌, ℤ, pos, negsuc, int_eq, Result, ok, err,
  if◌then◌else◌,
}
use client_py.Prelude.Results.{◌>>=◌}
use client_py.Value.{Value, null, int, dict, end, get, get_or, item, has, is_text, is_int, to_int}
use client_py.Models.{State}
use client_py.Events.{Event, state}
use client_py.Message.World.{HandlingState, Handler, warning, not_successful, result, write}
use client_py.Message.Body.{
  Message, message_body, message_body_data_dict, handle_in_body_data, only_dict,
}
use client_py.Json.Conclude.{success, conclude}

-- The value that is only logged: the last custom area.
unfoldable pub area_values : Value → Value → Result Value
area_values clean_type content =
    if is_text clean_type "customArea"
    then (has content "value" >>= λ present. if present then get content "value" else ok content)
    else ok null

abbrev pub motion_status : Value → Option State
motion_status motion_state =
    if is_text motion_state "working"
    then some State.cleaning
    else if is_text motion_state "pause"
    then some State.paused
    else if is_text motion_state "goCharging"
    then some State.returning
    else none

-- The branch of a robot that cleans or is washed.
unfoldable pub clean_status : Value → Result (Option State)
clean_status value = do
  clean_state ← get_or value "cleanState" (dict end)
  motion_state ← get clean_state "motionState"
  clean_type ← get clean_state "type"
  content ← get_or clean_state "content" (dict end)
  typed ← has content "type"
  clean_type' ← if typed then get content "type" else ok clean_type
  _ ← area_values clean_type' content
  ok (motion_status motion_state)

abbrev pub clean_info_of : Value → Value → Value → Result (Option State)
clean_info_of trigger status value =
    let cleaning = clean_status value in
    if is_text trigger "alert"
    then ok (some State.error)
    else if is_text status "clean" || is_text status "washing"
    then cleaning
    else if is_text status "goCharging"
    then ok (some State.returning)
    else if is_text status "idle"
    then ok (some State.idle)
    else ok none

-- The state that a `getCleanInfo` answer reports.
unfoldable pub clean_info : Value → Result (Option State)
clean_info value = do
  status ← get value "state"
  trigger ← get value "trigger"
  clean_info_of trigger status value

abbrev pub state_event : Option State → Option (List Event)
state_event none = none
state_event (some s) = some (state s ∷ [])

-- `GetCleanInfo._handle_body_data_dict`
unfoldable pub handle_clean_info : Handler Value
handle_clean_info value = conclude (clean_info value >>= λ s. ok (state_event s))

abbrev pub get_clean_info : Message
get_clean_info = message_body_data_dict "getCleanInfo" handle_clean_info

abbrev pub get_clean_info_v2 : Message
get_clean_info_v2 = message_body_data_dict "getCleanInfo_V2" handle_clean_info

-- `ExecuteCommand._handle_body`
unfoldable pub handle_execute : String → Handler Value
handle_execute name body w = elim (get_or body "code" (int (negsuc 0))) [
  | err e ↦ (err e, w)
  | ok code ↦
      if is_int code (pos 0)
      then (ok success, w)
      else (ok (some (result HandlingState.failed)), write warning not_successful name w)
]

abbrev pub charge_code : Value → Result ℤ
charge_code body = get_or body "code" (int (negsuc 0)) >>= to_int

-- `Charge._handle_body`
unfoldable pub handle_charge : Handler Value
handle_charge body w = elim (charge_code body) [
  | err e ↦ (err e, w)
  | ok code ↦
      if int_eq code (pos 0)
      then conclude (ok (some (state State.returning ∷ []))) w
      else if int_eq code (pos 30007)
      then conclude (ok (some (state State.docked ∷ []))) w
      else handle_execute "charge" body w
]

abbrev pub charge : Message
charge = message_body "charge" handle_charge

-- `GetChargeState._handle_body_data_dict`
unfoldable pub handle_charging : Handler Value
handle_charging value = conclude (
    get value "isCharging" >>= λ charging.
    ok (some (if is_int charging (pos 1) then state State.docked ∷ [] else [])))

-- The state that an answer with a code is taken for.
unfoldable pub charge_failure : Value → Result (Option State)
charge_failure body = do
  msg ← get body "msg"
  code ← if is_text msg "fail" then item body "code" else ok null
  ok (
      if is_text code "30007"
      then some State.docked
      else if is_text code "3" || is_text code "5"
      then some State.error
      else none)

abbrev pub docked_if_known : Option State → Option (List Event)
docked_if_known none = none
docked_if_known (some s) = some (state State.docked ∷ [])

-- `GetChargeState._handle_body`
unfoldable pub handle_charge_state : Handler Value
handle_charge_state body w = elim (get_or body "code" (int (pos 0))) [
  | err e ↦ (err e, w)
  | ok code ↦
      if is_int code (pos 0)
      then handle_in_body_data "getChargeState" (only_dict handle_charging) body w
      else conclude (charge_failure body >>= λ s. ok (docked_if_known s)) w
]

abbrev pub get_charge_state : Message
get_charge_state = message_body "getChargeState" handle_charge_state
