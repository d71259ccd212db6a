-- ===== src/Json/Docking.antt =====
-- When the robot counts as docked: what the answers on its cleaning and its charging do to that.
use client_py.Prelude.{
  ◌≡◌, ◌≢◌, refl, inl, inr, Bool-cases, subst, true, ◌||◌, Option, none, some, Result, ok,
  if◌then◌else◌,
}
use client_py.Prelude.Results.{Holds, Holds-bind, Holds-if}
use client_py.Value.{
  Value, get_or, is_text, dict, null, find, truthy, is_dict, Fields, end, has, get,
}
use client_py.Models.{State}
use client_py.Events.{state}
use client_py.Events.Class.{EventClass}
use client_py.EventBus.State.{data_of}
use client_py.EventBus.Publishing.{idle_stays_docked}
use client_py.Message.World.{World, HandlingState, notify}
use client_py.Message.Body.{Payload, object, handle, firmware_version, only_dict}
use client_py.Message.Routing.{handle-body_data}
use client_py.Json.Conclude.{success, conclude, notify_each}
use client_py.Json.Status.{
  area_values, motion_status, clean_status, clean_info_of, clean_info, handle_clean_info,
  get_clean_info,
}

-- What a state is that the answers on cleaning report.
abbrev Undocked : Option State → Type 0
Undocked (some s) = s ≢ State.docked
Undocked none = Unit

motion-Undocked : (v : Value) → Undocked (motion_status v)
motion-Undocked v = elim (Bool-cases (is_text v "working")) [
  | inl h ↦ rw h (λ e. cc)
  | inr h ↦ elim (Bool-cases (is_text v "pause")) [
    | inl i ↦ rw (h, i) (λ e. cc)
    | inr i ↦ elim (Bool-cases (is_text v "goCharging")) [
      | inl j ↦ rw (h, i, j) (λ e. cc)
      | inr j ↦ rw (h, i, j) tt
    ]
  ]
]

clean_status-Undocked : (value : Value) → Holds Undocked (clean_status value)
unfolding clean_status
clean_status-Undocked value =
    Holds-bind Undocked (get_or value "cleanState" (dict end)) _ (λ clean_state _.
      Holds-bind Undocked (get clean_state "motionState") _ (λ motion_state _.
        Holds-bind Undocked (get clean_state "type") _ (λ clean_type _.
          Holds-bind Undocked (get_or clean_state "content" (dict end)) _ (λ content _.
            Holds-bind Undocked (has content "type") _ (λ typed _.
              Holds-bind Undocked (if typed then get content "type" else ok clean_type) _
                (λ clean_type' _.
                  Holds-bind Undocked (area_values clean_type' content) _
                    (λ area _. motion-Undocked motion_state)))))))

clean_info_of-Undocked :
    (trigger status value : Value) → Holds Undocked (clean_info_of trigger status value)
clean_info_of-Undocked trigger status value =
    Holds-if Undocked (is_text trigger "alert") (ok (some State.error)) _ (λ e. cc)
      (Holds-if Undocked (is_text status "clean" || is_text status "washing") (clean_status value) _
        (clean_status-Undocked value)
        (Holds-if Undocked (is_text status "goCharging") (ok (some State.returning)) _ (λ e. cc)
          (Holds-if Undocked (is_text status "idle") (ok (some State.idle)) (ok none) (λ e. cc)
            tt)))

clean_info-Undocked : (value : Value) → Holds Undocked (clean_info value)
unfolding clean_info
clean_info-Undocked value = Holds-bind Undocked (get value "state") _ (λ status _.
    Holds-bind Undocked (get value "trigger") _
      (λ trigger _. clean_info_of-Undocked trigger status value))

-- The answer to `getCleanInfo` never reports that the robot is docked, whatever it holds.
pub clean_info-≢-docked :
    (value : Value) (s : State) → clean_info value ≡ ok (some s) → s ≢ State.docked
clean_info-≢-docked value s h = subst (Holds Undocked) h (clean_info-Undocked value)

-- An idle answer tells the bus so.
idle_lem :
    (value : Value) (w : World)
    → is_dict value ≡ true
    → clean_info value ≡ ok (some State.idle)
    → only_dict handle_clean_info value w ≡ (ok success, notify (state State.idle) w)
unfolding handle_clean_info conclude notify_each
idle_lem value w hdict hidle = rw (hdict, handle_clean_info, hidle, conclude, notify_each)

-- A message `getCleanInfo` that reports an idle robot, with no firmware version, while the robot was
-- last seen docked: it is handled with success, the robot stays docked, and nobody is told.
pub idle_answer_stays_docked :
    (loads : Payload → Result Value) (fs body : Fields) (value : Value) (w : World)
    → firmware_version (dict fs) ≡ ok null
    → find "body" fs ≡ some (dict body)
    → find "data" body ≡ some value
    → is_dict value ≡ true
    → clean_info value ≡ ok (some State.idle)
    → (data_of EventClass.state w.bus).last_event ≡ some (state State.docked)
    → let (r, w') = handle loads get_clean_info (object fs) w in
      (r.state ≡ HandlingState.success)
      × ((data_of EventClass.state w'.bus).last_event ≡ some (state State.docked))
      × (w'.bus.tasks ≡ w.bus.tasks)
unfolding truthy
idle_answer_stays_docked loads fs body value w hfw hbody hdata hdict hidle hdocked =
    let docked = idle_stays_docked 0 w.bus hdocked refl in
    rw
      (
        handle-body_data loads "getCleanInfo" (only_dict handle_clean_info) fs body value null w hfw
            hbody hdata,
        idle_lem value w hdict hidle,
      )
      (refl, docked.0, docked.1)
