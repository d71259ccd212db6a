-- ===== src/Device/Limit.antt =====
-- No more than three calls of `_execute_command` hold the semaphore, and none waits without need. The
-- commands that a result requests run inside of such a call.
use client_py.Prelude.{
  ℕ, zero, suc, ◌≤◌, ◌≡◌, ◌⊎◌, inl, inr, refl, ap, sym, subst, Bool, true, false, Bool-cases,
  Option, none, some, List, [], ◌∷◌, ◌++◌, length, ltb, arith, if◌then◌else◌,
}
use client_py.EventBus.State.{EventBus}
use client_py.Command.Base.{Command}
use client_py.Command.Execute.{DeviceCommandResult}
use client_py.Device.State.{
  Execution, Device, semaphore, admit, remove_at, begin_command, begin_commands, set_available,
  release, finish_command, cancel_waiting, without_tasks, cancel_tasks, Origin,
}
use client_py.Device.Handlers.{run_requested}
use client_py.Device.Lifecycle.{init, begin_check, finish_check, stop}

-- The calls that execute and those that wait
abbrev Calls : Type 0
Calls = List Execution × List Execution

abbrev pub IsLimited : Calls → Type 0
IsLimited (executing, waiting) =
    (length executing ≤ semaphore) × ((waiting ≡ []) ⊎ (length executing ≡ semaphore))

length-snoc : (xs : List Execution) (x : Execution) → length (xs ++ x ∷ []) ≡ suc (length xs)
length-snoc [] x = refl
length-snoc (y ∷ xs) x = ap suc (length-snoc xs x)

length-remove_at : (i : ℕ) (xs : List Execution) → length (remove_at i xs) ≤ length xs
unfolding remove_at
length-remove_at i [] = omega arith
length-remove_at zero (x ∷ xs) = omega arith
length-remove_at (suc i) (x ∷ xs) = omega (arith, length-remove_at i xs)

length-without_tasks : (xs : List Execution) → length (without_tasks xs) ≤ length xs
unfolding without_tasks
length-without_tasks [] = omega arith
length-without_tasks (x ∷ xs) = ground (arith, length-without_tasks xs)

admit-IsLimited :
    (executing waiting : List Execution)
    → length executing ≤ semaphore
    → IsLimited (admit executing waiting)
unfolding admit
admit-IsLimited executing [] h = (h, inl refl)
admit-IsLimited executing (x ∷ waiting) h = elim (Bool-cases (ltb (length executing) semaphore)) [
  | inl free ↦
      subst
        (λ b.
          IsLimited (if b then admit (executing ++ x ∷ []) waiting else (executing, x ∷ waiting)))
        (sym free)
        (admit-IsLimited (executing ++ x ∷ []) waiting
          (ground (arith, length-snoc executing x, free)))
  | inr full ↦
      subst
        (λ b.
          IsLimited (if b then admit (executing ++ x ∷ []) waiting else (executing, x ∷ waiting)))
        (sym full) (h, inr (ground (arith, full)))
]

abbrev calls : Device → Calls
calls d = (d.executing, d.waiting)

-- The steps of the device: a command is to be executed, for whomever; a call ends or is cancelled;
-- requested commands begin; a check begins or ends; the device is torn down; anything else that leaves the calls as they are.
pub data Step : Device → Device → Type 0 where
  begun : (x : Execution) (d : Device) → Step d (begin_command x d)
  finished :
      (i : ℕ) (result : DeviceCommandResult) (d : Device) → Step d (finish_command i result d)
  cancelled : (i : ℕ) (d : Device) → Step d (release i d)
  gave_up : (i : ℕ) (d : Device) → Step d (cancel_waiting i d)
  requests_begun : (d : Device) → Step d (run_requested d)
  check_begun : (d : Device) → Step d (begin_check d)
  check_finished :
      (results : Option (List DeviceCommandResult)) (d : Device) → Step d (finish_check results d)
  stopped : (d : Device) → Step d (stop d)
  others : (d e : Device) → calls e ≡ calls d → Step d e

pub data Run (b : EventBus) : Device → Type 0 where
  here : Run b (init b)
  next : {d e : Device} → Run b d → Step d e → Run b e

begin_command-IsLimited :
    (x : Execution) (d : Device) → IsLimited (calls d) → IsLimited (calls (begin_command x d))
unfolding begin_command
begin_command-IsLimited x d (h, _) = admit-IsLimited d.executing (d.waiting ++ x ∷ []) h

begin_commands-IsLimited :
    (origin : Origin) (commands : List Command) (d : Device)
    → IsLimited (calls d)
    → IsLimited (calls (begin_commands origin commands d))
unfolding begin_commands
begin_commands-IsLimited origin [] d h = h
begin_commands-IsLimited origin (c ∷ commands) d h =
    let x : Execution = record { command = c; origin = origin } in
    begin_commands-IsLimited origin commands (begin_command x d) (begin_command-IsLimited x d h)

release-IsLimited : (i : ℕ) (d : Device) → IsLimited (calls d) → IsLimited (calls (release i d))
unfolding release
release-IsLimited i d (h, _) =
    admit-IsLimited (remove_at i d.executing) d.waiting
      (omega (arith, h, length-remove_at i d.executing))

-- Removing from no calls that wait leaves none.
remove_at-[] : (i : ℕ) (xs : List Execution) → xs ≡ [] → remove_at i xs ≡ []
unfolding remove_at
remove_at-[] i [] h = refl
remove_at-[] i (x ∷ xs) h = absurd (ground (arith, h))

cancel_waiting-IsLimited :
    (i : ℕ) (d : Device) → IsLimited (calls d) → IsLimited (calls (cancel_waiting i d))
unfolding cancel_waiting
cancel_waiting-IsLimited i d (h, inl e) = (h, inl (remove_at-[] i d.waiting e))
cancel_waiting-IsLimited i d (h, inr e) = (h, inr e)

if-IsLimited :
    (b : Bool) (d e : Device)
    → IsLimited (calls d)
    → IsLimited (calls e)
    → IsLimited (calls (if b then d else e))
if-IsLimited true d e p q = p
if-IsLimited false d e p q = q

finish_command-IsLimited :
    (i : ℕ) (r : DeviceCommandResult) (d : Device)
    → IsLimited (calls d)
    → IsLimited (calls (finish_command i r d))
unfolding finish_command set_available
finish_command-IsLimited i r d h =
    release-IsLimited i (if r.device_reached then set_available true d else d)
      (if-IsLimited r.device_reached (set_available true d) d h h)

run_requested-IsLimited : (d : Device) → IsLimited (calls d) → IsLimited (calls (run_requested d))
unfolding run_requested
run_requested-IsLimited d h =
    elim d.requested
      as (λ l. IsLimited (
        calls (elim l as (λ _. Device) [
          | [] ↦ d
          | commands ∷ requested ↦
              begin_commands Origin.running_task commands (record d { requested = requested })
        ]))) [
          | [] ↦ h
          | commands ∷ requested ↦
              begin_commands-IsLimited Origin.running_task commands
                (record d { requested = requested }) h
        ]

Step-IsLimited : {d e : Device} → Step d e → IsLimited (calls d) → IsLimited (calls e)
unfolding begin_check finish_check set_available stop cancel_tasks
Step-IsLimited (begun x d) h = begin_command-IsLimited x d h
Step-IsLimited (finished i r d) h = finish_command-IsLimited i r d h
Step-IsLimited (cancelled i d) h = release-IsLimited i d h
Step-IsLimited (gave_up i d) h = cancel_waiting-IsLimited i d h
Step-IsLimited (requests_begun d) h = run_requested-IsLimited d h
Step-IsLimited (check_begun d) h =
    if-IsLimited _ _ d (begin_commands-IsLimited Origin.running_task _ d h) h
Step-IsLimited (check_finished none d) h = h
Step-IsLimited (check_finished (some results) d) h = h
Step-IsLimited (stopped d) (h, _) =
    admit-IsLimited (without_tasks d.executing) (without_tasks d.waiting)
      (omega (arith, h, length-without_tasks d.executing))
Step-IsLimited (others d e s) h = subst IsLimited (sym s) h

-- In every run of a device, at most three commands hold its semaphore, and a command waits for it
-- only while three do.
pub Run-IsLimited : (b : EventBus) (d : Device) → Run b d → IsLimited (d.executing, d.waiting)
unfolding init
Run-IsLimited b _ here = (omega arith, inl refl)
Run-IsLimited b _ (next r s) = Step-IsLimited s (Run-IsLimited b _ r)
