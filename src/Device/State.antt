-- ===== src/Device/State.antt =====
-- The state of `Device` in device.py, and its commands under the semaphore.
use client_py.Prelude.{
  ℕ, zero, suc, Bool, true, false, Option, List, [], ◌∷◌, ◌++◌, length, ltb, if◌then◌else◌,
}
use client_py.Value.{Value}
use client_py.Models.{State}
use client_py.Events.{availability}
use client_py.Command.Base.{Command}
use client_py.Command.Execute.{DeviceCommandResult}
use client_py.Message.World.{World, notify}
use client_py.Mqtt.Client.{TaskState}

-- Who waits for a command: a user, the event bus, or a task of the device.
pub data Origin : Type 0 where
  user event_bus running_task : Origin

-- A call of `_execute_command`
pub record Execution : Type 0 where
  pub command : Command
  pub origin : Origin

-- `executing` are the calls that hold the semaphore, `waiting` those that wait for it, in order;
-- `requested` are the tasks of `_create_request_command_task` that have not begun.
pub record Device : Type 0 where
  pub world : World
  pub state : Option State
  pub last_time_available : ℕ
  pub available_task : Option TaskState
  pub subscribed : Bool
  pub fw_version : Option Value
  pub mac : Option Value
  pub executing : List Execution
  pub waiting : List Execution
  pub requested : List (List Command)

abbrev pub semaphore : ℕ
semaphore = 3

-- The calls that wait take the semaphore while it is free.
unfoldable pub admit : List Execution → List Execution → List Execution × List Execution
admit executing [] = (executing, [])
admit executing (x ∷ waiting) =
    let admitted = admit (executing ++ x ∷ []) waiting in
    if ltb (length executing) semaphore then admitted else (executing, x ∷ waiting)

abbrev pub with_calls : List Execution × List Execution → Device → Device
with_calls (executing, waiting) d = record d { executing = executing; waiting = waiting }

unfoldable pub remove_at : ℕ → List Execution → List Execution
remove_at i [] = []
remove_at zero (x ∷ xs) = xs
remove_at (suc i) (x ∷ xs) = x ∷ remove_at i xs

-- `_execute_command` up to the semaphore
unfoldable pub begin_command : Execution → Device → Device
begin_command x d = with_calls (admit d.executing (d.waiting ++ x ∷ [])) d

unfoldable pub begin_commands : Origin → List Command → Device → Device
begin_commands origin [] d = d
begin_commands origin (c ∷ commands) d =
    begin_commands origin commands (begin_command (record { command = c; origin = origin }) d)

-- `_set_available`
unfoldable pub set_available : Bool → Device → Device
set_available available d = record d {
  last_time_available = if available then d.world.bus.now else d.last_time_available;
  world = notify (availability available) d.world;
}

-- The semaphore is given back.
unfoldable pub release : ℕ → Device → Device
release i d = with_calls (admit (remove_at i d.executing) d.waiting) d

-- `_execute_command` of the call with the index, from the result of `command.execute` on
unfoldable pub finish_command : ℕ → DeviceCommandResult → Device → Device
finish_command i result d = release i (if result.device_reached then set_available true d else d)

-- A call is cancelled while it waits for the semaphore; one that holds it gives it back.
unfoldable pub cancel_waiting : ℕ → Device → Device
cancel_waiting i d = record d { waiting = remove_at i d.waiting }

-- Whether a call goes on when the tasks of the device have ended.
abbrev outlives : Origin → Bool
outlives running_task = false
outlives _ = true

unfoldable pub without_tasks : List Execution → List Execution
without_tasks [] = []
without_tasks (x ∷ xs) = let rest = without_tasks xs in if outlives x.origin then x ∷ rest else rest

-- The tasks of the device are cancelled and waited for, so their commands have ended. A command that a
-- task of the bus waits for ends in a later turn of the loop.
unfoldable pub cancel_tasks : Device → Device
cancel_tasks d =
    with_calls (admit (without_tasks d.executing) (without_tasks d.waiting))
      (record d { requested = [] })
