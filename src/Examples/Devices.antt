-- ===== src/Examples/Devices.antt =====
-- A device that is asked for four commands at once.
use client_py.Prelude.{◌≡◌, refl, [], ◌∷◌}
use client_py.Value.{Value}
use client_py.EventBus.State.{EventBus}
use client_py.EventBus.State
use client_py.Device.State.{Device, Execution, user, begin_command, admit}
use client_py.Device.Lifecycle.{init}
use client_py.Device.Limit.{IsLimited, Step, Run, Run-IsLimited}

abbrev bus : EventBus
bus = State.init (λ _. [])

abbrev call : Execution
call = record { command = record { name = "clean"; args = Value.null }; origin = user }

abbrev busy : Device
busy = begin_command call (begin_command call (begin_command call (begin_command call (init bus))))

busy_run : Run bus busy
busy_run =
    Run.next
      (Run.next
        (Run.next (Run.next Run.here (Step.begun call (init bus)))
          (Step.begun call (begin_command call (init bus))))
        (Step.begun call (begin_command call (begin_command call (init bus)))))
      (Step.begun call (begin_command call (begin_command call (begin_command call (init bus)))))

fourth_waits : busy.waiting ≡ call ∷ []
unfolding begin_command admit init
fourth_waits = refl

Run-IsLimited_example : IsLimited (busy.executing, busy.waiting)
Run-IsLimited_example = Run-IsLimited bus busy busy_run
