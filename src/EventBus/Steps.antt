-- ===== src/EventBus/Steps.antt =====
-- The bus under the event loop: what the program, the timers and the tasks may do next, in any
-- order, with the starts and the ends of refreshes as a history.
use client_py.Prelude.{ℕ, ◌≡◌, true, some, List, [], ◌∷◌, ◌++◌, length, ltb, ok, if◌then◌else◌}
use client_py.Events.{Event, class_of}
use client_py.Events.Class.{EventClass, class_keys}
use client_py.Command.Base.{Command}
use client_py.EventBus.State.{EventBus, Task, refresh, call_on_subscription, deliver, data_of, init}
use client_py.EventBus.Subscribe.{
  subscribe, unsubscribe, add_on_subscription_callback, remove_on_subscription_callback,
}
use client_py.EventBus.Notify.{notify, fire}
use client_py.EventBus.Refresh.{
  start_refresh, finish_refresh, start_call, finish_call, cancel_call, begin_teardown, end_teardown,
}
use client_py.EventBus.Invariant.{IsValid, SameEvents-IsValid, init-IsValid}
use client_py.EventBus.Timers.{notify-IsValid, fire-IsValid}
use client_py.EventBus.Frame.{
  subscribe-SameEvents, unsubscribe-SameEvents, add_on_subscription_callback-SameEvents,
  remove_on_subscription_callback-SameEvents, start_refresh-SameEvents, finish_refresh-SameEvents,
  start_call-SameEvents, finish_call-SameEvents, SameEvents-task, cancel_call-SameEvents,
}
use client_py.EventBus.Teardown.{end_teardown-IsValid}

pub data Label : Type 0 where
  started finished : EventClass → Label
  silent : Label

-- A task that runs leaves the list, from any place.
abbrev pub without : List Task → List Task → EventBus → EventBus
without before after b = record b { tasks = before ++ after }

-- A refresh has started where its task has handed commands to `execute_command`.
unfoldable pub refresh_label : EventClass → EventBus → EventBus → Label
refresh_label c before after =
    if ltb (length before.executed) (length after.executed) then started c else silent

pub data Step : EventBus → Label → EventBus → Type 0 where
  subscribed :
      (c : EventClass) (callback : ℕ) (b : EventBus) → Step b silent (subscribe c callback b)
  unsubscribed :
      (c : EventClass) (callback : ℕ) (b b' : EventBus)
      → unsubscribe c callback b ≡ ok b'
      → Step b silent b'
  added :
      (c : EventClass) (id : ℕ) (b : EventBus) → Step b silent (add_on_subscription_callback c id b)
  removed :
      (c : EventClass) (id : ℕ) (b b' : EventBus)
      → remove_on_subscription_callback c id b ≡ ok b'
      → Step b silent b'
  notified : (e : Event) (debounce : ℕ) (b : EventBus) → Step b silent (notify e debounce b)
  fired : (i : ℕ) (b : EventBus) → Step b silent (fire i b)
  delivered :
      (e : Event) (callback : ℕ) (before after : List Task) (b : EventBus)
      → b.tasks ≡ before ++ deliver e callback ∷ after
      → Step b silent (without before after b)
  refreshed :
      (c : EventClass) (before after : List Task) (b : EventBus)
      → b.tasks ≡ before ++ refresh c ∷ after
      → Step b
          (refresh_label c b (start_refresh c (without before after b)))
          (start_refresh c (without before after b))
  refresh_ended :
      (c : EventClass) (b : EventBus)
      → (data_of c b).locked ≡ true
      → Step b (finished c) (finish_refresh c b)
  called :
      (c : EventClass) (id : ℕ) (before after : List Task) (b : EventBus)
      → b.tasks ≡ before ++ call_on_subscription c id ∷ after
      → Step b silent (start_call c id (without before after b))
  call_ended : (c : EventClass) (id u : ℕ) (b : EventBus) → Step b silent (finish_call c id u b)
  ticked : (now : ℕ) (b : EventBus) → Step b silent (record b { now = now })
  call_cancelled : (id : ℕ) (b : EventBus) → Step b silent (cancel_call id b)
  stopping : (b : EventBus) → Step b silent (begin_teardown b)
  stopped : (b : EventBus) → Step b silent (end_teardown b)

-- A run from the new bus; the history has the latest label first.
pub data Run (commands_of : EventClass → List Command) : List Label → EventBus → Type 0 where
  here : Run commands_of [] (init commands_of)
  next :
      {h : List Label} {l : Label} {b b' : EventBus}
      → Run commands_of h b
      → Step b l b'
      → Run commands_of (l ∷ h) b'

Step-IsValid : {b b' : EventBus} {l : Label} → Step b l b' → IsValid b → IsValid b'
unfolding begin_teardown
Step-IsValid (subscribed c callback b) v = SameEvents-IsValid (subscribe-SameEvents c callback b) v
Step-IsValid (unsubscribed c callback b b' h) v =
    SameEvents-IsValid (unsubscribe-SameEvents c callback b h) v
Step-IsValid (added c id b) v =
    SameEvents-IsValid (add_on_subscription_callback-SameEvents c id b) v
Step-IsValid (removed c id b b' h) v =
    SameEvents-IsValid (remove_on_subscription_callback-SameEvents c id b h) v
Step-IsValid (notified e debounce b) v = notify-IsValid e debounce b v
Step-IsValid (fired i b) v = fire-IsValid i b v
Step-IsValid (delivered e callback before after b h) v =
    SameEvents-IsValid (SameEvents-task (before ++ after) b.now b) v
Step-IsValid (refreshed c before after b h) v =
    SameEvents-IsValid (start_refresh-SameEvents c (without before after b))
      (SameEvents-IsValid (SameEvents-task (before ++ after) b.now b) v)
Step-IsValid (refresh_ended c b h) v = SameEvents-IsValid (finish_refresh-SameEvents c b) v
Step-IsValid (called c id before after b h) v =
    SameEvents-IsValid (start_call-SameEvents c id (without before after b))
      (SameEvents-IsValid (SameEvents-task (before ++ after) b.now b) v)
Step-IsValid (call_ended c id u b) v = SameEvents-IsValid (finish_call-SameEvents c id u b) v
Step-IsValid (ticked now b) v = SameEvents-IsValid (SameEvents-task b.tasks now b) v
Step-IsValid (call_cancelled id b) v = SameEvents-IsValid (cancel_call-SameEvents id b) v
Step-IsValid (stopping b) v = SameEvents-IsValid (SameEvents-task [] b.now b) v
Step-IsValid (stopped b) v = end_teardown-IsValid b v

-- Every bus that a run reaches satisfies the invariant: the last event of an entry is of the
-- entry's class, and a timer that is not cancelled is the notify handle of its event's class.
pub Run-IsValid :
    (commands_of : EventClass → List Command) (h : List Label) (b : EventBus)
    → Run commands_of h b
    → IsValid b
Run-IsValid commands_of _ _ here = init-IsValid commands_of
Run-IsValid commands_of _ _ (next r s) = Step-IsValid s (Run-IsValid commands_of _ _ r)

-- In every run, the last event of a class is an event of that class.
pub last_event-class :
    (commands_of : EventClass → List Command) (h : List Label) (b : EventBus) (c : EventClass)
    (e : Event)
    → Run commands_of h b
    → (data_of c b).last_event ≡ some e
    → class_of e ≡ c
last_event-class commands_of h b c e r last = (Run-IsValid commands_of h b r).keyed c e last
