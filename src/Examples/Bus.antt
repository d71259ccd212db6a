-- ===== src/Examples/Bus.antt =====
-- The event bus on concrete inputs: one subscriber of the state, whose class has one command.
use client_py.Prelude.{
  ℕ, ◌≡◌, ◌≤◌, nat_keys, ◌+◌, ◌++◌, ◌≢◌, arith, refl, true, false, none, some, List, [], ◌∷◌, ok,
  if◌then◌else◌,
}
use client_py.Dict
use client_py.Value.{end, dict, items_eq}
use client_py.Models.{State, state_eq}
use client_py.Events.{Event, state, class_of, event_eq}
use client_py.Events.Class.{EventClass, class_eq}
use client_py.Command.Base.{Command}
use client_py.EventBus.State.{
  EventBus, deliver, refresh, Timer, init, data_of, has_subscribers, request_refresh,
}
use client_py.EventBus.Subscribe.{subscribe, greet, unsubscribe}
use client_py.EventBus.Notify.{
  is_due, notify, notify_now, normalize, recovers, publish, schedule, cancel, fire,
}
use client_py.EventBus.Refresh.{
  cancel_all, begin_teardown, end_teardown, start_refresh, begin_refresh,
}
use client_py.EventBus.Steps.{
  silent, subscribed, notified, refreshed, stopping, Run, here, next, refresh_label, Run-IsValid,
  last_event-class,
}
use client_py.EventBus.Publishing.{notify_delivers, idle_stays_docked}
use client_py.EventBus.Exclusion.{running, Run-exclusive}
use client_py.EventBus.Debounce.{one_waits, latest_waits}
use client_py.EventBus.Subscriptions.{subscribe_greets, unsubscribe-subscribe}
use client_py.EventBus.Teardown.{teardown_stops}

abbrev get_clean : Command
get_clean = record { name = "getCleanInfo"; args = dict end }

abbrev commands : EventClass → List Command
commands EventClass.state = get_clean ∷ []
commands _ = []

abbrev one_subscriber : EventBus
one_subscriber = subscribe EventClass.state 7 (init commands)

abbrev cleaning : Event
cleaning = state State.cleaning

notify_delivers_example :
    (data_of EventClass.state (notify cleaning 0 one_subscriber)
      ≡ record (data_of EventClass.state one_subscriber) {
        last_event_time = 0;
        notify_handle = none;
        last_event = some cleaning;
      })
    × ((notify cleaning 0 one_subscriber).tasks
        ≡ refresh EventClass.state ∷ deliver cleaning 7 ∷ [])
unfolding data_of class_of normalize recovers event_eq state_eq class_eq items_eq Dict.get Dict.set
    Dict.keys subscribe greet has_subscribers request_refresh
notify_delivers_example = notify_delivers cleaning 0 one_subscriber EventClass.state refl

one_subscriber-Run : Run commands (silent ∷ []) one_subscriber
one_subscriber-Run = next here (subscribed EventClass.state 7 (init commands))

-- A refresh of the state runs after the first event was told.
abbrev told : EventBus
told = notify cleaning 0 one_subscriber

told-Run : Run commands (silent ∷ silent ∷ []) told
told-Run = next one_subscriber-Run (notified cleaning 0 one_subscriber)

abbrev refreshing : EventBus
refreshing = start_refresh EventClass.state (record told { tasks = deliver cleaning 7 ∷ [] })

told-tasks : told.tasks ≡ [] ++ refresh EventClass.state ∷ deliver cleaning 7 ∷ []
unfolding data_of class_of normalize recovers event_eq state_eq class_eq items_eq Dict.get Dict.set
    Dict.keys subscribe greet has_subscribers request_refresh notify notify_now publish
told-tasks = refl

refreshing-Run :
    Run commands (refresh_label EventClass.state told refreshing ∷ silent ∷ silent ∷ []) refreshing
refreshing-Run =
    next told-Run (refreshed EventClass.state [] (deliver cleaning 7 ∷ []) told told-tasks)

Run-exclusive_example :
    (running EventClass.state
        (refresh_label EventClass.state told refreshing ∷ silent ∷ silent ∷ [])
      ≡ (if (data_of EventClass.state refreshing).locked then 1 else 0))
    × (running EventClass.state
          (refresh_label EventClass.state told refreshing ∷ silent ∷ silent ∷ [])
        ≤ 1)
Run-exclusive_example =
    Run-exclusive commands (refresh_label EventClass.state told refreshing ∷ silent ∷ silent ∷ [])
      refreshing EventClass.state refreshing-Run

refreshing-locked : (data_of EventClass.state refreshing).locked ≡ true
unfolding start_refresh begin_refresh data_of class_of normalize recovers event_eq state_eq class_eq
    items_eq Dict.get Dict.set Dict.keys subscribe greet has_subscribers request_refresh notify
    notify_now publish
refreshing-locked = refl

told-last : (data_of EventClass.state told).last_event ≡ some cleaning
unfolding data_of class_of normalize recovers event_eq state_eq class_eq items_eq Dict.get Dict.set
    Dict.keys subscribe greet has_subscribers request_refresh notify notify_now publish
told-last = refl

last_event-class_example : class_of cleaning ≡ EventClass.state
last_event-class_example =
    last_event-class commands (silent ∷ silent ∷ []) told EventClass.state cleaning told-Run
      told-last

abbrev docked : EventBus
docked = notify (state State.docked) 0 one_subscriber

docked-last : (data_of EventClass.state docked).last_event ≡ some (state State.docked)
unfolding data_of class_of normalize recovers event_eq state_eq class_eq items_eq Dict.get Dict.set
    Dict.keys subscribe greet has_subscribers request_refresh notify notify_now publish schedule
    cancel
docked-last = refl

idle_stays_docked_example :
    ((data_of EventClass.state (notify (state State.idle) 0 docked)).last_event
      ≡ some (state State.docked))
    × ((notify (state State.idle) 0 docked).tasks ≡ docked.tasks)
idle_stays_docked_example = idle_stays_docked 0 docked docked-last refl

-- An event within its debounce time, after the first.
abbrev paused : Event
paused = state State.paused

abbrev waiting : EventBus
waiting = notify paused 1000000 told

abbrev paused_timer : Timer
paused_timer = record { event = paused; delay = 1000000; cancelled = false }

waiting-Run : Run commands (silent ∷ silent ∷ silent ∷ []) waiting
waiting-Run = next told-Run (notified paused 1000000 told)

waiting-timer : Dict.get 0 waiting.timers ≡ some paused_timer
unfolding data_of class_of normalize recovers event_eq state_eq class_eq items_eq Dict.get Dict.set
    Dict.keys subscribe greet has_subscribers request_refresh notify notify_now publish schedule
    cancel
waiting-timer = refl

told-early : is_due 1000000 (data_of EventClass.state told).last_event_time told.now ≡ false
unfolding data_of class_of normalize recovers event_eq state_eq class_eq items_eq Dict.get Dict.set
    Dict.keys subscribe greet has_subscribers request_refresh notify notify_now publish schedule
    cancel
told-early = refl

latest_waits_example :
    (0 ≡ told.next_timer) × (paused_timer ≡ paused_timer) × (waiting.tasks ≡ told.tasks)
unfolding data_of class_of normalize recovers event_eq state_eq class_eq items_eq Dict.get Dict.set
    Dict.keys subscribe greet has_subscribers request_refresh notify notify_now publish schedule
    cancel
latest_waits_example =
    latest_waits paused 1000000 told 0 paused_timer
      (Run-IsValid commands (silent ∷ silent ∷ []) told told-Run) told-early waiting-timer refl refl

abbrev the_first : ℕ
the_first = 0

one_waits_example : the_first ≡ the_first
one_waits_example =
    one_waits commands (silent ∷ silent ∷ silent ∷ []) waiting 0 0 paused_timer paused_timer
      waiting-Run waiting-timer waiting-timer refl refl refl

-- The debounce timer fires while `teardown` waits for the tasks.
abbrev stopping_bus : EventBus
stopping_bus = begin_teardown waiting

stopping-Run : Run commands (silent ∷ silent ∷ silent ∷ silent ∷ []) stopping_bus
stopping-Run = next waiting-Run (stopping waiting)

teardown_stops_example : fire 0 (end_teardown stopping_bus) ≡ end_teardown stopping_bus
teardown_stops_example =
    teardown_stops stopping_bus 0
      (Run-IsValid commands (silent ∷ silent ∷ silent ∷ silent ∷ []) stopping_bus stopping-Run)

abbrev left_behind : EventBus
left_behind = end_teardown (fire 0 stopping_bus)

-- A test: the task of a callback is left.
left_behind-tasks : left_behind.tasks ≡ deliver paused 7 ∷ []
unfolding data_of class_of normalize recovers event_eq state_eq class_eq items_eq Dict.get Dict.set
    Dict.keys Dict.remove subscribe greet has_subscribers request_refresh notify notify_now publish
    schedule cancel fire begin_teardown end_teardown cancel_all
left_behind-tasks = refl

subscribe_greets_example :
    ((data_of EventClass.state (subscribe EventClass.state 8 told)).subscriber_callbacks
      ≡ 7 ∷ 8 ∷ [])
    × ((subscribe EventClass.state 8 told).tasks
        ≡ refresh EventClass.state ∷ deliver cleaning 7 ∷ deliver cleaning 8 ∷ [])
unfolding data_of class_of normalize recovers event_eq state_eq class_eq items_eq Dict.get Dict.set
    Dict.keys subscribe greet has_subscribers request_refresh notify notify_now publish schedule
    cancel
subscribe_greets_example = subscribe_greets EventClass.state 8 told

seven_is_old : the_first + 7 ≢ the_first + 8
seven_is_old h = absurd (omega (arith, h))

state-≢-battery : EventClass.state ≢ EventClass.battery
state-≢-battery h = cc

unsubscribe-subscribe_example :
    (b' : EventBus) × (unsubscribe EventClass.state 8 (subscribe EventClass.state 8 told) ≡ ok b')
    × ((data_of EventClass.state b').subscriber_callbacks
        ≡ (data_of EventClass.state told).subscriber_callbacks)
    × (data_of EventClass.battery b' ≡ data_of EventClass.battery told)
unfolding data_of class_of normalize recovers event_eq state_eq class_eq items_eq Dict.get Dict.set
    Dict.keys subscribe greet has_subscribers request_refresh notify notify_now publish schedule
    cancel
unsubscribe-subscribe_example =
    unsubscribe-subscribe EventClass.state EventClass.battery 8 told (seven_is_old, tt)
      state-≢-battery
