-- ===== src/EventBus/Debounce.antt =====
-- `notify` within the debounce time: the event waits, and only the latest one of a class does.
use client_py.Prelude.{ℕ, ◌≡◌, refl, sym, ap, ◌∙◌, false, some, List, arith, eq_self, nat_keys}
use mathlib.Core.Option.{some-injective}
use client_py.Dict
use client_py.Dict.{get-set}
use client_py.Events.{Event, class_of}
use client_py.Events.Class.{EventClass, class_keys}
use client_py.Command.Base.{Command}
use client_py.EventBus.State.{EventBus, Timer, data_of}
use client_py.EventBus.Notify.{notify, is_due, schedule}
use client_py.EventBus.Invariant.{IsValid}
use client_py.EventBus.Timers.{notify-IsValid, data_of-schedule, get-schedule}
use client_py.EventBus.Publishing.{ready, tasks-ready, next_timer-ready}
use client_py.EventBus.Steps.{Label, Run, Run-IsValid}

notify-early :
    (e : Event) (debounce : ℕ) (b : EventBus)
    → is_due debounce (data_of (class_of e) b).last_event_time b.now ≡ false
    → notify e debounce b ≡ schedule e debounce (ready e b)
unfolding notify
notify-early e debounce b early = rw early

tasks-schedule : (e : Event) (delay : ℕ) (b : EventBus) → (schedule e delay b).tasks ≡ b.tasks
unfolding schedule
tasks-schedule e delay b = refl

-- Two timers of one class that both wait are the same timer, in every bus that a run reaches.
pub one_waits :
    (commands_of : EventClass → List Command) (h : List Label) (b : EventBus) (i j : ℕ)
    (t u : Timer)
    → Run commands_of h b
    → Dict.get i b.timers ≡ some t
    → Dict.get j b.timers ≡ some u
    → t.cancelled ≡ false
    → u.cancelled ≡ false
    → class_of t.event ≡ class_of u.event
    → i ≡ j
one_waits commands_of h b i j t u r p q w x same =
    let v = Run-IsValid commands_of h b r in
    let left = ap (λ c. (data_of c b).notify_handle) same in
    ground (arith, left, v.live i t p w, v.live j u q x)

handle-early :
    (e : Event) (debounce : ℕ) (b : EventBus) (c : EventClass)
    → is_due debounce (data_of (class_of e) b).last_event_time b.now ≡ false
    → c ≡ class_of e
    → (data_of c (notify e debounce b)).notify_handle ≡ some b.next_timer
handle-early e debounce b c early same =
    rw (notify-early e debounce b early, same, data_of-schedule, next_timer-ready)
      (rw (eq_self (class_of e)))

get-early :
    (e : Event) (debounce : ℕ) (b : EventBus)
    → is_due debounce (data_of (class_of e) b).last_event_time b.now ≡ false
    → Dict.get b.next_timer (notify e debounce b).timers
      ≡ some (record { event = e; delay = debounce; cancelled = false })
get-early e debounce b early =
    rw (notify-early e debounce b early, get-schedule, next_timer-ready) (rw (eq_self b.next_timer))

-- An event within its debounce time tells nobody yet. Its timer waits, and it is the only timer of
-- its class that does: an earlier event of the class that was waiting is never delivered.
pub latest_waits :
    (e : Event) (debounce : ℕ) (b : EventBus) (i : ℕ) (t : Timer)
    → IsValid b
    → is_due debounce (data_of (class_of e) b).last_event_time b.now ≡ false
    → Dict.get i (notify e debounce b).timers ≡ some t
    → t.cancelled ≡ false
    → class_of t.event ≡ class_of e
    → (i ≡ b.next_timer)
      × (t ≡ record { event = e; delay = debounce; cancelled = false })
      × ((notify e debounce b).tasks ≡ b.tasks)
latest_waits e debounce b i t v early found w same =
    let waiting = (notify-IsValid e debounce b v).live i t found w in
    let at_class = handle-early e debounce b (class_of t.event) early same in
    let is_new : i ≡ b.next_timer = ground (arith, waiting, at_class) in
    (
      is_new,
      some-injective _ _ (
          sym found
          ∙ ap (λ k. Dict.get k (notify e debounce b).timers) is_new
          ∙ get-early e debounce b early),
      rw (notify-early e debounce b early, tasks-schedule, tasks-ready),
    )
