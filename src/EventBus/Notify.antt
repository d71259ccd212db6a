-- ===== src/EventBus/Notify.antt =====
-- `notify`: the debounce timer, the two special events, and the delivery.
use client_py.Prelude.{
  ℕ, suc, ◌+◌, Bool, true, false, ◌&&◌, ◌||◌, not, Option, none, some, List, [], ◌∷◌, map, nat_eq,
  ltb, nat_keys, if◌then◌else◌,
}
use client_py.Dict
use client_py.Dict.{Dict}
use client_py.Models.{State, state_eq}
use client_py.Events.{Event, state, availability, class_of, event_eq}
use client_py.Events.Class.{EventClass, class_eq, class_keys}
use client_py.EventBus.State.{
  EventBus, ProcessingData, deliver, Timer, data_of, put, spawn, request_refresh,
}

-- `isinstance(event, StateEvent) and event.state == s`
abbrev pub is_state : State → Event → Bool
is_state s (state t) = state_eq t s
is_state s _ = false

-- `isinstance(event, AvailabilityEvent) and event.available`
abbrev pub is_available : Event → Bool
is_available (availability a) = a
is_available _ = false

-- `not event.available` on an event that is known to be an `AvailabilityEvent`
abbrev pub is_unavailable : Event → Bool
is_unavailable (availability a) = not a
is_unavailable _ = false

abbrev pub last_is : (Event → Bool) → Option Event → Bool
last_is p none = false
last_is p (some e) = p e

-- An idle robot that was last seen docked is reported as docked.
unfoldable pub normalize : Event → Option Event → Event
normalize e last =
    if is_state State.idle e && last_is (is_state State.docked) last then state State.docked else e

unfoldable pub refresh_all : List EventClass → EventBus → EventBus
refresh_all [] b = b
refresh_all (c ∷ cs) b =
    refresh_all cs (if class_eq c EventClass.availability then b else request_refresh c b)

-- Whether the event says that the device is back.
unfoldable pub recovers : Event → Option Event → Bool
recovers e last =
    not (is_state State.idle e && last_is (is_state State.docked) last)
    && is_available e
    && last_is is_unavailable last

abbrev pub same_as_last : Event → Option Event → Bool
same_as_last e last = last_is (event_eq e) last

-- The end of `_notify`: an event that equals the last one is skipped.
unfoldable pub publish : Event → ProcessingData → EventBus → EventBus
publish e d b =
    if same_as_last e d.last_event
    then b
    else spawn (map (deliver e) d.subscriber_callbacks)
        (put (class_of e) (record d { last_event = some e }) b)

-- `_notify`, on the entry of the event's class.
unfoldable pub notify_now : Event → EventBus → EventBus
notify_now e b =
    let d0 = data_of (class_of e) b in
    let d = record d0 { last_event_time = b.now; notify_handle = none } in
    let b1 = put (class_of e) d b in
    publish (normalize e d.last_event) d
      (if recovers e d.last_event then refresh_all (Dict.keys b1.processing) b1 else b1)

-- `handle.cancel()`
unfoldable pub cancel : ℕ → Dict ℕ Timer → Dict ℕ Timer
cancel i ts = elim (Dict.get i ts) [
  | none ↦ ts
  | some t ↦ Dict.set i (record t { cancelled = true }) ts
]

abbrev pub cancel_handle : Option ℕ → EventBus → EventBus
cancel_handle none b = b
cancel_handle (some i) b = record b { timers = cancel i b.timers }

-- `call_later(debounce_time, _notify, event)`, stored in the entry.
unfoldable pub schedule : Event → ℕ → EventBus → EventBus
schedule e delay b =
    record (put (class_of e) (record (data_of (class_of e) b) { notify_handle = some b.next_timer })
      b) {
        timers =
            Dict.set b.next_timer (record { event = e; delay = delay; cancelled = false }) b.timers;
        next_timer = suc b.next_timer;
      }

-- `debounce_time <= 0 or now - last_event_time > debounce_time`
abbrev pub is_due : ℕ → ℕ → ℕ → Bool
is_due debounce last now = nat_eq debounce 0 || ltb (last + debounce) now

unfoldable pub notify : Event → ℕ → EventBus → EventBus
notify e debounce b =
    let d = data_of (class_of e) b in
    let b1 = cancel_handle d.notify_handle (put (class_of e) d b) in
    if is_due debounce d.last_event_time b.now then notify_now e b1 else schedule e debounce b1

-- The loop calls `_notify` for a timer that was not cancelled, and forgets the timer.
unfoldable pub fire : ℕ → EventBus → EventBus
fire i b = elim (Dict.get i b.timers) [
  | none ↦ b
  | some t ↦
      if t.cancelled then b else notify_now t.event (record b { timers = Dict.remove i b.timers })
]
