-- ===== src/EventBus/Delivery.antt =====
-- What `_notify` leaves in the bus: the entry of the event's class, every other entry, the tasks.
use client_py.Prelude.{
  ◌≡◌, refl, sym, ap, ◌∙◌, inl, inr, Bool-cases, Bool, true, false, Option, none, some, List, [],
  ◌++◌, map, arith, if◌then◌else◌,
}
use client_py.Dict
use client_py.Dict.{Dict}
use client_py.Events.{Event, class_of, state}
use client_py.Events.Class.{EventClass, class_eq, class_keys}
use client_py.EventBus.State.{EventBus, ProcessingData, Task, deliver, data_of, put, spawn}
use client_py.EventBus.Notify.{same_as_last, normalize, recovers, refresh_all, publish, notify_now}
use client_py.EventBus.Entries.{
  refreshes, refresh_all-eq-spawn, data_of-put, spawn-nil, data_of-spawn,
}

-- Normalising keeps the class, so the event is stored under its own class.
pub class_of-normalize :
    (e : Event) (last : Option Event) → class_of (normalize e last) ≡ class_of e
unfolding normalize class_of
class_of-normalize (state s) last = ground arith
class_of-normalize _ last = refl

-- The entry that `_notify` works on.
abbrev pub notified : Event → EventBus → ProcessingData
notified e b = record (data_of (class_of e) b) { last_event_time = b.now; notify_handle = none }

-- The entry that `_notify` leaves.
abbrev pub published : Event → EventBus → ProcessingData
published e b =
    let last = (data_of (class_of e) b).last_event in
    let e' = normalize e last in
    record (notified e b) { last_event = if same_as_last e' last then last else some e' }

-- The deliveries, in the order of the subscriptions.
abbrev pub deliveries : Event → EventBus → List Task
deliveries e b =
    let d = data_of (class_of e) b in
    let e' = normalize e d.last_event in
    if same_as_last e' d.last_event then [] else map (deliver e') d.subscriber_callbacks

-- The refreshes that an event asks for: those of all classes when the device is back.
abbrev pub recovery : Event → EventBus → List Task
recovery e b =
    if recovers e (data_of (class_of e) b).last_event
    then refreshes (put (class_of e) (notified e b) b)
        (Dict.keys (put (class_of e) (notified e b) b).processing)
    else []

-- The bus after `_notify`, in one expression.
abbrev pub notified_bus : Event → EventBus → EventBus
notified_bus e b =
    let b1 = put (class_of e) (notified e b) b in
    let last = (data_of (class_of e) b).last_event in
    spawn (deliveries e b) (
      if same_as_last (normalize e last) last
      then spawn (recovery e b) b1
      else put (class_of e) (published e b) (spawn (recovery e b) b1))

publish_lem :
    (e : Event) (d : ProcessingData) (b : EventBus)
    → publish e d b
      ≡ spawn (if same_as_last e d.last_event then [] else map (deliver e) d.subscriber_callbacks) (
          if same_as_last e d.last_event
          then b
          else put (class_of e) (record d { last_event = some e }) b)
unfolding publish
publish_lem e d b = elim (Bool-cases (same_as_last e d.last_event)) [
  | inl same ↦ rw same (sym (spawn-nil b))
  | inr new ↦ rw new
]

recovery_lem :
    (again : Bool) (cs : List EventClass) (b : EventBus)
    → (if again then refresh_all cs b else b) ≡ spawn (if again then refreshes b cs else []) b
recovery_lem true cs b = refresh_all-eq-spawn cs b
recovery_lem false cs b = sym (spawn-nil b)

pub notify_now_lem : (e : Event) (b : EventBus) → notify_now e b ≡ notified_bus e b
unfolding notify_now
notify_now_lem e b =
    let last = (data_of (class_of e) b).last_event in
    rw (publish_lem, recovery_lem, class_of-normalize)
      (elim (Bool-cases (same_as_last (normalize e last) last)) [
        | inl same ↦ rw same
        | inr new ↦ rw new
      ])

data_of-choice :
    (s : Bool) (k c : EventClass) (d d' : ProcessingData) (ts : List Task) (b : EventBus)
    → data_of k (if s then spawn ts (put c d b) else put c d' (spawn ts (put c d b)))
      ≡ (if class_eq c k then (if s then d else d') else data_of k b)
data_of-choice true k c d d' ts b = data_of-spawn k ts (put c d b) ∙ data_of-put k c d b
data_of-choice false k c d d' ts b = ground (
  arith,
  data_of-put k c d' (spawn ts (put c d b)),
  data_of-spawn k ts (put c d b),
  data_of-put k c d b,
)

module _ (e : Event) (b : EventBus) where
  same : Bool
  same = let last = (data_of (class_of e) b).last_event in same_as_last (normalize e last) last

  same-published : (if same then notified e b else published e b) ≡ published e b
  unfolding same
  same-published = elim (Bool-cases same) [ inl h ↦ rw h | inr h ↦ rw h ]

  pub data_of-notify_now :
      (k : EventClass)
      → data_of k (notify_now e b)
        ≡ (if class_eq (class_of e) k then published e b else data_of k b)
  unfolding same
  data_of-notify_now k =
      rw (notify_now_lem, data_of-spawn)
        (data_of-choice same k (class_of e) _ _ (recovery e b) b
          ∙ ap (λ d. if class_eq (class_of e) k then d else data_of k b) same-published)

  pub timers-notify_now : (notify_now e b).timers ≡ b.timers
  unfolding same
  timers-notify_now = rw notify_now_lem (elim (Bool-cases same) [ inl h ↦ rw h | inr h ↦ rw h ])

  pub next_timer-notify_now : (notify_now e b).next_timer ≡ b.next_timer
  unfolding same
  next_timer-notify_now = rw notify_now_lem (elim (Bool-cases same) [ inl h ↦ rw h | inr h ↦ rw h ])

  pub tasks-notify_now : (notify_now e b).tasks ≡ (b.tasks ++ recovery e b) ++ deliveries e b
  unfolding same
  tasks-notify_now = rw notify_now_lem (elim (Bool-cases same) [ inl h ↦ rw h | inr h ↦ rw h ])
