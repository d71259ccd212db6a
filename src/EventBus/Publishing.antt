-- ===== src/EventBus/Publishing.antt =====
-- `notify` when it delivers at once: what is stored, who is told, and the two special events.
use client_py.Prelude.{
  ℕ, ◌≡◌, refl, ap, ◌∙◌, inl, inr, Bool-cases, Option-cases, Bool, true, false, Option, none, some,
  List, [], ◌++◌, map, keep, not, is_empty, arith, if◌then◌else◌,
}
use mathlib.Core.Path.{fun_ext}
use mathlib.Core.List.{append-nil}
use client_py.Dict
use client_py.Dict.{get-set_self, keys-set}
use client_py.Models.{State, state_eq}
use client_py.Value.{items_eq, value_eq}
use client_py.Events.{Event, class_of, event_eq, state, availability}
use client_py.Events.Class.{EventClass, class_eq, class_eq_iff, class_keys}
use client_py.EventBus.State.{
  EventBus, ProcessingData, Task, deliver, refresh, data_of, put, has_subscribers,
}
use client_py.EventBus.Notify.{
  notify, notify_now, is_due, cancel_handle, normalize, recovers, same_as_last,
}
use client_py.EventBus.Entries.{data_of-put, refreshes, is_refreshed}
use client_py.EventBus.Delivery.{data_of-notify_now, tasks-notify_now, recovery, notified}

-- The bus in which `notify` calls `_notify`: the entry is there and its handle is cancelled.
abbrev pub ready : Event → EventBus → EventBus
ready e b = let d = data_of (class_of e) b in cancel_handle d.notify_handle (put (class_of e) d b)

-- Writing an entry back changes no entry.
data_of_self : (c k : EventClass) (b : EventBus) → data_of k (put c (data_of c b) b) ≡ data_of k b
data_of_self c k b = ground (arith, data_of-put k c (data_of c b) b, class_eq_iff c k)

module _ (e : Event) (b : EventBus) where
  handle : Option ℕ
  handle = (data_of (class_of e) b).notify_handle

  data_of-ready : (k : EventClass) → data_of k (ready e b) ≡ data_of k b
  unfolding handle data_of
  data_of-ready k = elim (Option-cases handle) [
    | inl h ↦ rw h (data_of_self (class_of e) k b)
    | inr (i, h) ↦ rw h (data_of_self (class_of e) k b)
  ]

  pub tasks-ready : (ready e b).tasks ≡ b.tasks
  unfolding handle
  tasks-ready = elim (Option-cases handle) [ inl h ↦ rw h | inr (i, h) ↦ rw h ]

  pub next_timer-ready : (ready e b).next_timer ≡ b.next_timer
  unfolding handle
  next_timer-ready = elim (Option-cases handle) [ inl h ↦ rw h | inr (i, h) ↦ rw h ]

  now-ready : (ready e b).now ≡ b.now
  unfolding handle
  now-ready = elim (Option-cases handle) [ inl h ↦ rw h | inr (i, h) ↦ rw h ]

  processing-ready :
      (ready e b).processing ≡ Dict.set (class_of e) (data_of (class_of e) b) b.processing
  unfolding handle
  processing-ready = elim (Option-cases handle) [ inl h ↦ rw h | inr (i, h) ↦ rw h ]

has_subscribers_lem :
    (k : EventClass) (b : EventBus)
    → has_subscribers k b ≡ not (is_empty (data_of k b).subscriber_callbacks)
unfolding has_subscribers data_of
has_subscribers_lem k b = ground arith

-- Who is subscribed decides what the device's return refreshes.
refreshes_same :
    (b b' : EventBus) (cs : List EventClass)
    → ((k : EventClass) → (data_of k b').subscriber_callbacks ≡ (data_of k b).subscriber_callbacks)
    → refreshes b' cs ≡ refreshes b cs
unfolding refreshes
refreshes_same b b' cs same =
    ap (λ p. map refresh (keep p cs))
      (fun_ext (λ k.
        unfold is_refreshed in rw (has_subscribers_lem k b', has_subscribers_lem k b, same k)))

-- The keys of the dict after the writes of `notify`, where the class had an entry.
keys-notified :
    (c : EventClass) (d x : ProcessingData) (b : EventBus)
    → Dict.get c b.processing ≡ some d
    → Dict.keys (Dict.set c x (Dict.set c d b.processing)) ≡ Dict.keys b.processing
keys-notified c d x b h =
    keys-set c x d (Dict.set c d b.processing) (get-set_self c d b.processing)
    ∙ keys-set c d d b.processing h

recovers-known :
    (e : Event) (last : Option Event) → recovers e last ≡ true → (l : Event) × (last ≡ some l)
unfolding recovers
recovers-known e none h = ground arith
recovers-known e (some l) h = (l, refl)

known_entry :
    (c : EventClass) (l : Event) (b : EventBus)
    → (data_of c b).last_event ≡ some l
    → Dict.get c b.processing ≡ some (data_of c b)
unfolding data_of
known_entry c l b h = elim (Option-cases (Dict.get c b.processing)) [
  | inl gone ↦ cc (rw (gone, data_of) at h)
  | inr (d, found) ↦ rw (found, data_of)
]

-- The bus in which `_notify` goes over the classes.
abbrev swept : Event → EventBus → EventBus
swept e b = put (class_of e) (notified e (ready e b)) (ready e b)

subscribers-swept :
    (e : Event) (b : EventBus) (k : EventClass)
    → (data_of k (swept e b)).subscriber_callbacks ≡ (data_of k b).subscriber_callbacks
subscribers-swept e b k = elim (Bool-cases (class_eq (class_of e) k)) [
  | inl is ↦
      rw (data_of-put, is, data_of-ready)
        (ap (λ c. (data_of c b).subscriber_callbacks) ((class_eq_iff (class_of e) k).0 is))
  | inr other ↦ rw (data_of-put, other, data_of-ready)
]

refreshes-swept :
    (e : Event) (b : EventBus)
    → recovers e (data_of (class_of e) b).last_event ≡ true
    → refreshes (swept e b) (Dict.keys (swept e b).processing)
      ≡ refreshes b (Dict.keys b.processing)
refreshes-swept e b h =
    let c = class_of e in
    let (l, known) = recovers-known e (data_of c b).last_event h in
    refreshes_same b (swept e b) (Dict.keys (swept e b).processing) (subscribers-swept e b)
    ∙ ap (λ ps. refreshes b (Dict.keys (Dict.set c (notified e (ready e b)) ps)))
        (processing-ready e b)
    ∙ ap (refreshes b)
        (keys-notified c (data_of c b) (notified e (ready e b)) b (known_entry c l b known))

recovery-ready :
    (e : Event) (b : EventBus)
    → recovery e (ready e b) ≡ (
        if recovers e (data_of (class_of e) b).last_event
        then refreshes b (Dict.keys b.processing)
        else [])
recovery-ready e b =
    let again = recovers e (data_of (class_of e) b).last_event in
    ap
      (λ d.
        if recovers e d.last_event
        then refreshes (swept e b) (Dict.keys (swept e b).processing)
        else [])
      (data_of-ready e b (class_of e))
    ∙ (elim (Bool-cases again) [ inl h ↦ rw h (refreshes-swept e b h) | inr h ↦ rw h ])

notify-due :
    (e : Event) (debounce : ℕ) (b : EventBus)
    → is_due debounce (data_of (class_of e) b).last_event_time b.now ≡ true
    → notify e debounce b ≡ notify_now e (ready e b)
unfolding notify
notify-due e debounce b due = rw due

-- An event whose debounce time has passed: its entry gets the time of the bus and loses its handle,
-- and every other entry stays. The event, or docked for an idle robot that was docked, becomes the
-- last one and each subscriber of the class is told of it, in the order of subscription, unless it
-- equals the last one; then nobody is told. If it says that the device is back, every subscribed
-- class but availability is refreshed first, in the order of the dict.
pub notify_delivers :
    (e : Event) (debounce : ℕ) (b : EventBus) (k : EventClass)
    → is_due debounce (data_of (class_of e) b).last_event_time b.now ≡ true
    → let d = data_of (class_of e) b in
      let e' = normalize e d.last_event in
      let old = same_as_last e' d.last_event in
      (data_of k (notify e debounce b) ≡ (
        if class_eq (class_of e) k
        then record d {
          last_event_time = b.now;
          notify_handle = none;
          last_event = if old then d.last_event else some e';
        }
        else data_of k b))
      × ((notify e debounce b).tasks
          ≡ (b.tasks
              ++ (if recovers e d.last_event
                  then map refresh (keep (is_refreshed b) (Dict.keys b.processing))
                  else []))
            ++ (if old then [] else map (deliver e') d.subscriber_callbacks))
unfolding refreshes
notify_delivers e debounce b k due = (
  rw (
    notify-due e debounce b due,
    data_of-notify_now,
    data_of-ready,
    data_of-ready e b k,
    now-ready,
  ),
  rw (notify-due e debounce b due, tasks-notify_now, recovery-ready, tasks-ready, data_of-ready),
)

-- A docked robot that is reported idle stays docked, and nobody is told.
pub idle_stays_docked :
    (debounce : ℕ) (b : EventBus)
    → (data_of EventClass.state b).last_event ≡ some (state State.docked)
    → is_due debounce (data_of EventClass.state b).last_event_time b.now ≡ true
    → ((data_of EventClass.state (notify (state State.idle) debounce b)).last_event
        ≡ some (state State.docked))
      × ((notify (state State.idle) debounce b).tasks ≡ b.tasks)
unfolding class_of normalize recovers event_eq state_eq class_eq items_eq
idle_stays_docked debounce b docked due =
    let (entry, tasks) = notify_delivers (state State.idle) debounce b EventClass.state due in
    (rw (entry, docked), rw (tasks, docked, append-nil, append-nil))

same_unavailable :
    (old : Bool) (last : Option Event)
    → same_as_last (availability false) last ≡ old
    → same_as_last (availability false) (if old then last else some (availability false)) ≡ true
unfolding event_eq class_eq items_eq value_eq class_of
same_unavailable true last h = h
same_unavailable false last h = refl

-- That the robot is not available becomes the last availability, and is told unless it was the last.
pub unavailable_is_told :
    (b : EventBus)
    → let d = data_of EventClass.availability b in
      (same_as_last
          (availability false)
          (data_of EventClass.availability (notify (availability false) 0 b)).last_event
        ≡ true)
      × ((notify (availability false) 0 b).tasks
          ≡ b.tasks
            ++ (if same_as_last (availability false) d.last_event
                then []
                else map (deliver (availability false)) d.subscriber_callbacks))
unfolding class_of normalize recovers class_eq
unavailable_is_told b =
    let d = data_of EventClass.availability b in
    let (entry, tasks) = notify_delivers (availability false) 0 b EventClass.availability refl in
    (
      ap (λ (x : ProcessingData). same_as_last (availability false) x.last_event) entry
          ∙ same_unavailable (same_as_last (availability false) d.last_event) d.last_event refl,
      tasks
          ∙ ap
              (λ (l : List Task).
                l
                ++ (if same_as_last (availability false) d.last_event
                    then []
                    else map (deliver (availability false)) d.subscriber_callbacks))
              (append-nil b.tasks),
    )
