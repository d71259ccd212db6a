-- ===== src/EventBus/Locks.antt =====
-- The operations that leave every refresh semaphore as it was.
use client_py.Prelude.{
  ℕ, ◌≡◌, refl, ap, ◌∙◌, subst, inl, inr, Bool-cases, Option-cases, Result-cases, ok-injective,
  Bool, true, false, Option, none, some, List, map, is_empty, ok, arith, if◌then◌else◌, nat_keys,
}
use client_py.Dict
use client_py.Dict.{Dict}
use client_py.Events.{Event, class_of}
use client_py.Events.Class.{EventClass, class_eq, class_eq_iff, class_keys}
use client_py.Command.Base.{Command}
use client_py.EventBus.State.{
  EventBus, ProcessingData, Task, Timer, data_of, put, request_refresh, has_subscribers,
}
use client_py.EventBus.Subscribe.{
  subscribe, add_subscriber, greet, leave, unsubscribe, remove_first, release, add_on_subscription,
  add_on_subscription_callback, remove_on_subscription_callback, drop_on_subscription,
}
use client_py.EventBus.Notify.{notify, notify_now, schedule, fire, cancel_handle, is_due}
use client_py.EventBus.Refresh.{start_call, finish_call, cancel_call, is_held, hold}
use client_py.EventBus.Entries.{data_of-put}
use client_py.EventBus.Delivery.{data_of-notify_now}
use client_py.EventBus.Timers.{data_of-schedule}

pub record SameLocks (b b' : EventBus) : Type 0 where
  pub locks : (c : EventClass) → (data_of c b').locked ≡ (data_of c b).locked

SameLocks-refl : (b : EventBus) → SameLocks b b
SameLocks-refl b = record { locks = λ c. refl }

SameLocks-trans : {a b c : EventBus} → SameLocks a b → SameLocks b c → SameLocks a c
SameLocks-trans s t = record { locks = λ k. t.locks k ∙ s.locks k }

SameLocks-if :
    (t : Bool) (b x y : EventBus) → SameLocks b x → SameLocks b y → SameLocks b (if t then x else y)
SameLocks-if true b x y p q = p
SameLocks-if false b x y p q = q

SameLocks-put :
    (k : EventClass) (d : ProcessingData) (b : EventBus)
    → d.locked ≡ (data_of k b).locked
    → SameLocks b (put k d b)
SameLocks-put k d b p = record {
  locks = λ c. ground (arith, data_of-put c k d b, class_eq_iff k c);
}

-- The lists and the timers of a bus hold no semaphore.
pub SameLocks-rest :
    (b : EventBus) (tasks : List Task) (timers : Dict ℕ Timer) (next_timer : ℕ)
    (executed : List Command) (calling released : List ℕ)
    → SameLocks b (record b {
      tasks = tasks;
      timers = timers;
      next_timer = next_timer;
      executed = executed;
      calling = calling;
      released = released;
    })
unfolding data_of
SameLocks-rest b tasks timers next_timer executed calling released = record { locks = λ c. refl }

greet-SameLocks :
    (c : EventClass) (callback : ℕ) (d : ProcessingData) (b : EventBus)
    → SameLocks b (greet c callback d b)
unfolding greet request_refresh data_of
greet-SameLocks c callback d b = record { locks = λ k. ground arith }

pub subscribe-SameLocks :
    (c : EventClass) (callback : ℕ) (b : EventBus) → SameLocks b (subscribe c callback b)
unfolding subscribe
subscribe-SameLocks c callback b =
    let d = add_subscriber callback (data_of c b) in
    SameLocks-trans (SameLocks-put c d b refl) (greet-SameLocks c callback d (put c d b))

leave-SameLocks :
    (c : EventClass) (rest : List ℕ) (b : EventBus) → SameLocks b (leave c (data_of c b) rest b)
unfolding leave
leave-SameLocks c rest b =
    let d = record (data_of c b) { subscriber_callbacks = rest } in
    let d' = record d { on_subscription_callbacks = map release d.on_subscription_callbacks } in
    SameLocks-if (is_empty rest) b _ _
      (SameLocks-trans (SameLocks-put c d' b refl) (SameLocks-rest (put c d' b) _ _ _ _ _ _))
      (SameLocks-put c d b refl)

pub unsubscribe-SameLocks :
    (c : EventClass) (callback : ℕ) (b : EventBus) {b' : EventBus}
    → unsubscribe c callback b ≡ ok b'
    → SameLocks b b'
unfolding unsubscribe
unsubscribe-SameLocks c callback b h =
    elim (Result-cases (remove_first callback (data_of c b).subscriber_callbacks)) [
      | inl (rest, e) ↦
          subst (SameLocks b) (ok-injective (rw (e, unsubscribe) at h)) (leave-SameLocks c rest b)
      | inr (x, e) ↦ cc (rw (e, unsubscribe) at h)
    ]

pub add_on_subscription_callback-SameLocks :
    (c : EventClass) (id : ℕ) (b : EventBus) → SameLocks b (add_on_subscription_callback c id b)
unfolding add_on_subscription_callback
add_on_subscription_callback-SameLocks c id b =
    let d = add_on_subscription id (data_of c b) in
    let s : SameLocks b (put c d b) = SameLocks-put c d b refl in
    SameLocks-if (has_subscribers c (put c d b)) b _ _
      (SameLocks-trans s (SameLocks-rest (put c d b) _ _ _ _ _ _)) s

pub remove_on_subscription_callback-SameLocks :
    (c : EventClass) (id : ℕ) (b : EventBus) {b' : EventBus}
    → remove_on_subscription_callback c id b ≡ ok b'
    → SameLocks b b'
unfolding remove_on_subscription_callback
remove_on_subscription_callback-SameLocks c id b h =
    let d = data_of c b in
    elim (Result-cases (drop_on_subscription id d.on_subscription_callbacks)) [
      | inl ((found, others), e) ↦
          let d' = record d { on_subscription_callbacks = others } in
          subst (SameLocks b) (ok-injective (rw (e, remove_on_subscription_callback) at h))
            (SameLocks-trans (SameLocks-put c d' b refl) (SameLocks-rest (put c d' b) _ _ _ _ _ _))
      | inr (x, e) ↦ cc (rw (e, remove_on_subscription_callback) at h)
    ]

notify_now-SameLocks : (e : Event) (b : EventBus) → SameLocks b (notify_now e b)
notify_now-SameLocks e b = record {
  locks = λ c. elim (Bool-cases (class_eq (class_of e) c)) [
    | inl is ↦
        rw (data_of-notify_now, is)
          (ap (λ k. (data_of k b).locked) ((class_eq_iff (class_of e) c).0 is))
    | inr other ↦ rw (data_of-notify_now, other)
  ];
}

schedule-SameLocks : (e : Event) (delay : ℕ) (b : EventBus) → SameLocks b (schedule e delay b)
schedule-SameLocks e delay b = record {
  locks = λ c. ground (arith, data_of-schedule c e delay b, class_eq_iff (class_of e) c);
}

cancel_handle-SameLocks : (o : Option ℕ) (b : EventBus) → SameLocks b (cancel_handle o b)
cancel_handle-SameLocks none b = SameLocks-refl b
cancel_handle-SameLocks (some i) b = SameLocks-rest b _ _ _ _ _ _

pub notify-SameLocks : (e : Event) (debounce : ℕ) (b : EventBus) → SameLocks b (notify e debounce b)
unfolding notify
notify-SameLocks e debounce b =
    let c = class_of e in
    let d = data_of c b in
    let b1 = cancel_handle d.notify_handle (put c d b) in
    let s : SameLocks b b1 =
      SameLocks-trans (SameLocks-put c d b refl)
        (cancel_handle-SameLocks d.notify_handle (put c d b)) in
    SameLocks-if (is_due debounce d.last_event_time b.now) b _ _
      (SameLocks-trans s (notify_now-SameLocks e b1))
      (SameLocks-trans s (schedule-SameLocks e debounce b1))

pub fire-SameLocks : (i : ℕ) (b : EventBus) → SameLocks b (fire i b)
unfolding fire
fire-SameLocks i b = elim (Option-cases (Dict.get i b.timers)) [
  | inl gone ↦ rw (gone, fire) (SameLocks-refl b)
  | inr (t, found) ↦
      let b' = record b { timers = Dict.remove i b.timers } in
      rw (found, fire)
        (SameLocks-if t.cancelled b _ _ (SameLocks-refl b)
          (SameLocks-trans (SameLocks-rest b _ _ _ _ _ _) (notify_now-SameLocks t.event b')))
]

pub start_call-SameLocks :
    (c : EventClass) (id : ℕ) (b : EventBus) → SameLocks b (start_call c id b)
unfolding start_call
start_call-SameLocks c id b =
    SameLocks-if (is_held id (data_of c b).on_subscription_callbacks) b _ _ (SameLocks-refl b)
      (SameLocks-rest b _ _ _ _ _ _)

pub finish_call-SameLocks :
    (c : EventClass) (id u : ℕ) (b : EventBus) → SameLocks b (finish_call c id u b)
unfolding finish_call
finish_call-SameLocks c id u b = elim (Result-cases (remove_first id b.calling)) [
  | inl (rest, e) ↦
      let d = data_of c b in
      let d' = record d {
        on_subscription_callbacks = map (hold id u) d.on_subscription_callbacks;
      } in
      rw (e, finish_call)
        (SameLocks-trans (SameLocks-put c d' b refl) (SameLocks-rest (put c d' b) _ _ _ _ _ _))
  | inr (x, e) ↦ rw (e, finish_call) (SameLocks-refl b)
]

pub cancel_call-SameLocks : (id : ℕ) (b : EventBus) → SameLocks b (cancel_call id b)
unfolding cancel_call
cancel_call-SameLocks id b = elim (Result-cases (remove_first id b.calling)) [
  | inl (rest, e) ↦ rw (e, cancel_call) (SameLocks-rest b _ _ _ _ _ _)
  | inr (x, e) ↦ rw (e, cancel_call) (SameLocks-refl b)
]

pub SameLocks-tick : (now : ℕ) (b : EventBus) → SameLocks b (record b { now = now })
unfolding data_of
SameLocks-tick now b = record { locks = λ c. refl }
