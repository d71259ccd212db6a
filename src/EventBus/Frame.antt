-- ===== src/EventBus/Frame.antt =====
-- The operations that touch no event and no timer, and so keep the invariant.
use client_py.Prelude.{
  ℕ, ◌≡◌, refl, subst, ◌∙◌, Result-cases, ok-injective, inl, inr, Bool-cases, Option-cases, Bool,
  true, false, some, List, map, is_empty, ok, if◌then◌else◌,
}
use client_py.Dict
use client_py.Dict.{Dict, get-set}
use client_py.Events.Class.{EventClass, class_keys}
use client_py.Command.Base.{Command}
use client_py.EventBus.State.{
  EventBus, ProcessingData, Task, data_of, put, spawn, request_refresh, has_subscribers,
}
use client_py.EventBus.Subscribe.{
  add_subscriber, leave, subscribe, unsubscribe, greet, remove_first, release,
  add_on_subscription_callback, remove_on_subscription_callback, drop_on_subscription,
  add_on_subscription,
}
use client_py.EventBus.Refresh.{
  start_refresh, finish_refresh, start_call, finish_call, cancel_call, begin_refresh, is_held, hold,
}
use client_py.EventBus.Invariant.{SameEvents, SameEvents-put}

SameEvents-refl : (b : EventBus) → SameEvents b b
SameEvents-refl b = record { last = λ c. refl; handle = λ c. refl; timers = refl; next = refl }

SameEvents-trans : {a b c : EventBus} → SameEvents a b → SameEvents b c → SameEvents a c
SameEvents-trans s t = record {
  last = λ k. t.last k ∙ s.last k;
  handle = λ k. t.handle k ∙ s.handle k;
  timers = t.timers ∙ s.timers;
  next = t.next ∙ s.next;
}

SameEvents-spawn : (ts : List Task) (b : EventBus) → SameEvents b (spawn ts b)
unfolding data_of
SameEvents-spawn ts b = record { last = λ c. refl; handle = λ c. refl; timers = refl; next = refl }

SameEvents-request_refresh : (c : EventClass) (b : EventBus) → SameEvents b (request_refresh c b)
unfolding request_refresh
SameEvents-request_refresh c b = elim (Bool-cases (has_subscribers c b)) [
  | inl h ↦ rw h (SameEvents-spawn _ b)
  | inr h ↦ rw h (SameEvents-refl b)
]

SameEvents-if :
    (t : Bool) (b x y : EventBus)
    → SameEvents b x
    → SameEvents b y
    → SameEvents b (if t then x else y)
SameEvents-if true b x y p q = p
SameEvents-if false b x y p q = q

-- What was executed, called and released is no part of the invariant.
SameEvents-records :
    (b : EventBus) (executed : List Command) (calling released : List ℕ)
    → SameEvents b (record b { executed = executed; calling = calling; released = released })
unfolding data_of
SameEvents-records b executed calling released = record {
  last = λ c. refl;
  handle = λ c. refl;
  timers = refl;
  next = refl;
}

greet-SameEvents :
    (c : EventClass) (callback : ℕ) (d : ProcessingData) (b : EventBus)
    → SameEvents b (greet c callback d b)
unfolding greet
greet-SameEvents c callback d b = elim (Option-cases d.last_event) [
  | inl none_yet ↦
      rw (none_yet, greet)
        (SameEvents-if _ b _ b
          (SameEvents-trans (SameEvents-request_refresh c b) (SameEvents-spawn _ _))
          (SameEvents-refl b))
  | inr (e, found) ↦ rw (found, greet) (SameEvents-spawn _ b)
]

pub subscribe-SameEvents :
    (c : EventClass) (callback : ℕ) (b : EventBus) → SameEvents b (subscribe c callback b)
unfolding subscribe
subscribe-SameEvents c callback b =
    let d = add_subscriber callback (data_of c b) in
    SameEvents-trans (SameEvents-put c d b refl refl) (greet-SameEvents c callback d (put c d b))

leave-SameEvents :
    (c : EventClass) (rest : List ℕ) (b : EventBus) → SameEvents b (leave c (data_of c b) rest b)
unfolding leave
leave-SameEvents c rest b =
    SameEvents-if (is_empty rest) b _ _
      (SameEvents-trans
        (SameEvents-put c
          (record (data_of c b) {
            subscriber_callbacks = rest;
            on_subscription_callbacks = map release (data_of c b).on_subscription_callbacks;
          })
          b refl refl)
        (SameEvents-records _ _ _ _))
      (SameEvents-put c (record (data_of c b) { subscriber_callbacks = rest }) b refl refl)

pub unsubscribe-SameEvents :
    (c : EventClass) (callback : ℕ) (b : EventBus) {b' : EventBus}
    → unsubscribe c callback b ≡ ok b'
    → SameEvents b b'
unfolding unsubscribe
unsubscribe-SameEvents c callback b h =
    elim (Result-cases (remove_first callback (data_of c b).subscriber_callbacks)) [
      | inl (rest, e) ↦
          subst (SameEvents b) (ok-injective (rw (e, unsubscribe) at h)) (leave-SameEvents c rest b)
      | inr (x, e) ↦ cc (rw (e, unsubscribe) at h)
    ]

pub add_on_subscription_callback-SameEvents :
    (c : EventClass) (id : ℕ) (b : EventBus) → SameEvents b (add_on_subscription_callback c id b)
unfolding add_on_subscription_callback
add_on_subscription_callback-SameEvents c id b =
    let d = add_on_subscription id (data_of c b) in
    let s : SameEvents b (put c d b) = SameEvents-put c d b refl refl in
    SameEvents-if (has_subscribers c (put c d b)) b _ _
      (SameEvents-trans s (SameEvents-spawn _ (put c d b))) s

pub remove_on_subscription_callback-SameEvents :
    (c : EventClass) (id : ℕ) (b : EventBus) {b' : EventBus}
    → remove_on_subscription_callback c id b ≡ ok b'
    → SameEvents b b'
unfolding remove_on_subscription_callback
remove_on_subscription_callback-SameEvents c id b h =
    let d = data_of c b in
    elim (Result-cases (drop_on_subscription id d.on_subscription_callbacks)) [
      | inl ((found, others), e) ↦
          subst (SameEvents b) (ok-injective (rw (e, remove_on_subscription_callback) at h)) (
            SameEvents-trans
              (SameEvents-put c (record d { on_subscription_callbacks = others }) b refl refl)
              (SameEvents-records _ _ _ _))
      | inr (x, e) ↦ cc (rw (e, remove_on_subscription_callback) at h)
    ]

pub found-data_of :
    (c : EventClass) (d : ProcessingData) (b : EventBus)
    → Dict.get c b.processing ≡ some d
    → data_of c b ≡ d
unfolding data_of
found-data_of c d b h = rw (h, data_of)

begin_refresh-SameEvents :
    (c : EventClass) (d : ProcessingData) (b : EventBus)
    → data_of c b ≡ d
    → SameEvents b (begin_refresh c d b)
unfolding begin_refresh
begin_refresh-SameEvents c d b h =
    let d' = record d { locked = true } in
    SameEvents-if d.locked b _ _ (SameEvents-refl b) (
      SameEvents-if (is_empty d.refresh_commands) b _ _ (SameEvents-refl b)
        (SameEvents-trans (SameEvents-put c d' b (rw h) (rw h)) (SameEvents-records _ _ _ _)))

pub start_refresh-SameEvents : (c : EventClass) (b : EventBus) → SameEvents b (start_refresh c b)
unfolding start_refresh
start_refresh-SameEvents c b = elim (Option-cases (Dict.get c b.processing)) [
  | inl e ↦ rw (e, start_refresh) (SameEvents-refl b)
  | inr (d, e) ↦ rw (e, start_refresh) (begin_refresh-SameEvents c d b (found-data_of c d b e))
]

pub finish_refresh-SameEvents : (c : EventClass) (b : EventBus) → SameEvents b (finish_refresh c b)
unfolding finish_refresh
finish_refresh-SameEvents c b = elim (Option-cases (Dict.get c b.processing)) [
  | inl e ↦ rw (e, finish_refresh) (SameEvents-refl b)
  | inr (d, e) ↦
      rw (e, finish_refresh)
        (let same = found-data_of c d b e in
          SameEvents-put c (record d { locked = false }) b (rw same) (rw same))
]

pub start_call-SameEvents :
    (c : EventClass) (id : ℕ) (b : EventBus) → SameEvents b (start_call c id b)
unfolding start_call
start_call-SameEvents c id b =
    SameEvents-if (is_held id (data_of c b).on_subscription_callbacks) b _ _ (SameEvents-refl b)
      (SameEvents-records b _ _ _)

pub finish_call-SameEvents :
    (c : EventClass) (id u : ℕ) (b : EventBus) → SameEvents b (finish_call c id u b)
unfolding finish_call
finish_call-SameEvents c id u b = elim (Result-cases (remove_first id b.calling)) [
  | inl (rest, e) ↦
      let d = data_of c b in
      let d' = record d {
        on_subscription_callbacks = map (hold id u) d.on_subscription_callbacks;
      } in
      rw (e, finish_call)
        (SameEvents-trans (SameEvents-put c d' b refl refl) (SameEvents-records _ _ _ _))
  | inr (x, e) ↦ rw (e, finish_call) (SameEvents-refl b)
]

-- Nor are the tasks and the time.
pub SameEvents-task :
    (tasks : List Task) (now : ℕ) (b : EventBus)
    → SameEvents b (record b { tasks = tasks; now = now })
unfolding data_of
SameEvents-task tasks now b = record {
  last = λ c. refl;
  handle = λ c. refl;
  timers = refl;
  next = refl;
}

pub cancel_call-SameEvents : (id : ℕ) (b : EventBus) → SameEvents b (cancel_call id b)
unfolding cancel_call
cancel_call-SameEvents id b = elim (Result-cases (remove_first id b.calling)) [
  | inl (rest, e) ↦ rw (e, cancel_call) (SameEvents-records b _ _ _)
  | inr (x, e) ↦ rw (e, cancel_call) (SameEvents-refl b)
]
