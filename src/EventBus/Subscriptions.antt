-- ===== src/EventBus/Subscriptions.antt =====
-- `subscribe` and its unsubscriber: what a new subscriber is given, and that leaving undoes joining.
use client_py.Prelude.{
  ℕ, ◌≡◌, ◌≢◌, refl, inl, inr, Bool-cases, Option-cases, true, false, none, some, List, [], ◌∷◌,
  ◌++◌, map, All, length, length-append, is_empty, arith, nat_eq, nat_eq_iff, ok, if◌then◌else◌,
}
use client_py.Dict.{get-set_self}
use client_py.Events.Class.{EventClass, class_keys}
use client_py.EventBus.State.{
  EventBus, ProcessingData, Task, deliver, refresh, data_of, put, spawn, has_subscribers,
  request_refresh,
}
use client_py.EventBus.Subscribe.{
  subscribe, add_subscriber, greet, leave, release, unsubscribe, remove_first, on_subscription_task,
}
use client_py.EventBus.Entries.{
  data_of-put_ne, data_of-put_self, data_of-spawn, spawn-spawn, spawn-nil,
}

-- `list.remove` after `list.append` of a value that was not there.
remove_first-append :
    (x : ℕ) (xs : List ℕ) → All (λ y. y ≢ x) xs → remove_first x (xs ++ x ∷ []) ≡ ok xs
unfolding remove_first
remove_first-append x [] a = ground (arith, nat_eq_iff x x)
remove_first-append x (y ∷ ys) a = ground (arith, remove_first-append x ys a.1, nat_eq_iff y x)

-- The tasks that a new subscriber causes, from the entry before it joined.
abbrev pub greeting : EventClass → ℕ → ProcessingData → List Task
greeting c callback d = elim d.last_event [
  | some e ↦ deliver e callback ∷ []
  | none ↦
      if is_empty d.subscriber_callbacks
      then refresh c ∷ map (on_subscription_task c) d.on_subscription_callbacks
      else []
]

is_first : (xs : List ℕ) (x : ℕ) → nat_eq (length (xs ++ x ∷ [])) 1 ≡ is_empty xs
is_first [] x = refl
is_first (y ∷ ys) x = ground (arith, length-append ys (x ∷ []))

not_empty : (xs : List ℕ) (x : ℕ) → is_empty (xs ++ x ∷ []) ≡ false
not_empty [] x = refl
not_empty (y ∷ ys) x = refl

joined : EventClass → ℕ → EventBus → EventBus
joined c callback b = put c (add_subscriber callback (data_of c b)) b

has_subscribers-joined :
    (c : EventClass) (callback : ℕ) (b : EventBus) → has_subscribers c (joined c callback b) ≡ true
unfolding has_subscribers joined
has_subscribers-joined c callback b =
    rw
      (get-set_self c (add_subscriber callback (data_of c b)) b.processing, has_subscribers, joined)
      (rw not_empty)

request_refresh-joined :
    (c : EventClass) (callback : ℕ) (b : EventBus)
    → request_refresh c (joined c callback b) ≡ spawn (refresh c ∷ []) (joined c callback b)
unfolding request_refresh
request_refresh-joined c callback b = rw (has_subscribers-joined, request_refresh)

greet_lem :
    (c : EventClass) (callback : ℕ) (d : ProcessingData) (b : EventBus)
    → request_refresh c b ≡ spawn (refresh c ∷ []) b
    → greet c callback (add_subscriber callback d) b ≡ spawn (greeting c callback d) b
unfolding greet
greet_lem c callback d b r = elim (Option-cases d.last_event) [
  | inr (e, h) ↦ rw (h, greet)
  | inl h ↦ elim (Bool-cases (is_empty d.subscriber_callbacks)) [
    | inl i ↦ rw (h, greet, is_first, i, r, spawn-spawn)
    | inr i ↦ rw (h, greet, is_first, i, spawn-nil b)
  ]
]

subscribe_lem :
    (c : EventClass) (callback : ℕ) (b : EventBus)
    → subscribe c callback b ≡ spawn (greeting c callback (data_of c b)) (joined c callback b)
unfolding subscribe joined
subscribe_lem c callback b =
    greet_lem c callback (data_of c b) (joined c callback b) (request_refresh-joined c callback b)

-- The tasks that a new subscriber of a class causes: the last event is sent to it alone; with no
-- event yet, the first subscriber causes a refresh and the calls of the on-subscription callbacks,
-- in their order, and a later one causes nothing.
pub subscribe_greets :
    (c : EventClass) (callback : ℕ) (b : EventBus)
    → ((data_of c (subscribe c callback b)).subscriber_callbacks
        ≡ (data_of c b).subscriber_callbacks ++ callback ∷ [])
      × ((subscribe c callback b).tasks ≡ b.tasks ++ greeting c callback (data_of c b))
unfolding joined
subscribe_greets c callback b =
    (rw (subscribe_lem, data_of-spawn, data_of-put_self), rw subscribe_lem)

-- The entry that is left behind.
left_by : List ℕ → ProcessingData → ProcessingData
left_by rest d = record d {
  subscriber_callbacks = rest;
  on_subscription_callbacks =
      (if is_empty rest
        then map release d.on_subscription_callbacks
        else d.on_subscription_callbacks);
}

data_of-leave :
    (c k : EventClass) (d : ProcessingData) (rest : List ℕ) (b : EventBus)
    → data_of k (leave c d rest b) ≡ data_of k (put c (left_by rest d) b)
unfolding leave left_by data_of
data_of-leave c k d rest b = elim (Bool-cases (is_empty rest)) [
  | inl h ↦ rw (h, leave, left_by)
  | inr h ↦ rw (h, leave, left_by)
]

-- A callback that was not subscribed to a class subscribes and leaves: leaving succeeds, the
-- subscribers of the class are as before, and another class keeps its entry.
pub unsubscribe-subscribe :
    (c k : EventClass) (callback : ℕ) (b : EventBus)
    → All (λ other. other ≢ callback) (data_of c b).subscriber_callbacks
    → c ≢ k
    → (b' : EventBus) × (unsubscribe c callback (subscribe c callback b) ≡ ok b')
      × ((data_of c b').subscriber_callbacks ≡ (data_of c b).subscriber_callbacks)
      × (data_of k b' ≡ data_of k b)
unfolding unsubscribe joined left_by
unsubscribe-subscribe c k callback b fresh ne =
    let b0 = subscribe c callback b in
    let d0 = data_of c b0 in
    let rest = (data_of c b).subscriber_callbacks in
    let found : remove_first callback d0.subscriber_callbacks ≡ ok rest =
      rw (subscribe_greets c callback b).0 (remove_first-append callback rest fresh) in
    (
      leave c d0 rest b0,
      rw (found, unsubscribe),
      rw (data_of-leave c c d0 rest b0, data_of-put_self),
      rw (
        data_of-leave c k d0 rest b0,
        data_of-put_ne k c (left_by rest d0) b0 ne,
        subscribe_lem,
        data_of-spawn,
        data_of-put_ne k c (add_subscriber callback (data_of c b)) b ne,
      ),
    )
