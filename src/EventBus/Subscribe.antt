-- ===== src/EventBus/Subscribe.antt =====
-- `subscribe`, `add_on_subscription_callback` and the functions that they return.
use client_py.Prelude.{
  ℕ, none, some, List, [], ◌∷◌, ◌++◌, map, length, is_empty, nat_eq, Result, ok, err, value_error,
  if◌then◌else◌,
}
use client_py.Events.Class.{EventClass}
use client_py.EventBus.State.{
  EventBus, ProcessingData, OnSubscription, Task, deliver, call_on_subscription, data_of, put,
  spawn, has_subscribers, request_refresh,
}

pub on_subscription_task : EventClass → OnSubscription → Task
on_subscription_task c s = call_on_subscription c s.id

abbrev pub add_subscriber : ℕ → ProcessingData → ProcessingData
add_subscriber callback d = record d {
  subscriber_callbacks = d.subscriber_callbacks ++ callback ∷ [];
}

-- After the callback was appended: the last event, or the first subscriber's refresh.
unfoldable pub greet : EventClass → ℕ → ProcessingData → EventBus → EventBus
greet c callback d b = elim d.last_event [
  | some e ↦ spawn (deliver e callback ∷ []) b
  | none ↦
      if nat_eq (length d.subscriber_callbacks) 1
      then spawn (map (on_subscription_task c) d.on_subscription_callbacks) (request_refresh c b)
      else b
]

unfoldable pub subscribe : EventClass → ℕ → EventBus → EventBus
subscribe c callback b =
    let d = add_subscriber callback (data_of c b) in greet c callback d (put c d b)

-- `list.remove(x)`: the first that is equal, or `ValueError`.
unfoldable pub remove_first : ℕ → List ℕ → Result (List ℕ)
remove_first x [] = err value_error
remove_first x (y ∷ ys) =
    let rest = remove_first x ys in
    if nat_eq y x then ok ys else elim rest [ ok zs ↦ ok (y ∷ zs) | err e ↦ err e ]

-- `_OnSubscriptionCallback.unsubscribe`, on each of a list: the functions called, in order.
unfoldable pub held : List OnSubscription → List ℕ
held [] = []
held (s ∷ ss) = let rest = held ss in elim s.unsub [ none ↦ rest | some u ↦ u ∷ rest ]

abbrev pub release : OnSubscription → OnSubscription
release s = record s { unsub = none }

-- The rest of `unsubscribe`, with the callbacks that are left: the last one to go releases what the
-- on-subscription callbacks hold.
unfoldable pub leave : EventClass → ProcessingData → List ℕ → EventBus → EventBus
leave c d rest b =
    if is_empty rest
    then record (put c
        (record d {
          subscriber_callbacks = rest;
          on_subscription_callbacks = map release d.on_subscription_callbacks;
        })
        b) { released = b.released ++ held d.on_subscription_callbacks }
    else put c (record d { subscriber_callbacks = rest }) b

-- `unsubscribe` of `subscribe`
unfoldable pub unsubscribe : EventClass → ℕ → EventBus → Result EventBus
unsubscribe c callback b =
    let d = data_of c b in
    elim (remove_first callback d.subscriber_callbacks) [
      | err e ↦ err e
      | ok rest ↦ ok (leave c d rest b)
    ]

abbrev pub add_on_subscription : ℕ → ProcessingData → ProcessingData
add_on_subscription id d = record d {
  on_subscription_callbacks =
      d.on_subscription_callbacks ++ (record { id = id; unsub = none }) ∷ [];
}

-- `id` is the identity of the new `_OnSubscriptionCallback`.
unfoldable pub add_on_subscription_callback : EventClass → ℕ → EventBus → EventBus
add_on_subscription_callback c id b =
    let b' = put c (add_on_subscription id (data_of c b)) b in
    if has_subscribers c b' then spawn (call_on_subscription c id ∷ []) b' else b'

-- The entries but the first with the identity, and that one.
unfoldable pub drop_on_subscription :
    ℕ → List OnSubscription → Result (OnSubscription × List OnSubscription)
drop_on_subscription id [] = err value_error
drop_on_subscription id (s ∷ ss) =
    let rest = drop_on_subscription id ss in
    if nat_eq s.id id
    then ok (s, ss)
    else elim rest [ ok (found, others) ↦ ok (found, s ∷ others) | err e ↦ err e ]

abbrev pub dismiss :
    EventClass → ProcessingData → OnSubscription → List OnSubscription → EventBus → EventBus
dismiss c d found others b = record (put c (record d { on_subscription_callbacks = others }) b) {
  released = b.released ++ held (found ∷ []);
}

-- `unsubscribe` of `add_on_subscription_callback`: the callback is released, then taken out.
unfoldable pub remove_on_subscription_callback : EventClass → ℕ → EventBus → Result EventBus
remove_on_subscription_callback c id b =
    let d = data_of c b in
    elim (drop_on_subscription id d.on_subscription_callbacks) [
      | err e ↦ err e
      | ok (found, others) ↦ ok (dismiss c d found others b)
    ]
