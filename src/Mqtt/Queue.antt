-- ===== src/Mqtt/Queue.antt =====
-- The subscriptions that the queue of changes leads to.
use client_py.Prelude.{
  ◌≡◌, refl, ap, ◌∙◌, String, Bool, true, false, Option, none, some, List, [], ◌∷◌, Error,
  broker_error, Result, ok, err, str_eq, any, text_keys, arith, if◌then◌else◌, Option-cases, inl,
  inr,
}
use client_py.Dict.{Dict, get-set, get-remove}
use client_py.Dict
use client_py.Mqtt.Config.{get_topics}
use client_py.Mqtt.Client.{MqttClient, SubscriberInfo}
use client_py.Mqtt.Session.{
  change_topic, change_topics, change_subscription, work, drain, begin_session, end_session,
}

abbrev pub Changes : Type 0
Changes = List (SubscriberInfo × Bool)

abbrev pub wish : SubscriberInfo → Bool → Option SubscriberInfo
wish info add = if add then some info else none

-- What the last change for a device wants, if there is one.
unfoldable pub last_wish : String → Changes → Option (Option SubscriberInfo)
last_wish did [] = none
last_wish did ((info, add) ∷ changes) = elim (last_wish did changes) [
  | some w ↦ some w
  | none ↦ if str_eq info.device_info.did did then some (wish info add) else none
]

abbrev pub or_before :
    Option SubscriberInfo → Option (Option SubscriberInfo) → Option SubscriberInfo
or_before before none = before
or_before before (some w) = w

or_before_step :
    (before now : Option SubscriberInfo) (same : Bool) (later : Option (Option SubscriberInfo))
    → or_before (if same then now else before) later
      ≡ or_before before (elim later [ some w ↦ some w | none ↦ if same then some now else none ])
or_before_step before now true none = refl
or_before_step before now false none = refl
or_before_step before now same (some w) = refl

abbrev pub is_some : Option Error → Bool
is_some none = false
is_some (some e) = true

-- A broker that refuses nothing.
abbrev pub accepts : String → Option Error
accepts topic = none

change_topics-accepts :
    (add : Bool) (topics broker : List String) → (change_topics accepts add topics broker).0 ≡ ok tt
unfolding change_topics
change_topics-accepts add [] broker = refl
change_topics-accepts add (t ∷ topics) broker =
    change_topics-accepts add topics (change_topic add t broker)

get-change_subscription :
    (did : String) (info : SubscriberInfo) (add : Bool) (subscriptions : Dict String SubscriberInfo)
    → Dict.get did (change_subscription info add subscriptions)
      ≡ (if str_eq info.device_info.did did then wish info add else Dict.get did subscriptions)
get-change_subscription did info true s = get-set info.device_info.did did info s
get-change_subscription did info false s = get-remove info.device_info.did did s

module _ {W T : Type 0} where
  -- The client after a change that the broker accepts.
  abbrev changed : SubscriberInfo → Bool → Changes → MqttClient W T → MqttClient W T
  changed info add rest m = record m {
    subscription_changes = rest;
    broker = (change_topics accepts add (get_topics info.device_info) m.broker).1;
    subscriptions = change_subscription info add m.subscriptions;
  }

  work-accepts :
      (info : SubscriberInfo) (add : Bool) (rest : Changes) (m : MqttClient W T)
      → work accepts info add rest m ≡ (ok tt, changed info add rest m)
  unfolding work change_topics get_topics
  work-accepts info add rest m =
      rw (change_topics-accepts add (get_topics info.device_info) m.broker) refl

  drain-changed :
      (info : SubscriberInfo) (add : Bool) (changes : Changes) (m : MqttClient W T)
      → drain accepts ((info, add) ∷ changes) m ≡ drain accepts changes (changed info add changes m)
  unfolding drain
  drain-changed info add changes m =
      ap
        (λ (p : Result {0} Unit × MqttClient W T).
          elim p.0 as (λ _. Result {0} Unit × MqttClient W T) [
            | err e ↦ (err e, p.1)
            | ok _ ↦ drain accepts changes p.1
          ])
        (work-accepts info add changes m)

  -- The queue with the changes of the list has nothing else in it.
  abbrev Drained : String → Changes → MqttClient W T → Type 0
  Drained did changes m =
      ((drain accepts changes m).0 ≡ ok tt)
      × ((drain accepts changes m).1.subscription_changes ≡ [])
      × (Dict.get did (drain accepts changes m).1.subscriptions
          ≡ or_before (Dict.get did m.subscriptions) (last_wish did changes))

  drain-accepts :
      (did : String) (changes : Changes) (m : MqttClient W T)
      → m.subscription_changes ≡ changes
      → Drained did changes m
  unfolding drain last_wish
  drain-accepts did [] m h = (refl, h, refl)
  drain-accepts did ((info, add) ∷ changes) m h =
      let m1 = changed info add changes m in
      let (done, empty, found) = drain-accepts did changes m1 refl in
      let same = str_eq info.device_info.did did in
      let step =
        ap (λ o. or_before o (last_wish did changes))
          (get-change_subscription did info add m.subscriptions)
        ∙ or_before_step (Dict.get did m.subscriptions) (wish info add) same
            (last_wish did changes) in
      rw (drain-changed info add changes m) (done, empty, found ∙ step)

  -- Once a broker that refuses nothing has worked through the queue, the last change of each device
  -- decides whether it is subscribed, and with what; a device without a change is as before.
  pub drain-last_wish :
      (did : String) (m : MqttClient W T)
      → ((drain accepts m.subscription_changes m).0 ≡ ok tt)
        × ((drain accepts m.subscription_changes m).1.subscription_changes ≡ [])
        × (Dict.get did (drain accepts m.subscription_changes m).1.subscriptions
            ≡ or_before (Dict.get did m.subscriptions) (last_wish did m.subscription_changes))
  drain-last_wish did m = drain-accepts did m.subscription_changes m refl

-- A topic of the list that is refused ends the change with an exception.
change_topics-refuses :
    (refuses : String → Option Error) (add : Bool) (topics broker : List String)
    → any (λ t. is_some (refuses t)) topics ≡ true
    → (e : Error) × ((change_topics refuses add topics broker).0 ≡ err e)
unfolding change_topics
change_topics-refuses refuses add [] broker h = ground arith
change_topics-refuses refuses add (t ∷ topics) broker h = elim (Option-cases (refuses t)) [
  | inl e ↦
      rw (e, change_topics)
        (change_topics-refuses refuses add topics (change_topic add t broker) (rw (e) at h))
  | inr (x, e) ↦ rw (e, change_topics) (x, refl)
]

module _ {W T : Type 0} where
  work-refused :
      (refuses : String → Option Error) (info : SubscriberInfo) (add : Bool) (rest : Changes)
      → (m : MqttClient W T) (e : Error)
      → (change_topics refuses add (get_topics info.device_info) m.broker).0 ≡ err e
      → work refuses info add rest m ≡ (
        err e,
        record m {
          subscription_changes = rest;
          broker = (change_topics refuses add (get_topics info.device_info) m.broker).1;
        },
      )
  unfolding work
  work-refused refuses info add rest m e h =
      let m1 : MqttClient W T = record m {
        subscription_changes = rest;
        broker = (change_topics refuses add (get_topics info.device_info) m.broker).1;
      } in
      ap
        (λ (r : Result {0} Unit). elim r as (λ _. Result {0} Unit × MqttClient W T) [
          | err e ↦ (err e, m1)
          | ok _ ↦
              (ok tt, record m1 { subscriptions = change_subscription info add m.subscriptions })
        ])
        h

  -- A change that the broker refuses, at any of its topics, is lost: the worker raises, and the next
  -- session is that of a client that was never asked for it.
  pub refused_is_lost :
      (refuses : String → Option Error) (info : SubscriberInfo) (add : Bool) (rest : Changes)
      → (m : MqttClient W T) → m.subscription_changes ≡ (info, add) ∷ rest
      → any (λ t. is_some (refuses t)) (get_topics info.device_info) ≡ true
      → ((e : Error) × ((work refuses info add rest m).0 ≡ err e))
        × (begin_session accepts (end_session (err broker_error) (work refuses info add rest m).1)
            ≡ begin_session accepts
                (end_session (err broker_error) (record m { subscription_changes = rest })))
  unfolding end_session
  refused_is_lost refuses info add rest m queued h =
      let (e, raised) =
        change_topics-refuses refuses add (get_topics info.device_info) m.broker h in
      let refused = work-refused refuses info add rest m e raised in
      (
        (e, ap (λ p. p.0) refused),
        ap
            (λ (p : Result {0} Unit × MqttClient W T).
              begin_session accepts (end_session (err broker_error) p.1))
            refused,
      )
