-- ===== src/Mqtt/Delivery.antt =====
-- The messages of the broker about a device, and the subscriber that each is handed to.
use client_py.Prelude.{
  ℕ, ◌≡◌, refl, ap, ◌∙◌, String, true, none, some, List, [], ◌∷◌, ◌++◌, All, Result, ok, err, Exec,
  text_keys, lift, ◌>>=◌,
}
use client_py.Dict.{Dict}
use client_py.Dict
use client_py.Mqtt.Client.{
  MqttClient, SubscriberInfo, Surroundings, atr_failed, part, settled, or_log, for_subscriber,
  on_devices, handle_atr, handle_message,
}
use client_py.Mqtt.Topics.{NoSlash, topic_of, has_slash, split-topic_of}

-- The parts of a topic of a device after the first.
abbrev pub atr_parts : String → String → List String → List String
atr_parts name did rest = "atr" ∷ name ∷ did ∷ rest

module _ {W T : Type 0} where
  -- The client after a callback: a callback that raises is logged.
  abbrev pub after_atr : ℕ → Result {0} Unit × W → MqttClient W T → MqttClient W T
  after_atr now (ok _, devices) m = record m {
    last_message_received_at = some now;
    devices = devices;
  }
  after_atr now (err e, devices) m = record m {
    last_message_received_at = some now;
    devices = devices;
    notes = m.notes ++ atr_failed ∷ [];
  }

  pub for_subscriber_found :
      (did : String) (info : SubscriberInfo) (use_it : SubscriberInfo → Exec (MqttClient W T) Unit)
      → (m : MqttClient W T) → Dict.get did m.subscriptions ≡ some info
      → for_subscriber did use_it m ≡ use_it info m
  unfolding for_subscriber
  for_subscriber_found did info use_it m h =
      ap
        (λ o. elim o as (λ _. Result {0} Unit × MqttClient W T) [
          | none ↦ (ok tt, m)
          | some i ↦ use_it i m
        ])
        h

module _ {C W T : Type 0} (env : Surroundings C W T) where
  caught_atr :
      (now : ℕ) (p : Result {0} Unit × W) (m : MqttClient W T)
      → settled atr_failed (p.0, record m { last_message_received_at = some now; devices = p.1 })
        ≡ (ok tt, after_atr now p m)
  caught_atr now (ok _, devices) m = refl
  caught_atr now (err e, devices) m = refl

  handle_atr_subscribed :
      (now : ℕ) (name did : String) (rest : List String) (payload : List ℕ) (info : SubscriberInfo)
      → (m : MqttClient W T) → Dict.get did m.subscriptions ≡ some info
      → handle_atr env
          ("iot" ∷ atr_parts name did rest)
          payload
          (record m { last_message_received_at = some now })
        ≡ (ok tt, after_atr now (env.callback info.device name payload m.devices) m)
  unfolding handle_atr or_log part
  handle_atr_subscribed now name did rest payload info m h =
      ap (settled atr_failed) (
        for_subscriber_found did info
          (λ i. lift (ok name) >>= λ n. on_devices (env.callback i.device n payload))
          (record m { last_message_received_at = some now }) h)
      ∙ caught_atr now (env.callback info.device name payload m.devices) m

  -- A message on the topic of a device is handed to the callback of the subscriber for the id in the
  -- topic, with the name of the message, and to nothing else; nothing is raised. The parts of the
  -- topic have no slash.
  pub atr_reaches_subscriber :
      (now : ℕ) (name did : String) (rest : List String) (payload : List ℕ) (info : SubscriberInfo)
      → (m : MqttClient W T) → All NoSlash (name ∷ did ∷ rest)
      → env.matches (topic_of "iot" (atr_parts name did rest)) "iot/atr/#" ≡ true
      → Dict.get did m.subscriptions ≡ some info
      → handle_message env now (topic_of "iot" (atr_parts name did rest)) payload m
        ≡ (ok tt, after_atr now (env.callback info.device name payload m.devices) m)
  unfolding handle_message has_slash
  atr_reaches_subscriber now name did rest payload info m clear is_atr subscribed =
      let parts = split-topic_of "iot" (atr_parts name did rest) refl (refl, clear) in
      rw (is_atr, parts, handle_message)
        (handle_atr_subscribed now name did rest payload info m subscribed)
