-- ===== src/Mqtt/Requests.antt =====
-- The requests of the app that the broker shows, and the responses of the devices to them.
use client_py.Prelude.{
  ℕ, ◌≡◌, refl, ap, sym, ◌∙◌, String, true, false, Option, none, some, List, [], ◌∷◌, ◌++◌, All,
  Result, ok, err, Exec, text_keys, ◌>>◌,
}
use client_py.Dict.{Dict}
use client_py.Dict
use client_py.Messages.Lookup.{DataType}
use client_py.Mqtt.Client.{
  MqttClient, SubscriberInfo, Surroundings, Note, p2p_failed, too_late, part, get_data_type,
  settled, or_log, for_subscriber, on_devices, remember, pop_command, respond, dispatch_p2p,
  handle_typed, handle_p2p, handle_message, note,
}
use client_py.Mqtt.Topics.{NoSlash, topic_of, has_slash, split-topic_of}
use client_py.Mqtt.Delivery.{for_subscriber_found}

-- The parts of a topic of a request or of a response: the command, the sender and the receiver with
-- their class and resource, the direction, the id and the type of the data.
pub record P2pTopic : Type 0 where
  pub command_name : String
  pub sender : String × String × String
  pub receiver : String × String × String
  pub request_id : String
  pub data_type : String

abbrev pub p2p_parts : String → P2pTopic → List String
p2p_parts direction t =
    "p2p" ∷ t.command_name ∷ t.sender.0 ∷ t.sender.1 ∷ t.sender.2 ∷ t.receiver.0 ∷ t.receiver.1
    ∷ t.receiver.2 ∷ direction ∷ t.request_id ∷ t.data_type ∷ []

module _ {W T : Type 0} where
  -- The client after a response that a command has handled: a command that raises is logged.
  abbrev pub after_p2p : ℕ → Result {0} Unit × W → T → MqttClient W T → MqttClient W T
  after_p2p now (ok _, devices) left m = record m {
    last_message_received_at = some now;
    devices = devices;
    received_p2p_commands = left;
  }
  after_p2p now (err e, devices) left m = record m {
    last_message_received_at = some now;
    devices = devices;
    received_p2p_commands = left;
    notes = m.notes ++ p2p_failed ∷ [];
  }

module _ {C W T : Type 0} (env : Surroundings C W T) where
  -- A topic of P2P messages with a type of data and a command that the client knows.
  abbrev pub IsP2p : String → P2pTopic → DataType → (List ℕ → Result C) → Type 0
  IsP2p direction t type create =
      All NoSlash (p2p_parts direction t)
      × (env.matches (topic_of "iot" (p2p_parts direction t)) "iot/atr/#" ≡ false)
      × (env.matches (topic_of "iot" (p2p_parts direction t)) "iot/p2p/#" ≡ true)
      × (get_data_type t.data_type ≡ some type)
      × (env.command_type type t.command_name ≡ some create)

  abbrev at_time : ℕ → MqttClient W T → MqttClient W T
  at_time now m = record m { last_message_received_at = some now }

  handle_p2p_known :
      (now : ℕ) (direction : String) (t : P2pTopic) (type : DataType) (create : List ℕ → Result C)
      → (payload : List ℕ) (m : MqttClient W T) → get_data_type t.data_type ≡ some type
      → env.command_type type t.command_name ≡ some create
      → handle_p2p env now ("iot" ∷ p2p_parts direction t) payload m
        ≡ settled p2p_failed (dispatch_p2p env now ("iot" ∷ p2p_parts direction t) payload create m)
  unfolding handle_p2p or_log handle_typed part
  handle_p2p_known now direction t type create payload m typed known =
      let parts = "iot" ∷ p2p_parts direction t in
      ap
        (λ o. settled p2p_failed (
          (elim o as (λ _. Exec (MqttClient W T) Unit) [
            | none ↦ note Note.unsupported_type
            | some d ↦ handle_typed env now parts payload d
          ])
            m))
        typed
      ∙ ap
          (λ o. settled p2p_failed (
            (elim o as (λ _. Exec (MqttClient W T) Unit) [
              | none ↦ note Note.no_p2p_handling
              | some c ↦ dispatch_p2p env now parts payload c
            ])
              m))
          known

  p2p_dispatched :
      (now : ℕ) (direction : String) (t : P2pTopic) (type : DataType) (create : List ℕ → Result C)
      → (payload : List ℕ) (m : MqttClient W T) → IsP2p direction t type create
      → handle_message env now (topic_of "iot" (p2p_parts direction t)) payload m
        ≡ settled p2p_failed
            (dispatch_p2p env now ("iot" ∷ p2p_parts direction t) payload create (at_time now m))
  unfolding handle_message has_slash
  p2p_dispatched now direction t type create payload m (clear, not_atr, is_p2p, typed, known) =
      let parts = split-topic_of "iot" (p2p_parts direction t) refl clear in
      rw (not_atr, is_p2p, parts, handle_message)
        (handle_p2p_known now direction t type create payload (at_time now m) typed known)

  request_kept :
      (now : ℕ) (t : P2pTopic) (type : DataType) (create : List ℕ → Result C) (command : C)
      → (payload : List ℕ) (m : MqttClient W T) → IsP2p "q" t type create
      → create payload ≡ ok command
      → handle_message env now (topic_of "iot" (p2p_parts "q" t)) payload m ≡ (
        ok tt,
        record m {
          last_message_received_at = some now;
          received_p2p_commands = env.put now t.request_id command m.received_p2p_commands;
        },
      )
  unfolding dispatch_p2p remember part
  request_kept now t type create command payload m is made =
      p2p_dispatched now "q" t type create payload m is
      ∙ ap
          (λ (r : Result C). settled p2p_failed (elim r as (λ _. Result {0} Unit × MqttClient W T) [
            | err e ↦ (err e, at_time now m)
            | ok c ↦ (
              ok tt,
              record (at_time now m) {
                received_p2p_commands = env.put now t.request_id c m.received_p2p_commands;
              },
            )
          ]))
          made

  caught_p2p :
      (now : ℕ) (p : Result {0} Unit × W) (left : T) (m : MqttClient W T)
      → settled p2p_failed
          (p.0, record (at_time now m) { received_p2p_commands = left; devices = p.1 })
        ≡ (ok tt, after_p2p now p left m)
  caught_p2p now (ok _, devices) left m = refl
  caught_p2p now (err e, devices) left m = refl

  -- What the response comes to, by what is kept under its id.
  abbrev answered :
      ℕ → String → List ℕ → MqttClient W T → Option C × T → Result {0} Unit × MqttClient W T
  answered now did payload m (found, left) =
      let m1 = record (at_time now m) { received_p2p_commands = left } in
      (elim found as (λ _. Exec (MqttClient W T) Unit) [
        | none ↦ note too_late
        | some command ↦
            for_subscriber did λ info. on_devices (env.handle_mqtt_p2p command info.device payload)
      ])
        m1

  response_answered :
      (now : ℕ) (t : P2pTopic) (type : DataType) (create : List ℕ → Result C) (payload : List ℕ)
      → (m : MqttClient W T) → IsP2p "p" t type create
      → handle_message env now (topic_of "iot" (p2p_parts "p" t)) payload m
        ≡ settled p2p_failed
            (answered now t.sender.0 payload m (env.pop now t.request_id m.received_p2p_commands))
  unfolding dispatch_p2p respond pop_command part
  response_answered now t type create payload m is =
      p2p_dispatched now "p" t type create payload m is

  response_handled :
      (now : ℕ) (t : P2pTopic) (type : DataType) (create : List ℕ → Result C) (command : C)
      → (payload : List ℕ) (info : SubscriberInfo) (left : T) (m : MqttClient W T)
      → IsP2p "p" t type create
      → env.pop now t.request_id m.received_p2p_commands ≡ (some command, left)
      → Dict.get t.sender.0 m.subscriptions ≡ some info
      → handle_message env now (topic_of "iot" (p2p_parts "p" t)) payload m
        ≡ (ok tt, after_p2p now (env.handle_mqtt_p2p command info.device payload m.devices) left m)
  response_handled now t type create command payload info left m is kept subscribed =
      response_answered now t type create payload m is
      ∙ ap (λ p. settled p2p_failed (answered now t.sender.0 payload m p)) kept
      ∙ ap (settled p2p_failed) (
          for_subscriber_found t.sender.0 info
            (λ i. on_devices (env.handle_mqtt_p2p command i.device payload))
            (record (at_time now m) { received_p2p_commands = left }) subscribed)
      ∙ caught_p2p now (env.handle_mqtt_p2p command info.device payload m.devices) left m

  then_ok :
      (run next : Exec (MqttClient W T) Unit) (m m' : MqttClient W T)
      → run m ≡ (ok tt, m')
      → (run >> next) m ≡ next m'
  then_ok run next m m' h =
      ap
        (λ (p : Result {0} Unit × MqttClient W T).
          elim p.0 as (λ _. Result {0} Unit × MqttClient W T) [
            | ok _ ↦ next p.1
            | err e ↦ (err e, p.1)
          ])
        h

  after_kept :
      (first now : ℕ) (r : Result {0} Unit × W) (cache left : T) (m : MqttClient W T)
      → after_p2p now r left
          (record m { last_message_received_at = some first; received_p2p_commands = cache })
        ≡ after_p2p now r left m
  after_kept first now (ok _, devices) cache left m = refl
  after_kept first now (err e, devices) cache left m = refl

  left_after :
      (now : ℕ) (r : Result {0} Unit × W) (left : T) (m : MqttClient W T)
      → (after_p2p now r left m).received_p2p_commands ≡ left
  left_after now (ok _, devices) left m = refl
  left_after now (err e, devices) left m = refl

  -- A request of the app, the response of the device to it, and that response again, with no other
  -- message between: the command of the request handles the response once, on the bus of the
  -- subscriber for the device that sends it, and the second response is logged as too late. The cache
  -- keeps the command until the response, and has none once it is taken out.
  pub handled_once :
      (first second third : ℕ) (q p : P2pTopic) (type : DataType) (create : List ℕ → Result C)
      → (command : C) (request response : List ℕ) (info : SubscriberInfo) (left last : T)
      → (m : MqttClient W T) → IsP2p "q" q type create
      → IsP2p "p" p type create
      → p.request_id ≡ q.request_id
      → create request ≡ ok command
      → Dict.get p.sender.0 m.subscriptions ≡ some info
      → env.pop second p.request_id (env.put first p.request_id command m.received_p2p_commands)
        ≡ (some command, left)
      → env.pop third p.request_id left ≡ (none, last)
      → ((handle_message env first (topic_of "iot" (p2p_parts "q" q)) request
            >> handle_message env second (topic_of "iot" (p2p_parts "p" p)) response
            >> handle_message env third (topic_of "iot" (p2p_parts "p" p)) response)
          m)
        ≡ (let done =
              after_p2p second
                (env.handle_mqtt_p2p command info.device response m.devices)
                left
                m in
            (
              ok tt,
              record done {
                last_message_received_at = some third;
                received_p2p_commands = last;
                notes = done.notes ++ too_late ∷ [];
              },
            ))
  handled_once first second third q p type create command request response info left last m is_q
        is_p same made subscribed kept gone =
      let ask = handle_message env first (topic_of "iot" (p2p_parts "q" q)) request in
      let answer =
        λ (now : ℕ). handle_message env now (topic_of "iot" (p2p_parts "p" p)) response in
      let m1 : MqttClient W T = record m {
        last_message_received_at = some first;
        received_p2p_commands = env.put first q.request_id command m.received_p2p_commands;
      } in
      let result = env.handle_mqtt_p2p command info.device response m.devices in
      let m2 = after_p2p second result left m in
      let kept_q =
        ap (λ id. env.pop second p.request_id (env.put first id command m.received_p2p_commands))
          (sym same)
        ∙ kept in
      let asked = request_kept first q type create command request m is_q made in
      let handled =
        response_handled second p type create command response info left m1 is_p kept_q
          subscribed in
      then_ok (ask >> answer second) (answer third) m m2 (
        then_ok ask (answer second) m m1 asked
        ∙ handled
        ∙ ap (λ c. (ok tt, c))
            (after_kept first second result
              (env.put first q.request_id command m.received_p2p_commands) left m))
      ∙ response_answered third p type create response m2 is_p
      ∙ ap
          (λ c.
            settled p2p_failed
              (answered third p.sender.0 response m2 (env.pop third p.request_id c)))
          (left_after second result left m)
      ∙ ap (λ c. settled p2p_failed (answered third p.sender.0 response m2 c)) gone
