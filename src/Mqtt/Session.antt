-- ===== src/Mqtt/Session.antt =====
-- The task of `MqttClient`: its sessions with the broker, and the queue of changes of subscriptions.
-- A broker may refuse a topic; what it answers is an argument, as is what `authenticate` does.
use client_py.Prelude.{
  ℕ, String, Bool, true, false, Option, none, some, List, [], ◌∷◌, ◌++◌, Error, broker_error,
  mqtt_error, Result, ok, err, Exec, str_eq, if◌then◌else◌, text_keys,
}
use client_py.Dict.{Dict}
use client_py.Dict
use client_py.Value.{Value}
use client_py.Util.Text.{join}
use client_py.Auth.Post.{Credentials}
use client_py.Mqtt.Config.{MqttConfiguration, SslContext, get_topics}
use client_py.Mqtt.Client.{MqttClient, SubscriberInfo, TaskState, running, done}

-- `aiomqtt.Client` as `_get_client` makes it; `text_of` is the text of the user id.
pub record ClientSettings : Type 0 where
  pub hostname : String
  pub port : ℕ
  pub username : Value
  pub password : Value
  pub identifier : String
  pub tls_context : Option SslContext

-- `_get_client`, on what `authenticate` returned or raised
unfoldable pub get_client :
    (Value → String) → MqttConfiguration → Result Credentials → Result ClientSettings
get_client text_of config (err e) = err e
get_client text_of config (ok credentials) = ok (record {
  hostname = config.hostname;
  port = config.port;
  username = credentials.user_id;
  password = credentials.token;
  identifier = join (text_of credentials.user_id ∷ "@ecouser/" ∷ config.device_id ∷ []);
  tls_context = config.ssl_context;
})

abbrev as_mqtt_error : Error → Error
as_mqtt_error broker_error = mqtt_error
as_mqtt_error e = e

-- `verify_config`, on what the connection to the broker of the settings came to
unfoldable pub verify_config :
    Result ClientSettings → (ClientSettings → Result {0} Unit) → Result {0} Unit
verify_config (err e) connects = err (as_mqtt_error e)
verify_config (ok settings) connects = elim (connects settings) [
  | err e ↦ err (as_mqtt_error e)
  | ok _ ↦ ok tt
]

-- A topic that is subscribed is one of the session, and one that is unsubscribed is none.
abbrev pub drop_topic : String → List String → List String
drop_topic topic [] = []
drop_topic topic (t ∷ topics) =
    let rest = drop_topic topic topics in if str_eq topic t then rest else t ∷ rest

abbrev pub change_topic : Bool → String → List String → List String
change_topic true topic topics = topic ∷ topics
change_topic false topic topics = drop_topic topic topics

-- `client.subscribe` or `client.unsubscribe` of each topic, up to the first that fails
unfoldable pub change_topics :
    (String → Option Error) → Bool → List String → Exec (List String) Unit
change_topics refuses add [] broker = (ok tt, broker)
change_topics refuses add (topic ∷ topics) broker =
    let rest = change_topics refuses add topics (change_topic add topic broker) in
    elim (refuses topic) [ some e ↦ (err e, broker) | none ↦ rest ]

abbrev pub is_running : Option TaskState → Bool
is_running (some running) = true
is_running _ = false

abbrev pub change_subscription :
    SubscriberInfo → Bool → Dict String SubscriberInfo → Dict String SubscriberInfo
change_subscription info true subscriptions = Dict.set info.device_info.did info subscriptions
change_subscription info false subscriptions = Dict.remove info.device_info.did subscriptions

unfoldable pub topics_of : Dict String SubscriberInfo → List String
topics_of [] = []
topics_of ((did, info) ∷ subscriptions) = get_topics info.device_info ++ topics_of subscriptions

abbrev is_broker_error : Error → Bool
is_broker_error broker_error = true
is_broker_error _ = false

module _ {W T : Type 0} where
  -- `_create_mqtt_task` and `_cancel_mqtt_task`; the session of a task ends with it.
  unfoldable pub create_mqtt_task : MqttClient W T → MqttClient W T
  create_mqtt_task m = record m { mqtt_task = some running; broker = [] }

  unfoldable pub cancel_mqtt_task : MqttClient W T → MqttClient W T
  cancel_mqtt_task m = elim m.mqtt_task [
    | none ↦ m
    | some t ↦ record m { mqtt_task = some done; broker = [] }
  ]

  -- `disconnect`
  abbrev pub disconnect : MqttClient W T → MqttClient W T
  disconnect = cancel_mqtt_task

  -- `connect`, on what `authenticate` returned or raised
  unfoldable pub connect : Result Credentials → Exec (MqttClient W T) Unit
  connect authenticated m =
      if is_running m.mqtt_task
      then (ok tt, m)
      else elim authenticated [ err e ↦ (err e, m) | ok _ ↦ (ok tt, create_mqtt_task m) ]

  abbrev put_change : SubscriberInfo → Bool → MqttClient W T → MqttClient W T
  put_change info add m = record m {
    subscription_changes = m.subscription_changes ++ (info, add) ∷ [];
  }

  -- `subscribe`, and the function that it returns
  unfoldable pub subscribe : Result Credentials → SubscriberInfo → Exec (MqttClient W T) Unit
  subscribe authenticated info m =
      let (r, m1) = connect authenticated m in
      elim r [ err e ↦ (err e, m1) | ok _ ↦ (ok tt, put_change info true m1) ]

  unfoldable pub unsubscribe : SubscriberInfo → MqttClient W T → MqttClient W T
  unsubscribe info m = put_change info false m

  -- One turn of `_pending_subscriptions_worker`, with a change in the queue
  unfoldable pub work :
      (String → Option Error)
      → SubscriberInfo
      → Bool
      → List (SubscriberInfo × Bool)
      → Exec (MqttClient W T) Unit
  work refuses info add rest m =
      let (r, broker) = change_topics refuses add (get_topics info.device_info) m.broker in
      let m1 = record m { subscription_changes = rest; broker = broker } in
      elim r [
        | err e ↦ (err e, m1)
        | ok _ ↦ (ok tt, record m1 { subscriptions = change_subscription info add m.subscriptions })
      ]

  -- The worker until the queue is empty, or until the broker refuses
  unfoldable pub drain :
      (String → Option Error) → List (SubscriberInfo × Bool) → Exec (MqttClient W T) Unit
  drain refuses [] m = (ok tt, m)
  drain refuses ((info, add) ∷ changes) m =
      let (r, m1) = work refuses info add changes m in
      let rest = drain refuses changes m1 in elim r [ err e ↦ (err e, m1) | ok _ ↦ rest ]

  -- A session begins with the topics of all subscriptions.
  unfoldable pub begin_session : (String → Option Error) → Exec (MqttClient W T) Unit
  begin_session refuses m =
      let (r, broker) = change_topics refuses true (topics_of m.subscriptions) [] in
      (r, record m { broker = broker })

  -- A session has ended: the task goes on with the next one, or returns.
  unfoldable pub end_session : Result {0} Unit → MqttClient W T → MqttClient W T
  end_session (ok _) m = record m { broker = [] }
  end_session (err e) m =
      if is_broker_error e
      then record m { broker = [] }
      else record m { mqtt_task = some done; broker = [] }
