-- ===== src/Examples/Broker.antt =====
-- The MQTT client on concrete inputs: a robot, the app, and a broker.
use client_py.Prelude.{
  ℕ, ◌+◌, ◌≡◌, refl, String, Bool, true, false, Option, none, some, List, [], ◌∷◌, Error,
  broker_error, ok, err, Exec, ◌>>◌, str_eq, any, text_keys, if◌then◌else◌,
}
use client_py.Dict.{Dict}
use client_py.Dict
use client_py.Util.Text.{lower, upper, join}
use client_py.Util.Countries.{get_continent, get_continent_url_postfix}
use client_py.Messages.Lookup.{json}
use client_py.Mqtt.Config.{
  DeviceInfo, Url, MqttConfiguration, unverified, undefined, create_mqtt_config, get_topics,
  unverified_is_ecovacs,
}
use client_py.Mqtt.Client.{
  MqttClient, SubscriberInfo, Surroundings, handle_message, get_data_type, too_late,
}
use client_py.Mqtt.Session.{drain, work, begin_session, end_session}
use client_py.Mqtt.Queue.{accepts, last_wish, or_before, drain-last_wish, refused_is_lost, is_some}
use client_py.Mqtt.Topics.{topic_of, has_slash}
use client_py.Mqtt.Delivery.{atr_parts, after_atr, atr_reaches_subscriber}
use client_py.Mqtt.Requests.{P2pTopic, p2p_parts, IsP2p, handled_once}

abbrev robot : DeviceInfo
robot = record { did = "did"; device_class = "class"; resource = "res"; data_type = json }

abbrev info : SubscriberInfo
info = record { device_info = robot; device = 7 }

-- The devices are the numbers that their callbacks and commands have written down.
abbrev write_down : ℕ → Exec (List ℕ) Unit
write_down n seen = (ok tt, n ∷ seen)

abbrev ecovacs_default : MqttConfiguration
ecovacs_default = record {
  hostname = "mq-eu.ecouser.net";
  port = 443;
  ssl_context = some unverified;
  device_id = "d";
}

default_config : create_mqtt_config "d" "de" none undefined ≡ ok ecovacs_default
unfolding create_mqtt_config join upper get_continent_url_postfix get_continent Dict.get
default_config = refl

unverified_is_ecovacs_example : ◌≡◌ {A = Option Url} none none
unverified_is_ecovacs_example =
    unverified_is_ecovacs "d" "de" none ecovacs_default default_config refl

abbrev starts_with : String → String → Bool
starts_with topic pattern =
    if str_eq pattern "iot/atr/#"
    then str_eq topic "iot/atr/onPos/did"
    else str_eq pattern "iot/p2p/#"

abbrev env : Surroundings ℕ (List ℕ) (Dict String ℕ)
env = record {
  command_type = λ _ _. some (λ payload. ok 5);
  handle_mqtt_p2p = λ command device payload. write_down (command + device);
  callback = λ device name payload. write_down device;
  matches = starts_with;
  put = λ now id c t. Dict.set id c t;
  pop = λ now id t. (Dict.get id t, Dict.remove id t);
}

abbrev client : MqttClient (List ℕ) (Dict String ℕ)
client = record {
  subscriptions = ("did", info) ∷ [];
  subscription_changes = (info, false) ∷ (info, true) ∷ [];
  mqtt_task = none;
  received_p2p_commands = [];
  last_message_received_at = none;
  devices = [];
  notes = [];
  broker = [];
}

drain-last_wish_example :
    ((drain accepts client.subscription_changes client).0 ≡ ok tt)
    × ((drain accepts client.subscription_changes client).1.subscription_changes ≡ [])
    × (Dict.get "did" (drain accepts client.subscription_changes client).1.subscriptions
        ≡ or_before
            (Dict.get "did" client.subscriptions)
            (last_wish "did" client.subscription_changes))
drain-last_wish_example = drain-last_wish "did" client

abbrev refuses_all : String → Option Error
refuses_all topic = some broker_error

some_refused : any (λ t. is_some (refuses_all t)) (get_topics robot) ≡ true
unfolding get_topics
some_refused = refl

refused_is_lost_example :
    ((e : Error) × ((work refuses_all info false ((info, true) ∷ []) client).0 ≡ err e))
    × (begin_session accepts (
          end_session (err broker_error) (work refuses_all info false ((info, true) ∷ []) client).1)
        ≡ begin_session accepts (
            end_session
              (err broker_error)
              (record client { subscription_changes = (info, true) ∷ [] })))
refused_is_lost_example =
    refused_is_lost refuses_all info false ((info, true) ∷ []) client refl some_refused

found : Dict.get "did" client.subscriptions ≡ some info
unfolding Dict.get
found = refl

clear : (has_slash "onPos" ≡ false) × ((has_slash "did" ≡ false) × Unit {0})
unfolding has_slash
clear = (refl, (refl, tt))

is_atr : env.matches (topic_of "iot" (atr_parts "onPos" "did" [])) "iot/atr/#" ≡ true
unfolding topic_of
is_atr = refl

atr_reaches_subscriber_example :
    handle_message env 9 (topic_of "iot" (atr_parts "onPos" "did" [])) [] client
    ≡ (ok tt, after_atr 9 (ok tt, 7 ∷ []) client)
atr_reaches_subscriber_example =
    atr_reaches_subscriber env 9 "onPos" "did" [] [] info client clear is_atr found

abbrev asked : P2pTopic
asked = record {
  command_name = "setVolume";
  sender = ("app", "ac", "ar");
  receiver = ("did", "class", "res");
  request_id = "id";
  data_type = "j";
}

abbrev answered : P2pTopic
answered = record {
  command_name = "setVolume";
  sender = ("did", "class", "res");
  receiver = ("app", "ac", "ar");
  request_id = "id";
  data_type = "j";
}

asked_is : IsP2p env "q" asked json (λ payload. ok 5)
unfolding has_slash topic_of get_data_type lower Dict.get
asked_is = (
  (refl, (refl, (refl, (refl, (refl, (refl, (refl, (refl, (refl, (refl, (refl, tt))))))))))),
  refl,
  refl,
  refl,
  refl,
)

answered_is : IsP2p env "p" answered json (λ payload. ok 5)
unfolding has_slash topic_of get_data_type lower Dict.get
answered_is = (
  (refl, (refl, (refl, (refl, (refl, (refl, (refl, (refl, (refl, (refl, (refl, tt))))))))))),
  refl,
  refl,
  refl,
  refl,
)

kept : env.pop 2 "id" (env.put 1 "id" 5 client.received_p2p_commands) ≡ (some 5, [])
unfolding Dict.get Dict.set Dict.remove
kept = refl

gone : env.pop 3 "id" [] ≡ (none, [])
unfolding Dict.get Dict.remove
gone = refl

handled_once_example :
    (handle_message env 1 (topic_of "iot" (p2p_parts "q" asked)) []
        >> handle_message env 2 (topic_of "iot" (p2p_parts "p" answered)) []
        >> handle_message env 3 (topic_of "iot" (p2p_parts "p" answered)) [])
      client
    ≡ (
      ok tt,
      record client { last_message_received_at = some 3; devices = 12 ∷ []; notes = too_late ∷ [] },
    )
handled_once_example =
    handled_once env 1 2 3 asked answered json (λ payload. ok 5) 5 [] [] info [] [] client asked_is
      answered_is refl refl found kept gone
