-- ===== src/Mqtt/Client.antt =====
-- The state and the operations of `MqttClient`. The broker is the list of the topics that the session
-- has subscribed to; the commands and the devices behind the callbacks are arguments.
use client_py.Prelude.{
  ℕ, zero, suc, String, Bool, Option, none, some, List, [], ◌∷◌, ◌++◌, index_error, Result, ok, err,
  Exec, pure, lift, ◌>>=◌, str_eq, if◌then◌else◌, text_keys,
}
use client_py.Dict.{Dict}
use client_py.Dict
use client_py.Util.Text.{lower, split}
use client_py.Messages.Lookup.{DataType, json, xml}
use client_py.Mqtt.Config.{DeviceInfo}

-- `SubscriberInfo`; the bus and the callback of a device go by one number.
pub record SubscriberInfo : Type 0 where
  pub device_info : DeviceInfo
  pub device : ℕ

-- What is behind the client: the classes of `COMMANDS_WITH_MQTT_P2P_HANDLING` with their
-- `create_from_mqtt`, the `handle_mqtt_p2p` of a command on the bus of a device, the callback of a
-- device, `Topic.matches`, and the `TTLCache` of the commands.
pub record Surroundings (C W T : Type 0) : Type 0 where
  pub command_type : DataType → String → Option (List ℕ → Result C)
  pub handle_mqtt_p2p : C → ℕ → List ℕ → Exec W Unit
  pub callback : ℕ → String → List ℕ → Exec W Unit
  pub matches : String → String → Bool
  pub put : ℕ → String → C → T → T
  pub pop : ℕ → String → T → Option C × T

-- The log lines of the handlers
pub data Note : Type 0 where
  atr_failed p2p_failed unsupported_topic unsupported_type no_p2p_handling too_late : Note

pub data TaskState : Type 0 where
  running done : TaskState

pub record MqttClient (W T : Type 0) : Type 0 where
  pub subscriptions : Dict String SubscriberInfo
  pub subscription_changes : List (SubscriberInfo × Bool)
  pub mqtt_task : Option TaskState
  pub received_p2p_commands : T
  pub last_message_received_at : Option ℕ
  pub devices : W
  pub notes : List Note
  pub broker : List String

-- `list[i]`
unfoldable pub part : List String → ℕ → Result String
part [] n = err index_error
part (s ∷ parts) zero = ok s
part (s ∷ parts) (suc n) = part parts n

-- `DataType.get`
unfoldable pub get_data_type : String → Option DataType
get_data_type value =
    if str_eq (lower value) "j"
    then some json
    else if str_eq (lower value) "x"
    then some xml
    else none

module _ {W T : Type 0} where
  abbrev pub note : Note → Exec (MqttClient W T) Unit
  note n m = (ok tt, record m { notes = m.notes ++ n ∷ [] })

  -- `except Exception`, which logs the exception
  abbrev pub settled : Note → Result {0} Unit × MqttClient W T → Result {0} Unit × MqttClient W T
  settled n (ok u, m) = (ok u, m)
  settled n (err e, m) = note n m

  unfoldable pub or_log : Note → Exec (MqttClient W T) Unit → Exec (MqttClient W T) Unit
  or_log n run m = settled n (run m)

  -- What a handler of a device does to the devices.
  abbrev pub on_devices : Exec W Unit → Exec (MqttClient W T) Unit
  on_devices run m = let (r, devices) = run m.devices in (r, record m { devices = devices })

  abbrev skip : Exec (MqttClient W T) Unit
  skip = pure tt

  -- `self._subscriptions.get(did)` and what is done with it
  unfoldable pub for_subscriber :
      String → (SubscriberInfo → Exec (MqttClient W T) Unit) → Exec (MqttClient W T) Unit
  for_subscriber did use_it m = elim (Dict.get did m.subscriptions) [
    | none ↦ (ok tt, m)
    | some info ↦ use_it info m
  ]

  module _ {C : Type 0} (env : Surroundings C W T) where
    unfoldable pub handle_atr : List String → List ℕ → Exec (MqttClient W T) Unit
    handle_atr parts payload = or_log atr_failed (
        lift (part parts 3) >>= λ did.
        for_subscriber did λ info.
          lift (part parts 2) >>= λ name. on_devices (env.callback info.device name payload))

    -- A request: the command is kept under its id.
    unfoldable pub remember : ℕ → (List ℕ → Result C) → String → List ℕ → Exec (MqttClient W T) Unit
    remember now create request_id payload = lift (create payload) >>= λ command m. (
      ok tt,
      record m { received_p2p_commands = env.put now request_id command m.received_p2p_commands },
    )

    unfoldable pub pop_command : ℕ → String → Exec (MqttClient W T) (Option C)
    pop_command now request_id m =
        let (command, left) = env.pop now request_id m.received_p2p_commands in
        (ok command, record m { received_p2p_commands = left })

    -- A response: the command of its request handles it, if there is one.
    unfoldable pub respond : ℕ → List String → String → List ℕ → Exec (MqttClient W T) Unit
    respond now parts request_id payload = pop_command now request_id >>= λ found. elim found [
      | none ↦ note too_late
      | some command ↦ lift (part parts 3) >>= λ did.
          for_subscriber did λ info. on_devices (env.handle_mqtt_p2p command info.device payload)
    ]

    unfoldable pub dispatch_p2p :
        ℕ → List String → List ℕ → (List ℕ → Result C) → Exec (MqttClient W T) Unit
    dispatch_p2p now parts payload create = do
      direction ← lift (part parts 9)
      request_id ← lift (part parts 10)
      if str_eq direction "q"
          then remember now create request_id payload
          else respond now parts request_id payload

    unfoldable pub handle_typed : ℕ → List String → List ℕ → DataType → Exec (MqttClient W T) Unit
    handle_typed now parts payload type = do
      command_name ← lift (part parts 2)
      elim (env.command_type type command_name) [
        | none ↦ note no_p2p_handling
        | some create ↦ dispatch_p2p now parts payload create
      ]

    unfoldable pub handle_p2p : ℕ → List String → List ℕ → Exec (MqttClient W T) Unit
    handle_p2p now parts payload = or_log p2p_failed (
        lift (part parts 11) >>= λ type. elim (get_data_type type) [
          | none ↦ note unsupported_type
          | some t ↦ handle_typed now parts payload t
        ])

    -- `_handle_message`
    unfoldable pub handle_message : ℕ → String → List ℕ → Exec (MqttClient W T) Unit
    handle_message now topic payload m =
        let parts = split "/" topic in
        let m1 = record m { last_message_received_at = some now } in
        if env.matches topic "iot/atr/#"
        then handle_atr parts payload m1
        else if env.matches topic "iot/p2p/#"
        then handle_p2p now parts payload m1
        else note unsupported_topic m1
