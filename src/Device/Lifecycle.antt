-- ===== src/Device/Lifecycle.antt =====
-- The life of a `Device`: `__init__`, `initialize`, the check of its availability, and `teardown`.
use client_py.Prelude.{
  ℕ, ◌-◌, ◌*◌, Bool, true, false, Option, none, some, List, [], ◌∷◌, all, ltb, Result, ok, err,
  if◌then◌else◌,
}
use client_py.Events.Class.{EventClass}
use client_py.EventBus.State.{EventBus}
use client_py.EventBus.Refresh
use client_py.Command.Execute.{DeviceCommandResult}
use client_py.Auth.Post.{Credentials}
use client_py.Mqtt.Client.{MqttClient, SubscriberInfo, TaskState}
use client_py.Mqtt.Session
use client_py.Map.Data.{MapState}
use client_py.Map.Wiring
use client_py.Device.State.{Device, running_task, begin_commands, set_available, cancel_tasks}

-- The callbacks of `__init__`, in order
abbrev pub subscriptions : Wiring.Subscriptions
subscriptions =
    (EventClass.positions, 200)
    ∷ (EventClass.state, 201)
    ∷ (EventClass.stats, 202)
    ∷ (EventClass.custom_command, 203)
    ∷ (EventClass.network_info, 204)
    ∷ (EventClass.firmware, 205)
    ∷ []

-- `__init__`, from the bus that the map, if there is one, has subscribed to
unfoldable pub init : EventBus → Device
init b = record {
  world = record {
    bus = Wiring.subscribe_all subscriptions b;
    parse_failure_counts = [];
    log = [];
  };
  state = none;
  last_time_available = b.now;
  available_task = none;
  subscribed = false;
  fw_version = none;
  mac = none;
  executing = [];
  waiting = [];
  requested = [];
}

abbrev needs_task : Option TaskState → Bool
needs_task (some TaskState.running) = false
needs_task _ = true

-- The end of `initialize`
unfoldable pub start_task : Device → Device
start_task d =
    if needs_task d.available_task then record d { available_task = some TaskState.running } else d

-- `initialize`; if `client.subscribe` raises, no task is started.
module _ {W T : Type 0} where
  unfoldable pub initialize :
      Result Credentials
      → SubscriberInfo
      → Device × MqttClient W T
      → Result {0} Unit × Device × MqttClient W T
  initialize authenticated info (d, client) =
      let (r, client1) = Session.subscribe authenticated info client in
      let subscribed = elim r as (λ _. Result {0} Unit × Device × MqttClient W T) [
        | err e ↦ (err e, d, client1)
        | ok _ ↦ (ok tt, start_task (record d { subscribed = true }), client1)
      ] in
      if d.subscribed then (ok tt, start_task d, client) else subscribed

-- `_AVAILABLE_CHECK_INTERVAL - 1`, in microseconds
abbrev pub silence : ℕ
silence = (60 - 1) * 1000000

abbrev pub is_due : Device → Bool
is_due d = ltb silence (d.world.bus.now - d.last_time_available)

-- A turn of `_available_task_worker`, up to `asyncio.gather`
unfoldable pub begin_check : Device → Device
begin_check d =
    if is_due d
    then begin_commands running_task (d.world.bus.commands_of EventClass.availability) d
    else d

-- The turn from the results on; if a command raised, the others are cancelled and nothing is told.
unfoldable pub finish_check : Option (List DeviceCommandResult) → Device → Device
finish_check none d = d
finish_check (some results) d = set_available (all (λ r. r.device_reached) results) d

abbrev leave : {W T : Type 0} → SubscriberInfo → Bool → MqttClient W T → MqttClient W T
leave info subscribed client = if subscribed then Session.unsubscribe info client else client

-- `map.teardown`, on the bus of the device
abbrev teardown_map :
    {D : Type 0} → Option (MapState D) → EventBus → Result (Option (MapState D) × EventBus)
teardown_map none b = ok (none, b)
teardown_map (some m) b = elim (Wiring.teardown (record m { bus = b })) [
  | err e ↦ err e
  | ok m' ↦ ok (some m', m'.bus)
]

abbrev ended : Option TaskState → Option TaskState
ended none = none
ended (some t) = some TaskState.done

-- `teardown` before the map is torn down, with no other turn of the loop between its parts
unfoldable pub stop : Device → Device
stop d =
    let d1 =
      cancel_tasks (record d { subscribed = false; available_task = ended d.available_task }) in
    record d1 {
      world = record d1.world { bus = Refresh.end_teardown (Refresh.begin_teardown d1.world.bus) };
    }

unfoldable pub teardown :
    {W T D : Type 0}
    → SubscriberInfo
    → Option (MapState D)
    → Device × MqttClient W T
    → Result (Option (MapState D) × Device × MqttClient W T)
teardown info m (d, client) =
    let d1 = stop d in
    let client1 = leave info d.subscribed client in
    elim (teardown_map m d1.world.bus) [
      | err e ↦ err e
      | ok (m', b) ↦ ok (m', record d1 { world = record d1.world { bus = b } }, client1)
    ]
