-- ===== src/Lib.antt =====
-- A model of the Python client of the Ecovacs devices (deebot_client), with the theorems that its
-- core rests on.
--
-- The program and its parts. A device talks over MQTT and a REST API. What it says is taken apart
-- by the classes of deebot_client/message.py and read by those of deebot_client/messages and
-- deebot_client/commands, which tell the event bus of deebot_client/event_bus.py what they found.
-- The bus keeps the last event of every class, tells the subscribers, and asks for commands to be
-- executed when a subscriber needs a value. A command of deebot_client/command.py is sent, and its
-- response goes through the same classes as a message.
--
-- Files.
-- - Prelude: tests, lists, integers, exceptions (`Result`) and code that changes a state and may
--   raise (`Exec`). Dict: Python's dict in the order of insertion. Value: what `orjson.loads` returns
--   and what Python's operators do with it; Value/Text: `int(s)` and `in` on texts.
-- - Models, Events, Events/Class: the enumerations of deebot_client/models.py and of
--   deebot_client/events, and the events as one data type. `class_of` is `type(event)`, and
--   `event_eq` is the `__eq__` of the dataclasses.
-- - EventBus/State, Subscribe, Notify, Refresh: the state and every operation of
--   deebot_client/event_bus.py. A coroutine that `create_task` started waits in `tasks` until a step
--   runs it; a timer of the loop is an entry of `timers`. `notify_now` is `_notify`, `start_refresh`
--   and `finish_refresh` are `_call_refresh_function` before and after its commands, `start_call` and
--   `finish_call` are `_OnSubscriptionCallback.call` before and after its await; `begin_teardown` and `end_teardown` are `teardown` before and after its own.
-- - EventBus/Steps: the bus under the loop, as a relation of steps in any order. Entries, Delivery,
--   Frame, Locks, Invariant and Timers are the lemmas of what each operation changes; Exclusion, Debounce,
--   Publishing, Subscriptions and Teardown are the theorems.
-- - Message/World, Wrap, Body: deebot_client/message.py. The state of a handler is the bus, the
--   counters of parse failures and the log. A base class is a function from the method that it leaves
--   open to the method of its own base. Routing and Throttle are the theorems.
-- - Command/Execute: `Command.execute`, `_execute`, `__handle_response` and the response of a
--   `CommandWithMessageHandling`, on what the request returned or raised. Command/P2p:
--   `_create_from_mqtt` and `SetCommand._handle_mqtt_p2p`. Outcome and Parameters: the theorems.
-- - Json: the classes of deebot_client/commands/json and deebot_client/messages/json. Status: cleaning,
--   charging; Station: work and station states; Errors: error codes; Water; Readings: the classes that
--   read one value; CleanCommands: the commands of clean.py; SetCommands: the set commands with one
--   parameter; MapTrace, MapSets, MapCached and MajorMap: the classes of the map; Paging: the requests that follow
--   each other. Docking, Charging, WorkEvents, Resume and RoundTrips are the theorems.
-- - Util: the countries of deebot_client/util, and what the sources do with texts and `sorted`.
-- - Auth/Network, Config, Post, Api, Key, Login: `_AuthClient` of deebot_client/authentication.py. The
--   network is an argument that answers each request; Post is `post` with its retries, Api is the
--   signed requests, Key the public key, Login the way to credentials. Auth/Authenticator: the
--   credentials and the timer that renews them; Authenticator/Lock: the calls under the lock, each cut at
--   its login; Authenticator/Steps: the runs. Retries, Signing, Renewal, Sharing and Teardown are the theorems.
-- - Map/Data, Handlers, Wiring: deebot_client/map.py, with its state, its callbacks and its subscriptions on
--   the bus. Current and Image are the theorems.
-- - Mqtt/Config, Client, Session: deebot_client/mqtt_client.py. Client is the handling of messages,
--   Session the task with its sessions and the queue of subscriptions, where `work` is one turn of
--   `_pending_subscriptions_worker`. Queue, Topics, Delivery and Requests are the theorems.
-- - Device/State, Handlers, Lifecycle: deebot_client/device.py. State has the commands under the semaphore,
--   Handlers the callbacks and the messages, Lifecycle the rest. Limit is the theorem, on the runs of a device.
-- - ApiClient: deebot_client/api_client.py, from the outcomes of its requests on.
-- - Messages/Lookup: `get_message` of deebot_client/messages and `get_legacy_message` of
--   deebot_client/messages/json, with their tables. Legacy: the theorems.
-- - Examples: runs on concrete inputs.
--
-- Bounds. Times are natural numbers of microseconds since the first `last_event_time`, and Python's
-- unbounded integers are ℤ. The
-- recursions are on lists and values, but for `pages` of Json/Paging, whose fuel is the number of requests that
-- the trace may need.
--
-- Arguments. `orjson.loads` is an argument of `handle`; aiohttp with its servers and the
-- cryptography are the record `Libraries`, the broker and the cache of commands `Surroundings`, and the drawing of the map, which is
-- the repository's Rust code under src/map, `Drawing`: a test of a checksum may change it, and each of its methods
-- may raise. What an on-subscription
-- callback returns, and when a command, a timer or a callback ends, is free in the steps.
--
-- Not modelled: the XML commands, the tables of hardware, and the text of the log lines. A float of a
-- message is kept as its decimal, and `int` and `strip` know ASCII digits and spaces only.
pub mod Prelude
pub mod Auth
pub mod Mqtt
pub mod Map
pub mod Device
pub mod ApiClient
pub mod Util
pub mod Dict
pub mod Value
pub mod Models
pub mod Events
pub mod Command
pub mod EventBus
pub mod Message
pub mod Json
pub mod Messages
pub mod Examples
