-- ===== src/EventBus/State.antt =====
-- The state of `EventBus`. Coroutines that `create_task` has started and that have not run yet are
-- the list `tasks`; timers of the event loop are a dict by identity, so that a handle that was
-- cancelled stays known. Times are in microseconds.
use client_py.Prelude.{
  ℕ, Bool, false, Option, none, some, List, [], ◌∷◌, ◌++◌, is_empty, not, if◌then◌else◌,
}
use client_py.Dict
use client_py.Dict.{Dict}
use client_py.Events.{Event}
use client_py.Events.Class.{EventClass, class_keys}
use client_py.Command.Base.{Command}

-- `_OnSubscriptionCallback`: which object it is, and the function that its callback returned.
pub record OnSubscription : Type 0 where
  pub id : ℕ
  pub unsub : Option ℕ

-- `_EventProcessingData`; `locked` is the state of its semaphore of one permit.
pub record ProcessingData : Type 0 where
  pub refresh_commands : List Command
  pub subscriber_callbacks : List ℕ
  pub locked : Bool
  pub last_event : Option Event
  pub last_event_time : ℕ
  pub notify_handle : Option ℕ
  pub on_subscription_callbacks : List OnSubscription

pub data Task : Type 0 where
  -- `callback(event)`
  deliver : Event → ℕ → Task
  -- `_call_refresh_function(event_class)`
  refresh : EventClass → Task
  -- `_OnSubscriptionCallback.call()`
  call_on_subscription : EventClass → ℕ → Task

-- What `call_later` returns: the event that `_notify` will be given, and `handle.cancelled()`.
pub record Timer : Type 0 where
  pub event : Event
  pub delay : ℕ
  pub cancelled : Bool

pub record EventBus : Type 0 where
  -- `capabilities.get_refresh_commands`
  pub commands_of : EventClass → List Command
  pub processing : Dict EventClass ProcessingData
  pub tasks : List Task
  pub timers : Dict ℕ Timer
  pub next_timer : ℕ
  pub now : ℕ
  -- the commands that were handed to `execute_command`
  pub executed : List Command
  -- the calls of on-subscription callbacks that have not returned
  pub calling : List ℕ
  -- the functions, returned by on-subscription callbacks, that were called
  pub released : List ℕ

abbrev pub new_data : List Command → ProcessingData
new_data commands = record {
  refresh_commands = commands;
  subscriber_callbacks = [];
  locked = false;
  last_event = none;
  last_event_time = 0;
  notify_handle = none;
  on_subscription_callbacks = [];
}

-- `EventBus.__init__`
abbrev pub init : (EventClass → List Command) → EventBus
init commands_of = record {
  commands_of = commands_of;
  processing = [];
  tasks = [];
  timers = [];
  next_timer = 0;
  now = 0;
  executed = [];
  calling = [];
  released = [];
}

-- The entry of a class, or the one that would be created for it.
unfoldable pub data_of : EventClass → EventBus → ProcessingData
data_of c b = elim (Dict.get c b.processing) [ none ↦ new_data (b.commands_of c) | some d ↦ d ]

abbrev pub put : EventClass → ProcessingData → EventBus → EventBus
put c d b = record b { processing = Dict.set c d b.processing }

-- `_get_or_create_event_processing_data`: afterwards the entry is in the dict.
abbrev pub ensure : EventClass → EventBus → EventBus
ensure c b = elim (Dict.get c b.processing) [
  | none ↦ put c (new_data (b.commands_of c)) b
  | some d ↦ b
]

-- `create_task(self._tasks, …)`
abbrev pub spawn : List Task → EventBus → EventBus
spawn ts b = record b { tasks = b.tasks ++ ts }

unfoldable pub has_subscribers : EventClass → EventBus → Bool
has_subscribers c b = elim (Dict.get c b.processing) [
  | none ↦ false
  | some d ↦ not (is_empty d.subscriber_callbacks)
]

unfoldable pub request_refresh : EventClass → EventBus → EventBus
request_refresh c b = if has_subscribers c b then spawn (refresh c ∷ []) b else b

unfoldable pub get_last_event : EventClass → EventBus → Option Event
get_last_event c b = elim (Dict.get c b.processing) [ none ↦ none | some d ↦ d.last_event ]
