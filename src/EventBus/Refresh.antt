-- ===== src/EventBus/Refresh.antt =====
-- The tasks of the bus when the loop runs them, and `teardown`.
use client_py.Prelude.{
  ℕ, Bool, true, false, none, some, List, [], ◌∷◌, ◌++◌, map, is_empty, nat_eq, if◌then◌else◌, ok,
  err,
}
use client_py.Dict
use client_py.Dict.{Dict}
use client_py.Events.Class.{EventClass, class_keys}
use client_py.EventBus.State.{EventBus, ProcessingData, OnSubscription, data_of, put}
use client_py.EventBus.Subscribe.{remove_first}
use client_py.EventBus.Notify.{cancel_handle}

-- `_call_refresh_function` up to its first await: a class whose refresh runs is skipped, and a
-- class with no commands gives the semaphore back at once. With no entry the task raises.
unfoldable pub begin_refresh : EventClass → ProcessingData → EventBus → EventBus
begin_refresh c d b =
    if d.locked
    then b
    else if is_empty d.refresh_commands
    then b
    else record (put c (record d { locked = true }) b) {
      executed = b.executed ++ d.refresh_commands;
    }

unfoldable pub start_refresh : EventClass → EventBus → EventBus
start_refresh c b = elim (Dict.get c b.processing) [ none ↦ b | some d ↦ begin_refresh c d b ]

-- The commands have ended, by a return or an exception, and the semaphore is free.
unfoldable pub finish_refresh : EventClass → EventBus → EventBus
finish_refresh c b = elim (Dict.get c b.processing) [
  | none ↦ b
  | some d ↦ put c (record d { locked = false }) b
]

abbrev pub is_held : ℕ → List OnSubscription → Bool
is_held id [] = false
is_held id (s ∷ ss) =
    if nat_eq s.id id then elim s.unsub [ none ↦ false | some _ ↦ true ] else is_held id ss

-- `_OnSubscriptionCallback.call` up to its await
unfoldable pub start_call : EventClass → ℕ → EventBus → EventBus
start_call c id b =
    if is_held id (data_of c b).on_subscription_callbacks
    then b
    else record b { calling = b.calling ++ id ∷ [] }

pub hold : ℕ → ℕ → OnSubscription → OnSubscription
hold id u s = if nat_eq s.id id then record s { unsub = some u } else s

-- A callback that was called has returned `u`.
unfoldable pub finish_call : EventClass → ℕ → ℕ → EventBus → EventBus
finish_call c id u b =
    let d = data_of c b in
    elim (remove_first id b.calling) [
      | err e ↦ b
      | ok rest ↦
          record (put c
            (record d { on_subscription_callbacks = map (hold id u) d.on_subscription_callbacks })
            b) { calling = rest }
    ]

-- The exception of its cancelled task ends a callback that was called.
unfoldable pub cancel_call : ℕ → EventBus → EventBus
cancel_call id b = elim (remove_first id b.calling) [
  | err e ↦ b
  | ok rest ↦ record b { calling = rest }
]

-- `handle.cancel()` for each entry with a handle
unfoldable pub cancel_all : Dict EventClass ProcessingData → EventBus → EventBus
cancel_all [] b = b
cancel_all ((c, d) ∷ rest) b = cancel_all rest (cancel_handle d.notify_handle b)

-- `teardown` up to its await: the tasks are cancelled. One that has not begun never runs; a refresh or
-- a call that has begun ends in a later turn of the loop, by `finish_refresh` or `cancel_call`.
unfoldable pub begin_teardown : EventBus → EventBus
begin_teardown b = record b { tasks = [] }

-- `teardown` after its await, which does not wait for all of them and lets timers fire
unfoldable pub end_teardown : EventBus → EventBus
end_teardown b = cancel_all b.processing b
