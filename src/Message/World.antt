-- ===== src/Message/World.antt =====
-- What the handlers of message.py change: the event bus, the counters of parse failures, which are
-- global to the module, and the log. The log keeps the level and what a line is about.
use client_py.Prelude.{
  ℕ, suc, String, Option, none, some, List, [], ◌∷◌, ◌++◌, nat_eq, leb, text_keys, Exec,
  if◌then◌else◌,
}
use client_py.Dict
use client_py.Dict.{Dict}
use client_py.Value.{Fields}
use client_py.Events.{Event}
use client_py.Command.Base.{Command}
use client_py.EventBus.State.{EventBus}
use client_py.EventBus.Notify

pub data Level : Type 0 where
  debug info warning error : Level

-- The lines that the sources log, each with the name of a message or of a command.
pub data Line : Type 0 where
  could_not_parse further_entries no_response could_not_handle could_not_decode : Line
  not_successful offline no_answer could_not_execute timeout_reached : Line

pub record Logged : Type 0 where
  pub level : Level
  pub line : Line
  pub name : String

pub record World : Type 0 where
  pub bus : EventBus
  pub parse_failure_counts : Dict String ℕ
  pub log : List Logged

pub data HandlingState : Type 0 where
  success failed error analyse analyse_logged : HandlingState

pub record HandlingResult : Type 0 where
  pub state : HandlingState
  pub args : Option Fields
  pub requested_commands : List Command

-- `HandlingResult(state)`
abbrev pub result : HandlingState → HandlingResult
result s = record { state = s; args = none; requested_commands = [] }

-- `HandlingResult(HandlingState.ANALYSE_LOGGED, args)`
abbrev pub analysed : HandlingResult → HandlingResult
analysed r = record { state = analyse_logged; args = r.args; requested_commands = [] }

-- A handler; `none` is the `None` that a method without a body returns.
abbrev pub Handler : Type 0 → Type 0
Handler T = T → Exec World (Option HandlingResult)

abbrev pub write : Level → Line → String → World → World
write level line name w = record w {
  log = w.log ++ (record { level = level; line = line; name = name }) ∷ [];
}

abbrev pub notify : Event → World → World
notify e w = record w { bus = Notify.notify e 0 w.bus }

abbrev pub parse_failure_threshold : ℕ
parse_failure_threshold = 3

-- `_parse_failure_counts.get(name, 0)`
unfoldable pub failures : String → World → ℕ
failures name w = elim (Dict.get name w.parse_failure_counts) [ none ↦ 0 | some n ↦ n ]

-- `_log_parse_failure`
unfoldable pub log_parse_failure : String → World → World
log_parse_failure name w =
    let count = suc (failures name w) in
    let w' = record w { parse_failure_counts = Dict.set name count w.parse_failure_counts } in
    if leb count parse_failure_threshold
    then if nat_eq count parse_failure_threshold
      then write warning further_entries name (write warning could_not_parse name w')
      else write warning could_not_parse name w'
    else write debug could_not_parse name w'
