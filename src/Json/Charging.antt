-- ===== src/Json/Charging.antt =====
-- What the answers to `getChargeState` tell the bus.
use client_py.Prelude.{◌≡◌, ◌⊎◌, String, Option, some, Result, ok, err}
use client_py.Prelude.Results
use client_py.Value.{Value}
use client_py.Models.{State}
use client_py.Events.{state}
use client_py.Message.World.{
  World, HandlingState, HandlingResult, result, notify, log_parse_failure,
}
use client_py.Message.Body.{settle_body_data}

-- The bus was told nothing, or that the robot is docked.
abbrev pub OnlyDocked : World → World → Type 0
OnlyDocked w w' = (w'.bus ≡ w.bus) ⊎ (w'.bus ≡ (notify (state State.docked) w).bus)

-- What the guard makes of what the handler of the body data did.
abbrev guarded :
    String → Result (Option HandlingResult) × World → Result (Option HandlingResult) × World
guarded name (err e, w) = (ok (some (result HandlingState.error)), log_parse_failure name w)
guarded name (ok o, w) = settle_body_data name o w
