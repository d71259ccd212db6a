-- ===== src/Json/Water.antt =====
-- commands/json/water_info.py: four attributes, each told as soon as it was read.
use client_py.Prelude.{
  Option, none, List, [], ◌∷◌, ℤ, pos, ok, Exec, pure, lift, ◌>>=◌, ◌>>◌, if◌then◌else◌,
}
use client_py.Value.{Value, has, item, get, to_int, truthy, is_none}
use client_py.Events.{Event, water_amount, water_custom_amount, mop_attached, water_sweep_type}
use client_py.Message.World.{World, HandlingResult, Handler, notify}
use client_py.Message.Body.{Message, message_body_data_dict}
use client_py.Json.Conclude.{success}
use client_py.Json.Readings.{member}

-- `event_bus.notify(e)`
abbrev pub tell : Event → Exec World (Option HandlingResult)
tell e w = (ok none, notify e w)

abbrev skip : Exec World (Option HandlingResult)
skip = pure none

-- The values of `WaterAmount` and of `SweepType`
abbrev pub water_amounts : List ℤ
water_amounts = pos 1 ∷ pos 2 ∷ pos 3 ∷ pos 4 ∷ []

abbrev pub sweep_types : List ℤ
sweep_types = pos 1 ∷ pos 2 ∷ []

unfoldable pub handle_amount : Value → Exec World (Option HandlingResult)
handle_amount value = do
  present ← lift (has value "amount")
  if present
      then (lift (item value "amount") >>= λ v.
          lift (to_int v) >>= λ n. lift (member water_amounts n) >>= λ a. tell (water_amount a))
      else skip

unfoldable pub handle_custom_amount : Value → Exec World (Option HandlingResult)
handle_custom_amount value = do
  present ← lift (has value "customAmount")
  if present
      then (lift (item value "customAmount") >>= λ v.
          lift (to_int v) >>= λ n. tell (water_custom_amount n))
      else skip

unfoldable pub handle_mop : Value → Exec World (Option HandlingResult)
handle_mop value = do
  attached ← lift (get value "enable")
  if is_none attached then skip else tell (mop_attached (truthy attached))

unfoldable pub handle_sweep_type : Value → Exec World (Option HandlingResult)
handle_sweep_type value = do
  kind ← lift (get value "sweepType")
  if truthy kind
      then (lift (to_int kind) >>= λ n.
          lift (member sweep_types n) >>= λ t. tell (water_sweep_type t))
      else skip

-- `GetWaterInfo._handle_body_data_dict`
unfoldable pub handle_water_info : Handler Value
handle_water_info value = do
  handle_amount value
  handle_custom_amount value
  handle_mop value
  handle_sweep_type value
  pure success

abbrev pub get_water_info : Message
get_water_info = message_body_data_dict "getWaterInfo" handle_water_info
