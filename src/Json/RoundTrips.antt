-- ===== src/Json/RoundTrips.antt =====
-- What a set command sends is read back as the same command.
use client_py.Prelude.{
  ◌≡◌, refl, String, Bool, true, false, ok, pos, ℤ, text_keys, eq_self, if◌then◌else◌,
}
use client_py.Value.{Value, int, dict, field, end, find, to_int, truthy}
use client_py.Command.P2p.{create_values, create_from_mqtt, pop_or_raise, pop_field, set_field}
use client_py.Json.SetCommands.{
  init_one, init_enable, set_volume, set_clean_count, set_cut_direction, set_wash_frequency,
  set_enable,
}

-- The arguments that a set command with a number sends are read back as the same command, for the
-- volume, the count, the direction and the interval; the maximum that the app adds to a volume is
-- dropped.
pub set_number_roundtrip :
    (n : ℤ) (total : Value)
    → (set_volume (field "volume" (int n) (field "total" total end))
        ≡ ok (record { name = "setVolume"; args = dict (field "volume" (int n) end) }))
      × (set_clean_count (field "count" (int n) end)
          ≡ ok (record { name = "setCleanCount"; args = dict (field "count" (int n) end) }))
      × (set_cut_direction (field "angle" (int n) end)
          ≡ ok (record { name = "setCutDirection"; args = dict (field "angle" (int n) end) }))
      × (set_wash_frequency (field "interval" (int n) end)
          ≡ ok (record { name = "setWashInfo"; args = dict (field "interval" (int n) end) }))
unfolding set_volume set_clean_count set_cut_direction set_wash_frequency create_from_mqtt
    create_values pop_or_raise pop_field set_field init_one find to_int
set_number_roundtrip n total = (refl, refl, refl, refl)

-- So are those of a switch, under any field, on and off.
pub set_enable_roundtrip :
    (name key : String) (on : Bool)
    → set_enable name key (field key (int (if on then pos 1 else pos 0)) end)
      ≡ ok (record { name = name; args = dict (field key (int (if on then pos 1 else pos 0)) end) })
unfolding set_enable create_from_mqtt create_values pop_or_raise pop_field set_field init_enable
    find truthy
set_enable_roundtrip name key true =
    rw (set_enable, create_from_mqtt, create_values, pop_or_raise, find, eq_self key)
set_enable_roundtrip name key false =
    rw (set_enable, create_from_mqtt, create_values, pop_or_raise, find, eq_self key)
