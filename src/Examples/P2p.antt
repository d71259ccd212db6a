-- ===== src/Examples/P2p.antt =====
-- P2P commands on concrete inputs: the app sets the volume.
use client_py.Prelude.{
  ◌≡◌, refl, true, false, none, some, [], ◌∷◌, pos, Error, Result, ok, err, value_error,
}
use client_py.Value.{Value, Fields, truthy, null, int, dict, field, end, find, get_or, item, is_int}
use client_py.Events.{volume}
use client_py.EventBus.State.{init}
use client_py.Message.World.{World, Handler, notify}
use client_py.Message.Body.{Payload, object, message_body, handle, firmware_version}
use client_py.Command.P2p.{InitParam, create_values, handle_mqtt_p2p, SetCommand}
use client_py.Command.Parameters.{missing_is_refused, set_accepted}
use client_py.Json.Conclude.{success, conclude, notify_each}
use client_py.Json.Status.{handle_execute}
use client_py.Json.Readings.{read_volume, one}
use client_py.Json.SetCommands.{
  int_type, set_volume, set_clean_count, set_cut_direction, set_wash_frequency, set_enable,
}
use client_py.Json.RoundTrips.{set_number_roundtrip, set_enable_roundtrip}

abbrev world : World
world = record { bus = init (λ _. []); parse_failure_counts = []; log = [] }

abbrev no_json : Payload → Result Value
no_json _ = err value_error

abbrev volume_param : InitParam
volume_param = record { type = int_type; rename = none; optional = false }

missing_is_refused_example :
    (e : Error) × (create_values
        (("total", none) ∷ ("volume", some volume_param) ∷ [])
        (field "total" (int (pos 10)) end)
        end
      ≡ err e)
unfolding find
missing_is_refused_example =
    missing_is_refused (("total", none) ∷ []) [] "volume" volume_param
      (field "total" (int (pos 10)) end) end refl refl

abbrev handle_volume : Handler Value
handle_volume value = conclude (one (read_volume value))

abbrev accepted_body : Fields
accepted_body = field "code" (int (pos 0)) end

abbrev accepted : Fields
accepted = field "body" (dict accepted_body) end

abbrev setting : SetCommand
setting = record {
  handle = handle no_json (message_body "setVolume" (handle_execute "setVolume"));
  args = dict (field "volume" (int (pos 3)) end);
  handle_set_args = handle_volume;
}

set_accepted_example :
    handle_mqtt_p2p setting (object accepted) world
    ≡ (ok success, notify (volume (int (pos 3)) null) world)
unfolding truthy firmware_version find get_or item is_int read_volume conclude notify_each
set_accepted_example =
    set_accepted no_json "setVolume" handle_volume (field "volume" (int (pos 3)) end) accepted
      accepted_body (int (pos 0)) null world refl refl refl

set_number_roundtrip_example :
    (set_volume (field "volume" (int (pos 3)) (field "total" (int (pos 10)) end))
      ≡ ok (record { name = "setVolume"; args = dict (field "volume" (int (pos 3)) end) }))
    × (set_clean_count (field "count" (int (pos 3)) end)
        ≡ ok (record { name = "setCleanCount"; args = dict (field "count" (int (pos 3)) end) }))
    × (set_cut_direction (field "angle" (int (pos 3)) end)
        ≡ ok (record { name = "setCutDirection"; args = dict (field "angle" (int (pos 3)) end) }))
    × (set_wash_frequency (field "interval" (int (pos 3)) end)
        ≡ ok (record { name = "setWashInfo"; args = dict (field "interval" (int (pos 3)) end) }))
set_number_roundtrip_example = set_number_roundtrip (pos 3) (int (pos 10))

set_enable_roundtrip_example :
    set_enable "setChildLock" "on" (field "on" (int (pos 1)) end)
    ≡ ok (record { name = "setChildLock"; args = dict (field "on" (int (pos 1)) end) })
set_enable_roundtrip_example = set_enable_roundtrip "setChildLock" "on" true
