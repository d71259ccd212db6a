-- ===== src/Examples/Names.antt =====
-- The lookup of messages on concrete names.
use client_py.Prelude.{◌≡◌, refl, true, false, some, none}
use client_py.Messages.Lookup.{
  json, command, is_in, json_messages, map_legacy_commands, legacy_commands, commands, is_message,
  drop_prefix, remove_suffix, as_get, legacy_command, get_legacy_message, get_converted, get_from,
  get_message,
}
use client_py.Messages.Legacy.{no_map_no_map_command, legacy_is_served}

on_speed : get_message json false "onSpeed" ≡ some (command "getSpeed")
unfolding get_message get_from get_converted get_legacy_message legacy_command as_get drop_prefix
    remove_suffix json_messages map_legacy_commands legacy_commands commands is_message
on_speed = refl

on_minor_map : get_message json false "onMinorMap" ≡ none
unfolding get_message get_from get_converted get_legacy_message legacy_command as_get drop_prefix
    remove_suffix json_messages map_legacy_commands legacy_commands commands is_message
on_minor_map = refl

no_map_no_map_command_example : is_in "getSpeed" map_legacy_commands ≡ false
no_map_no_map_command_example = no_map_no_map_command json "onSpeed" "getSpeed" on_speed

legacy_is_served_example : legacy_command "getMinorMap" true ≡ some (command "getMinorMap")
unfolding map_legacy_commands legacy_commands
legacy_is_served_example = legacy_is_served "getMinorMap" refl
