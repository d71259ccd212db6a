-- ===== src/Messages/Lookup.antt =====
-- messages/__init__.py and messages/json/__init__.py: which class handles a message of a name. A
-- class is known by the table that it stands in and by its `NAME`.
use Prim.Native.Char.{code}
use client_py.Prelude.{
  ℕ, String, Bool, ◌&&◌, not, Option, none, some, List, [], ◌∷◌, ◌++◌, any, nat_eq, str_eq,
  if◌then◌else◌,
}

pub data DataType : Type 0 where
  json xml other : DataType

-- A class of messages: of the table of messages of a data type, or of the commands.
pub data MessageClass : Type 0 where
  message : DataType → String → MessageClass
  command : String → MessageClass

abbrev pub is_in : String → List String → Bool
is_in name names = any (str_eq name) names

-- The names in the tables `MESSAGES`
unfoldable pub json_messages : List String
json_messages =
    "onAutoEmpty" ∷ "onBattery" ∷ "onGpsPos" ∷ "onCachedMapInfo" ∷ "onMajorMap" ∷ "onMapInfo_V2"
    ∷ "onMapSet_V2" ∷ "onStationState" ∷ "onStats" ∷ "reportStats" ∷ "onWorkState" ∷ []

unfoldable pub xml_messages : List String
xml_messages =
    "BatteryInfo" ∷ "ChargeState" ∷ "CleanedPos" ∷ "CleanReport" ∷ "CleanReportServer" ∷ "CleanSt"
    ∷ "MapP" ∷ "trace" ∷ "Pos" ∷ []

-- `_MAP_LEGACY_COMMANDS`, and what `_LEGACY_USE_GET_COMMAND` adds to it
unfoldable pub map_legacy_commands : List String
map_legacy_commands =
    "getCachedMapInfo" ∷ "getMapSet" ∷ "getMapSubSet" ∷ "getMapTrace" ∷ "getMinorMap"
    ∷ "getMultiMapState" ∷ []

unfoldable pub legacy_commands : List String
legacy_commands =
    "getAdvancedMode" ∷ "getBreakPoint" ∷ "getCarpertPressure" ∷ "getChargeState" ∷ "getCleanCount"
    ∷ "getCleanInfo" ∷ "getCleanPreference" ∷ "getEfficiency" ∷ "getError" ∷ "getLifeSpan"
    ∷ "getNetInfo" ∷ "getPos" ∷ "getSpeed" ∷ "getSweepMode" ∷ "getTotalStats" ∷ "getTrueDetect"
    ∷ "getVoiceAssistantState" ∷ "getVolume" ∷ "getWaterInfo" ∷ "getWorkMode" ∷ []

-- The names in `COMMANDS`, in the order of the list
unfoldable pub commands : List String
commands =
    "getAdvancedMode" ∷ "setAdvancedMode" ∷ "getAutoEmpty" ∷ "setAutoEmpty" ∷ "getBorderSpin"
    ∷ "setBorderSpin" ∷ "getBorderSwitch" ∷ "setBorderSwitch" ∷ "getBattery" ∷ "getCarpertPressure"
    ∷ "setCarpertPressure" ∷ "getCleanCount" ∷ "setCleanCount" ∷ "getCleanPreference"
    ∷ "setCleanPreference" ∷ "clearMap" ∷ "charge" ∷ "getChargeState" ∷ "getChildLock"
    ∷ "setChildLock" ∷ "clean" ∷ "clean_V2" ∷ "getCleanInfo" ∷ "getCleanInfo_V2" ∷ "GetCleanLogs"
    ∷ "getBreakPoint" ∷ "setBreakPoint" ∷ "getCrossMapBorderWarning" ∷ "setCrossMapBorderWarning"
    ∷ "getEfficiency" ∷ "setEfficiency" ∷ "getError" ∷ "getSpeed" ∷ "setSpeed" ∷ "getLifeSpan"
    ∷ "resetLifeSpan" ∷ "getCachedMapInfo" ∷ "getMajorMap" ∷ "getMapInfo_V2" ∷ "getMapSet"
    ∷ "getMapSet_V2" ∷ "getMapSubSet" ∷ "getMapTrace" ∷ "getMinorMap" ∷ "setMajorMap"
    ∷ "getWashInfo" ∷ "setWashInfo" ∷ "getMoveupWarning" ∷ "setMoveupWarning" ∷ "getMultiMapState"
    ∷ "setMultiMapState" ∷ "getNetInfo" ∷ "GetNetInfo" ∷ "getOta" ∷ "setOta" ∷ "playSound"
    ∷ "getPos" ∷ "setRelocationState" ∷ "getSafeProtect" ∷ "setSafeProtect" ∷ "stationAction"
    ∷ "getStationState" ∷ "getSweepMode" ∷ "setSweepMode" ∷ "getStats" ∷ "getTotalStats"
    ∷ "getTrueDetect" ∷ "setTrueDetect" ∷ "getVoiceAssistantState" ∷ "setVoiceAssistantState"
    ∷ "getVolume" ∷ "setVolume" ∷ "getWaterInfo" ∷ "setWaterInfo" ∷ "getWorkMode" ∷ "setWorkMode"
    ∷ []

-- `issubclass(found_command, Message)`: all but `GetCleanLogs` are commands with message handling.
unfoldable pub is_message : String → Bool
is_message name = not (str_eq name "GetCleanLogs")

-- What is left of a text after a prefix, which stands as code points.
unfoldable pub drop_prefix : List ℕ → String → Option String
drop_prefix [] s = some s
drop_prefix (p ∷ ps) String.[] = none
drop_prefix (p ∷ ps) (String.◌∷◌ c s) =
    let rest = drop_prefix ps s in if nat_eq (code c) p then rest else none

-- `name.removesuffix(suffix)`
unfoldable pub remove_suffix : String → String → String
remove_suffix suffix String.[] = String.[]
remove_suffix suffix (String.◌∷◌ c s) =
    let rest = remove_suffix suffix s in
    if str_eq (String.◌∷◌ c s) suffix then String.[] else String.◌∷◌ c rest

abbrev pub get_prefix : String → String
get_prefix s = String.◌∷◌ "g" (String.◌∷◌ "e" (String.◌∷◌ "t" s))

-- `re.sub("^((on)|(off)|(report))", "get", name)`: the first alternative that fits
unfoldable pub as_get : String → String
as_get name = elim (drop_prefix (b'o' ∷ b'n' ∷ []) name) [
  | some rest ↦ get_prefix rest
  | none ↦ elim (drop_prefix (b'o' ∷ b'f' ∷ b'f' ∷ []) name) [
    | some rest ↦ get_prefix rest
    | none ↦ elim (drop_prefix (b'r' ∷ b'e' ∷ b'p' ∷ b'o' ∷ b'r' ∷ b't' ∷ []) name) [
      | some rest ↦ get_prefix rest
      | none ↦ name
    ]
  ]
]

-- The rest of `get_legacy_message`, with the name of a get command.
unfoldable pub legacy_command : String → Bool → Option MessageClass
legacy_command name has_map =
    if not (is_in name (map_legacy_commands ++ legacy_commands))
    then none
    else if not has_map && is_in name map_legacy_commands
    then none
    else if is_in name commands && is_message name
    then some (command name)
    else none

-- `get_legacy_message`
unfoldable pub get_legacy_message : String → Bool → Option MessageClass
get_legacy_message converted has_map = legacy_command (as_get converted) has_map

-- What follows a lookup that has found nothing under the full name.
unfoldable pub get_converted : DataType → List String → Bool → String → Option MessageClass
get_converted type messages has_map converted =
    if is_in converted messages
    then some (message type converted)
    else elim type [ json ↦ get_legacy_message converted has_map | _ ↦ none ]

unfoldable pub get_from : DataType → List String → Bool → String → Option MessageClass
get_from type messages has_map name =
    if is_in name messages
    then some (message type name)
    else get_converted type messages has_map (remove_suffix "_V2" name)

-- `get_message`
unfoldable pub get_message : DataType → Bool → String → Option MessageClass
get_message json has_map name = get_from json json_messages has_map name
get_message xml has_map name = get_from xml xml_messages has_map name
get_message other has_map name = none
