-- ===== src/ApiClient.antt =====
-- api_client.py: the devices and the product map that the API answers with. The requests are those of the
-- authenticator, whose outcomes are arguments.
use client_py.Prelude.{
  String, Bool, true, false, ◌||◌, List, [], ◌∷◌, ◌++◌, pos, Error, deebot_error, api_error,
  api_timeout, map_error, mqtt_error, authentication_error, invalid_authentication,
  invalid_verification_code, verification_required, type_error, Result, ok, err, str_eq,
  if◌then◌else◌,
}
use client_py.Prelude.Results.{◌>>=◌}
use client_py.Dict.{Dict}
use client_py.Value.{
  Value, Items, nil, cons, end, text, list, dict, get, item, has, is_text, is_int, value_eq,
}
use client_py.Json.Station.{hashable}
use client_py.Auth.Post.{Credentials}

-- A dict whose keys are values, in the order of insertion
abbrev pub Table : Type 0
Table = List (Value × Value)

unfoldable pub set_entry : Value → Value → Table → Table
set_entry key value [] = (key, value) ∷ []
set_entry key value ((k, v) ∷ table) =
    if value_eq k key then (k, value) ∷ table else (k, v) ∷ set_entry key value table

-- `api_devices.update`
unfoldable pub update : Table → Table → Table
update table [] = table
update table ((k, v) ∷ other) = update (set_entry k v table) other

-- What a `for` takes from the value; where it would take texts, as from a dict, their fields are asked for
-- next, which a text does not have.
abbrev entries : Value → Result Items
entries (list vs) = ok vs
entries (dict end) = ok nil
entries (text s) = if str_eq s "" then ok nil else err type_error
entries _ = err type_error

-- The JSON of the request of `_get_devices`
abbrev pub devices_request : Credentials → String → Dict String Value
devices_request credentials command = ("userid", credentials.user_id) ∷ ("todo", text command) ∷ []

unfoldable pub by_id : Items → Table → Result Table
by_id nil result = ok result
by_id (cons device devices) result =
    item device "did" >>= hashable >>= λ did. by_id devices (set_entry did device result)

-- `_get_devices`, from its answer on
unfoldable pub read_devices : Value → Result Table
read_devices resp = has resp "devices" >>= λ present.
    if present then (item resp "devices" >>= entries >>= λ devices. by_id devices []) else ok []

unfoldable pub get_devices_by_id : Result Credentials → Result Value → Result Table
get_devices_by_id authenticated answer = authenticated >>= λ _. answer >>= read_devices

-- The end of the task group: both results, or the exceptions of the group in their order.
pub data Gathered : Type 0 where
  both : Table → Table → Gathered
  failed : Error → List Error → Gathered

abbrev pub is_deebot_error : Error → Bool
is_deebot_error deebot_error = true
is_deebot_error api_error = true
is_deebot_error api_timeout = true
is_deebot_error map_error = true
is_deebot_error mqtt_error = true
is_deebot_error authentication_error = true
is_deebot_error invalid_authentication = true
is_deebot_error invalid_verification_code = true
is_deebot_error verification_required = true
is_deebot_error _ = false

-- `_collapse_exception_group` and what is raised for it
unfoldable pub gathered : Gathered → Result Table
gathered (both devices global_devices) = ok (update devices global_devices)
gathered (failed e others) = err (if is_deebot_error e then e else api_error)

pub record Devices : Type 0 where
  pub mqtt : List Value
  pub xmpp : List Value
  pub not_supported : List Value

abbrev pub no_devices : Devices
no_devices = record { mqtt = []; xmpp = []; not_supported = [] }

-- `get_static_device_info`, whether it finds the class
module _ (static_info : Value → Result Bool) where
  unfoldable pub add_device : Value → Devices → Result Devices
  add_device device ds = get device "company" >>= λ company.
      if is_text company "eco-ng"
      then (item device "class" >>= static_info >>= λ known. ok (
          if known
          then record ds { mqtt = ds.mqtt ++ device ∷ [] }
          else record ds { not_supported = ds.not_supported ++ device ∷ [] }))
      else if is_text company "eco-legacy"
      then ok (record ds { xmpp = ds.xmpp ++ device ∷ [] })
      else ok (record ds { not_supported = ds.not_supported ++ device ∷ [] })

  unfoldable pub add_devices : Table → Devices → Result Devices
  add_devices [] ds = ok ds
  add_devices ((did, device) ∷ devices) ds = add_device device ds >>= add_devices devices

  unfoldable pub get_devices : Gathered → Result Devices
  get_devices g = gathered g >>= λ devices. add_devices devices no_devices

unfoldable pub products : Items → Table → Result Table
products nil result = ok result
products (cons entry entries) result = do
  product ← item entry "product"
  classid ← item entry "classid" >>= hashable
  products entries (set_entry classid product result)

-- `get_product_iot_map`, from its answer on
unfoldable pub read_product_iot_map : Value → Result Table
read_product_iot_map resp = get resp "code" >>= λ code.
    if is_int code (pos 0) || is_text code "0000"
    then (item resp "data" >>= entries >>= λ data_entries. products data_entries [])
    else (item resp "error" >>= λ error. item resp "errno" >>= λ errno. err api_error)
