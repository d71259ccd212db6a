-- ===== src/Mqtt/Config.antt =====
-- `_get_topics`, `MqttConfiguration` and `create_mqtt_config` of mqtt_client.py.
use client_py.Prelude.{
  ℕ, ◌≡◌, refl, String, Option, none, some, List, [], ◌∷◌, mqtt_error, Result, ok, err, str_eq,
  nat_eq, if◌then◌else◌, arith,
}
use client_py.Prelude.Results.{◌>>=◌}
use client_py.Util.Text.{join, upper}
use client_py.Util.Countries.{get_continent_url_postfix}
use client_py.Messages.Lookup.{DataType, json, xml, other}

-- The fields of `DeviceInfo` that the topics name; `other` is no data type of a device.
pub record DeviceInfo : Type 0 where
  pub did : String
  pub device_class : String
  pub resource : String
  pub data_type : DataType

abbrev pub type_text : DataType → String
type_text json = "j"
type_text xml = "x"
type_text other = ""

abbrev pub device_path : DeviceInfo → String
device_path d = join (d.did ∷ "/" ∷ d.device_class ∷ "/" ∷ d.resource ∷ [])

-- `_get_topics`
unfoldable pub get_topics : DeviceInfo → List String
get_topics d =
    join ("iot/atr/+/" ∷ device_path d ∷ "/" ∷ type_text d.data_type ∷ [])
    ∷ join ("iot/p2p/+/+/+/+/" ∷ device_path d ∷ "/q/+/" ∷ type_text d.data_type ∷ [])
    ∷ join ("iot/p2p/+/" ∷ device_path d ∷ "/+/+/+/p/+/" ∷ type_text d.data_type ∷ [])
    ∷ []

-- A context that the caller gives, the default one, or the default one without verification.
pub data SslContext : Type 0 where
  given : ℕ → SslContext
  default_context unverified : SslContext

-- `SSLContext | UndefinedType | None`
pub data SslArgument : Type 0 where
  undefined : SslArgument
  passed : Option SslContext → SslArgument

-- What `urlparse` finds in the URL that overrides the host.
pub record Url : Type 0 where
  pub scheme : String
  pub hostname : Option String
  pub port : Option ℕ

pub record MqttConfiguration : Type 0 where
  pub hostname : String
  pub port : ℕ
  pub ssl_context : Option SslContext
  pub device_id : String

abbrev context_or : Option SslContext → SslArgument → Option SslContext
context_or default undefined = default
context_or default (passed c) = c

-- The port and the context for a scheme
unfoldable pub scheme_defaults : SslArgument → String → Result (ℕ × Option SslContext)
scheme_defaults ssl scheme =
    if str_eq scheme "mqtt"
    then ok (1883, context_or none ssl)
    else if str_eq scheme "mqtts"
    then ok (8883, context_or (some default_context) ssl)
    else err mqtt_error

-- `not url.hostname`
unfoldable pub host_of : Url → Result String
host_of url = elim url.hostname [
  | none ↦ err mqtt_error
  | some h ↦ if str_eq h "" then err mqtt_error else ok h
]

-- `url.port or default_port`
abbrev port_or : ℕ → Option ℕ → ℕ
port_or default none = default
port_or default (some p) = if nat_eq p 0 then default else p

unfoldable pub create_mqtt_config :
    String → String → Option Url → SslArgument → Result MqttConfiguration
create_mqtt_config device_id country none ssl = ok (record {
  hostname = join ("mq" ∷ get_continent_url_postfix (upper country) ∷ ".ecouser.net" ∷ []);
  port = 443;
  ssl_context = context_or (some unverified) ssl;
  device_id = device_id;
})
create_mqtt_config device_id country (some url) ssl = do
  (default_port, context) ← scheme_defaults ssl url.scheme
  host ← host_of url
  ok (record {
    hostname = host;
    port = port_or default_port url.port;
    ssl_context = context;
    device_id = device_id;
  })

-- A configuration whose context does not verify the server, where none was passed, is that of the
-- host of Ecovacs: with another broker the certificate is verified or no TLS is used.
pub unverified_is_ecovacs :
    (device_id country : String) (override : Option Url) (c : MqttConfiguration)
    → create_mqtt_config device_id country override undefined ≡ ok c
    → c.ssl_context ≡ some unverified
    → override ≡ none
unfolding create_mqtt_config scheme_defaults host_of
unverified_is_ecovacs device_id country none c h u = refl
unverified_is_ecovacs device_id country (some url) c h u = ground arith
