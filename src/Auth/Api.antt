-- ===== src/Auth/Api.antt =====
-- The signed requests of `_AuthClient` and the reading of their responses.
use client_py.Prelude.{
  ℕ, ◌/◌, String, ◌||◌, none, some, List, [], ◌∷◌, ◌++◌, map, Error, Result, ok, err, Exec,
  authentication_error, invalid_authentication, invalid_verification_code, verification_required,
  client_error, timeout_error, leb, str_eq, if◌then◌else◌, text_keys,
}
use client_py.Prelude.Results.{◌>>=◌}
use client_py.Dict.{Dict}
use client_py.Dict
use client_py.Value.{Value, is_dict, is_text}
use client_py.Value
use client_py.Util.Text.{join, lower, nat_text}
use client_py.Util.Sort.{sorted}
use client_py.Util.Countries.{country_china}
use client_py.Auth.Config.{RestConfiguration}
use client_py.Auth.Network.{
  Param, str, number, Params, Request, Failure, timed_out, response_error, raised, unread, json,
  failure, response, Libraries, Client, after,
}

abbrev client_key : String
client_key = "1520391301804"

abbrev client_secret : String
client_secret = "6c319b2a5cd3e66e39159c2e28f2fce9"

abbrev private_api_path : List String
private_api_path =
    "country" ∷ "lang" ∷ "deviceId" ∷ "appCode" ∷ "appVersion" ∷ "channel" ∷ "deviceType" ∷ []

-- `_META` with what `__init__` adds
unfoldable pub meta : RestConfiguration → Params
meta config =
    ("lang", str "EN")
    ∷ ("appCode", str "global_e")
    ∷ ("appVersion", str "3.14.0")
    ∷ ("channel", str "google_play")
    ∷ ("deviceType", str "1")
    ∷ ("country", str (lower config.country))
    ∷ ("deviceId", str config.device_id)
    ∷ []

unfoldable pub param_text : Param → String
param_text (str s) = s
param_text (number n) = nat_text n

-- `str(d[k])` at a key of the dict
unfoldable pub text_at : Params → String → String
text_at d k = elim (Dict.get k d) [ none ↦ "" | some v ↦ param_text v ]

-- `_PRIVATE_API_PATH_FORMAT.format(endpoint=endpoint, **self._meta)`
unfoldable pub private_path : RestConfiguration → String → String
private_path config endpoint = join (
    "/v1/private/" ∷ map (λ k. join (text_at (meta config) k ∷ "/" ∷ [])) private_api_path
    ++ endpoint ∷ [])

-- `sign_on_text` of `__sign`
unfoldable pub sign_on_text : Params → Params → String → String → String
sign_on_text params additional_sign_params key secret =
    let sign_data = Dict.merge additional_sign_params params in
    join (
      key ∷ map (λ k. join (k ∷ "=" ∷ text_at sign_data k ∷ [])) (sorted (Dict.keys sign_data))
      ++ secret ∷ [])

-- `__expect_dict`
unfoldable pub expect_dict : Value → Result Value
expect_dict answer = if is_dict answer then ok answer else err authentication_error

-- The exception for a code that is not "0000"
unfoldable pub code_error : Value → Error
code_error code =
    if is_text code "1005" || is_text code "1010"
    then invalid_authentication
    else if is_text code "1012"
    then invalid_verification_code
    else if is_text code "1013"
    then verification_required
    else authentication_error

-- `__do_auth_response` from the JSON of the response
unfoldable pub read_auth : Value → Result Value
read_auth answer =
    if is_dict answer
    then (Value.get answer "code" >>= λ code.
        if is_text code "0000" then Value.get answer "data" else err (code_error code))
    else err authentication_error

abbrev failure_error : Failure → Error
failure_error timed_out = timeout_error
failure_error (response_error status) = client_error
failure_error (raised e) = e

module _ {K : Type 0} (lib : Libraries K) where
  -- `__sign`: the dict is changed in place.
  unfoldable pub sign : Params → Params → String → String → Params
  sign params additional_sign_params key secret =
      let text = sign_on_text params additional_sign_params key secret in
      Dict.set "authAppkey" (str key) (Dict.set "authSign" (str (lib.md5 text)) params)

  -- `__do_auth_response`
  unfoldable pub do_auth_response : String → Params → Exec (Client K) Value
  do_auth_response url params c =
      let request = Request.get url params in
      let c' = after lib request c in
      elim (lib.answer request c.net) [
        | failure f ↦ (err (failure_error f), c')
        | response status reading ↦
            if leb 400 status then (err client_error, c') else elim reading [
              | unread f ↦ (err (failure_error f), c')
              | json v ↦ (read_auth v, c')
            ]
      ]

  -- `__request_metadata`
  unfoldable pub request_metadata : ℕ → Params
  request_metadata now =
      ("requestId", str (lib.md5 (lib.time_text now)))
      ∷ ("authTimespan", number (now / 1000))
      ∷ ("authTimeZone", str "GMT-8")
      ∷ []

  -- `__call_private_api`
  unfoldable pub call_private_api : RestConfiguration → String → Params → Exec (Client K) Value
  call_private_api config endpoint params c =
      do_auth_response (lib.urljoin config.login_url (private_path config endpoint))
        (sign (Dict.merge params (request_metadata c.net.clock)) (meta config) client_key
          client_secret)
        c

  -- `__call_login_api`
  unfoldable pub call_login_api : RestConfiguration → String → String → Exec (Client K) Value
  call_login_api config account_id password_hash =
      let endpoint =
        if str_eq config.country country_china then "user/loginCheckMobile" else "user/login" in
      call_private_api config endpoint
        (("account", str account_id) ∷ ("password", str password_hash) ∷ [])
