-- ===== src/Auth/Login.antt =====
-- The login of `_AuthClient`: from the account and the password, or a verification code, to
-- credentials.
use client_py.Prelude.{
  ℕ, zero, suc, ◌/◌, String, Option, none, some, [], ◌∷◌, ℤ, pos, ◌+ℤ◌, authentication_error,
  Result, ok, err, Exec, pure, raise, lift, ◌>>=◌, ◌>>◌, str_eq, if◌then◌else◌,
}
use client_py.Prelude.Results
use client_py.Dict.{Dict}
use client_py.Value.{
  Value, null, boolean, int, text, item, get_or, is_text, to_int, truncate, scale,
}
use client_py.Util.Text.{int_text, strip}
use client_py.Util.Countries.{country_china}
use client_py.Auth.Config.{RestConfiguration}
use client_py.Auth.Network.{str, number, Libraries, Client}
use client_py.Auth.Post.{Credentials, realm, path_users_user, post}
use client_py.Auth.Api.{expect_dict, sign, do_auth_response, call_private_api, call_login_api}
use client_py.Auth.Key.{encrypt_account}

-- What `_AuthClient` is made with.
pub record Account : Type 0 where
  pub config : RestConfiguration
  pub account_id : String
  pub password_hash : String

abbrev auth_client_key : String
auth_client_key = "1520391491841"

abbrev auth_client_secret : String
auth_client_secret = "77ef58ce3afbe337da74aa8c5ab963a9"

-- The body of the request in `__call_login_by_it_token`
unfoldable pub token_body : RestConfiguration → String → String → Dict String Value
token_body config user_id auth_code =
    let in_china = str_eq config.country country_china in
    ("edition", text "ECOGLOBLE")
    ∷ ("userId", text user_id)
    ∷ ("token", text auth_code)
    ∷ ("realm", text realm)
    ∷ ("resource", text config.device_id)
    ∷ ("org", text (if in_china then "ECOCN" else "ECOWW"))
    ∷ ("last", text "")
    ∷ ("country", text (if in_china then "Chinese" else config.country))
    ∷ ("todo", text "loginByItToken")
    ∷ []

-- The exception needs both fields for its message.
unfoldable pub token_failure : Value → Result (Option Value)
token_failure resp =
    Results.◌>>=◌ (item resp "error")
      λ _. Results.◌>>=◌ (item resp "errno") λ _. err authentication_error

unfoldable pub token_refused : Value → Result (Option Value)
token_refused resp =
    Results.◌>>=◌ (item resp "error")
      λ e. if is_text e "set token error." then ok none else token_failure resp

-- A response in the loop of `__call_login_by_it_token`; none is `continue`.
unfoldable pub read_token_response : Value → Result (Option Value)
read_token_response resp = Results.◌>>=◌ (item resp "result") λ result.
    if is_text result "ok"
    then ok (some resp)
    else if is_text result "fail"
    then token_refused resp
    else token_failure resp

-- `expires_at` at a time and with a validity in milliseconds
unfoldable pub expiry : ℕ → ℤ → ℤ
expiry now last = truncate (pos now +ℤ scale last 990) 6

unfoldable pub make_credentials : String → Value → ℕ → Result Credentials
make_credentials user_id resp now = Results.◌>>=◌ (item resp "userId") λ uid.
    Results.◌>>=◌ (item resp "token") λ token.
      Results.◌>>=◌ (get_or resp "last" (int (pos 604800))) λ last.
        Results.◌>>=◌ (to_int last) λ validity. ok (record {
          token = token;
          user_id = if is_text uid user_id then text user_id else uid;
          expires_at = expiry now validity;
        })

module _ {K : Type 0} (lib : Libraries K) where
  -- `str(v)`
  unfoldable pub value_text : Value → String
  value_text (text s) = s
  value_text (int n) = int_text n
  value_text null = "None"
  value_text (boolean b) = if b then "True" else "False"
  value_text v = lib.repr v

  -- `__call_auth_api`
  unfoldable pub call_auth_api : RestConfiguration → String → String → Exec (Client K) String
  call_auth_api config access_token user_id c =
      let params =
        ("uid", str user_id)
        ∷ ("accessToken", str access_token)
        ∷ ("bizType", str "ECOVACS_IOT")
        ∷ ("deviceId", str config.device_id)
        ∷ ("authTimespan", number (c.net.clock / 1000))
        ∷ [] in
      (do_auth_response lib (lib.urljoin config.auth_code_url "/v1/global/auth/getAuthCode")
            (sign lib params (("openId", str "global") ∷ []) auth_client_key auth_client_secret)
          >>= λ answer. lift (
              Results.◌>>=◌ (expect_dict answer)
                λ res. Results.◌>>=◌ (item res "authCode") λ code. ok (value_text code)))
        c

  -- One turn of the loop of `__call_login_by_it_token`
  unfoldable pub token_attempt :
      RestConfiguration → Dict String Value → Exec (Client K) (Option Value)
  token_attempt config body =
      post lib config path_users_user body [] [] none >>= λ resp. lift (read_token_response resp)

  unfoldable pub token_loop : ℕ → RestConfiguration → Dict String Value → Exec (Client K) Value
  token_loop zero config body = raise authentication_error
  token_loop (suc n) config body = token_attempt config body >>= λ r. elim r [
    | none ↦ token_loop n config body
    | some resp ↦ pure resp
  ]

  -- `__call_login_by_it_token`
  unfoldable pub call_login_by_it_token :
      RestConfiguration → String → String → Exec (Client K) Value
  call_login_by_it_token config user_id auth_code =
      token_loop 3 config (token_body config user_id auth_code)

  -- The texts of the login response
  unfoldable pub read_login : Value → Result (String × String)
  read_login response = elim (expect_dict response) [
    | err e ↦ err e
    | ok fields ↦ elim (item fields "uid") [
      | err e ↦ err authentication_error
      | ok uid ↦ elim (item fields "accessToken") [
        | err e ↦ err authentication_error
        | ok token ↦ ok (value_text uid, value_text token)
      ]
    ]
  ]

  -- `__complete_login`
  unfoldable pub complete_login : RestConfiguration → Value → Exec (Client K) Credentials
  complete_login config response = do
    (user_id, access_token) ← lift (read_login response)
    auth_code ← call_auth_api config access_token user_id
    resp ← call_login_by_it_token config user_id auth_code
    λ c. (make_credentials user_id resp c.net.clock, c)

  unfoldable pub login : Account → Exec (Client K) Credentials
  login a = call_login_api lib a.config a.account_id a.password_hash >>= complete_login a.config

  unfoldable pub request_device_verification_code : Account → Exec (Client K) Unit
  request_device_verification_code a = do
    encrypted_email ← encrypt_account lib a.config a.account_id
    call_private_api lib a.config "user/sendEmailVerifyCode" (
        ("encryptEmail", str encrypted_email)
        ∷ ("verifyType", str "EMAIL_VERIFY_DEVICE")
        ∷ ("supportChar", str "N")
        ∷ ("isForce", str "N")
        ∷ [])
    pure tt

  unfoldable pub verify_device : Account → String → Exec (Client K) Credentials
  verify_device a verification_code = do
    encrypted_account ← encrypt_account lib a.config a.account_id
    response ← call_private_api lib a.config "user/verifyDevice" (
        ("encryptAccount", str encrypted_account)
        ∷ ("backUpEmail", str "")
        ∷ ("verifyCode", str (strip verification_code))
        ∷ ("model", str "Pixel 7")
        ∷ ("system", str "Android 14")
        ∷ [])
    complete_login a.config response
