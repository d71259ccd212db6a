-- ===== src/Auth/Post.antt =====
-- `_AuthClient.post` of authentication.py, with its retries.
use client_py.Prelude.{
  ℕ, zero, suc, ◌+◌, ℤ, String, Option, none, some, [], ◌∷◌, api_error, api_timeout, Result, ok,
  err, Exec, nat_eq, leb, if◌then◌else◌, text_keys,
}
use client_py.Dict.{Dict}
use client_py.Dict
use client_py.Value.{Value, Fields, text, dict}
use client_py.Util.Text.{join}
use client_py.Auth.Config.{RestConfiguration}
use client_py.Auth.Network.{
  Request, Params, Failure, timed_out, response_error, raised, Reading, unread, json, failure,
  response, Libraries, Client, after,
}

-- `Credentials` of models.py; the time of the expiry is in seconds.
pub record Credentials : Type 0 where
  pub token : Value
  pub user_id : Value
  pub expires_at : ℤ

abbrev pub realm : String
realm = "ecouser.net"

abbrev pub path_users_user : String
path_users_user = "users/user.do"

abbrev pub max_retries : ℕ
max_retries = 3

abbrev pub bad_gateway : ℕ
bad_gateway = 502

abbrev auth_fields : RestConfiguration → Credentials → Fields
auth_fields config credentials = Fields.field "with" (text "users") (
    Fields.field "userid" credentials.user_id (
      Fields.field "realm" (text realm) (
        Fields.field "token" credentials.token
          (Fields.field "resource" (text config.device_id) Fields.end))))

-- `json.update({"auth": ...})` where there are credentials
unfoldable pub with_auth :
    RestConfiguration → Option Credentials → Dict String Value → Dict String Value
with_auth config none body = body
with_auth config (some credentials) body =
    Dict.set "auth" (dict (auth_fields config credentials)) body

module _ {K : Type 0} where
  -- `await asyncio.sleep(10)`
  abbrev pub sleep : Client K → Client K
  sleep c = record c { net = record c.net { clock = c.net.clock + 10000000 } }

  -- The `except` clauses; none is `continue`.
  unfoldable pub handle_failure : Failure → Exec (Client K) (Option Value)
  handle_failure timed_out c = (err api_timeout, c)
  handle_failure (response_error status) c =
      if nat_eq status bad_gateway then (ok none, sleep c) else (err api_error, c)
  handle_failure (raised e) c = (err e, c)

  -- `res.raise_for_status()` and what follows in the `try` block
  unfoldable pub read_response : ℕ → Reading → Exec (Client K) (Option Value)
  read_response status reading c =
      if leb 400 status
      then handle_failure (response_error status) c
      else if nat_eq status 200
      then elim reading [ unread f ↦ handle_failure f c | json v ↦ (ok (some v), c) ]
      else (err api_error, c)

  -- What follows a turn of the loop: the next turns, or the end.
  unfoldable pub next_turn :
      Exec (Client K) Value → Result (Option Value) × Client K → Result Value × Client K
  next_turn rest (err e, c) = (err e, c)
  next_turn rest (ok none, c) = rest c
  next_turn rest (ok (some v), c) = (ok v, c)

  module _ (lib : Libraries K) where
    -- One turn of the loop
    unfoldable pub attempt : Request → Exec (Client K) (Option Value)
    attempt request c = elim (lib.answer request c.net) [
      | failure f ↦ handle_failure f (after lib request c)
      | response status reading ↦ read_response status reading (after lib request c)
    ]

    -- `for i in range(MAX_RETRIES)`
    unfoldable pub post_loop : ℕ → Request → Exec (Client K) Value
    post_loop zero request c = (err api_error, c)
    post_loop (suc n) request c = next_turn (post_loop n request) (attempt request c)

    -- The request that every attempt sends.
    unfoldable pub post_request :
        RestConfiguration
        → String
        → Dict String Value
        → Params
        → Dict String String
        → Option Credentials
        → Request
    post_request config path body query_params headers credentials =
        Request.post (lib.urljoin config.portal_url (join ("api/" ∷ path ∷ [])))
          (with_auth config credentials body) query_params headers

    unfoldable pub post :
        RestConfiguration
        → String
        → Dict String Value
        → Params
        → Dict String String
        → Option Credentials
        → Exec (Client K) Value
    post config path body query_params headers credentials =
        post_loop max_retries (post_request config path body query_params headers credentials)
