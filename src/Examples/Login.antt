-- ===== src/Examples/Login.antt =====
-- The REST API and the credentials on concrete inputs: a server that is down at first.
use client_py.Prelude.{
  ℕ, ◌≡◌, refl, false, none, some, [], ◌∷◌, pos, value_error, ok, err, ltb, str_eq, subst,
  Bool-cases, inl, inr, eq_iff, if◌then◌else◌, text_keys,
}
use client_py.Dict.{Dict, keys}
use client_py.Dict
use client_py.Value.{
  Value, Fields, field, end, dict, text, get_or, find, item, is_text, to_int, truncate,
}
use client_py.Auth.Config.{RestConfiguration}
use client_py.Auth.Network.{
  str, number, Params, Request, Outcome, response, json, Net, Libraries, Client, after,
}
use client_py.Auth.Post.{
  Credentials, max_retries, post_request, post, post_loop, next_turn, attempt, read_response,
}
use client_py.Auth.Retries.{refusals, first_answer, Sends, post-first_answer, post-Sends}
use client_py.Auth.Api.{
  sign, call_login_api, call_private_api, do_auth_response, read_auth, expect_dict,
}
use client_py.Auth.Signing.{SameDict, sign-SameDict}
use client_py.Auth.Login.{
  Account, complete_login, read_login, value_text, call_auth_api, call_login_by_it_token,
  token_loop, token_attempt, read_token_response, make_credentials, expiry,
}
use client_py.Auth.Login
use client_py.Auth.Authenticator.{Authenticator, authenticate, init, is_expired, set_credentials}
use client_py.Auth.Authenticator.Lock.{acquire, log_in, finish, teardown}
use client_py.Auth.Authenticator.Steps.{Step, Run, here, next}
use client_py.Auth.Authenticator.Renewal.{RenewsCurrent, IsQuiet, Run-RenewsCurrent}
use client_py.Auth.Authenticator.Sharing.{finish-shared}
use client_py.Auth.Authenticator.Teardown.{Rest, teardown-IsQuiet}

abbrev config : RestConfiguration
config = record {
  device_id = "d";
  country = "DE";
  portal_url = "p";
  login_url = "l";
  auth_code_url = "a";
}

-- A bad gateway for a while, then a text.
abbrev answer_at : Request → Net → Outcome
answer_at r n =
    if ltb n.clock 5000000 then response 502 (json Value.null) else response 200 (json (text "up"))

abbrev libraries : Libraries ℕ
libraries = record {
  answer = answer_at;
  elapsed = λ _ _. 1000;
  urljoin = λ _ path. path;
  md5 = λ s. s;
  time_text = λ _. "now";
  repr = λ _. "?";
  loads = λ _. err value_error;
  b64decode = λ _. err value_error;
  load_der = λ _. ok none;
  encrypt = λ _ s _. s;
}

abbrev client : Client ℕ
client = record { public_key = none; net = record { clock = 0; sent = [] } }

abbrev request : Request
request = post_request libraries config "users/user.do" [] [] [] none

post-first_answer_example :
    post libraries config "users/user.do" [] [] [] none client
    ≡ first_answer libraries request max_retries
        (refusals libraries request max_retries client)
        client
post-first_answer_example = post-first_answer libraries config "users/user.do" [] [] [] none client

post-Sends_example :
    Sends libraries request max_retries client
      (post libraries config "users/user.do" [] [] [] none client).1
post-Sends_example = post-Sends libraries config "users/user.do" [] [] [] none client

abbrev params : Params
params = ("a", str "1") ∷ ("b", number 2) ∷ []

abbrev reordered : Params
reordered = ("b", number 2) ∷ ("a", str "1") ∷ []

reordered_same : SameDict params reordered
unfolding Dict.get
reordered_same k = elim (Bool-cases (str_eq "a" k)) [
  | inl e ↦ subst (λ j. Dict.get j params ≡ Dict.get j reordered) ((eq_iff "a" k).0 e) refl
  | inr e ↦ rw (e) refl
]

sign-SameDict_example :
    SameDict (sign libraries params [] "key" "secret") (sign libraries reordered [] "key" "secret")
unfolding keys
sign-SameDict_example =
    sign-SameDict libraries params reordered [] "key" "secret" (refl, (refl, tt)) (refl, (refl, tt))
      tt reordered_same

abbrev account : Account
account = record { config = config; account_id = "me"; password_hash = "hash" }

abbrev start : Authenticator ℕ
start = init account client

abbrev run_called : Run libraries account client (acquire (authenticate 1 false) start)
run_called = next here (Step.called (authenticate 1 false) start)

Run-RenewsCurrent_example : RenewsCurrent (acquire (authenticate 1 false) start)
Run-RenewsCurrent_example =
    Run-RenewsCurrent libraries account client (acquire (authenticate 1 false) start) run_called

abbrev torn : Authenticator ℕ
torn = teardown (acquire (authenticate 1 false) start)

-- Another call comes after the teardown.
abbrev rest : Rest libraries torn (acquire (authenticate 2 false) torn)
rest = Rest.more Rest.done (Step.called (authenticate 2 false) torn) refl

teardown-IsQuiet_example : IsQuiet (acquire (authenticate 2 false) torn).timers
teardown-IsQuiet_example =
    teardown-IsQuiet libraries account client (acquire (authenticate 1 false) start)
      (acquire (authenticate 2 false) torn) run_called rest

abbrev login_data : Fields
login_data =
    field "uid" (text "u") (field "accessToken" (text "t") (field "authCode" (text "c") end))

-- A server that lets everybody in.
abbrev let_in : Request → Net → Outcome
let_in (Request.get url ps) n =
    response 200 (json (dict (field "code" (text "0000") (field "data" (dict login_data) end))))
let_in (Request.post url body query headers) n = response 200 (
    json (
      dict (
        field "result" (text "ok")
          (field "userId" (text "u") (field "token" (text "secret") end)))))

abbrev open_libraries : Libraries ℕ
open_libraries = record libraries { answer = let_in }

abbrev secret : Credentials
secret = record { token = text "secret"; user_id = text "u"; expires_at = pos 598 }

abbrev busy : Authenticator ℕ
busy = record {
  account = account;
  client = client;
  credentials = none;
  on_credentials_changed = [];
  refresh_handle = none;
  timers = [];
  next_timer = 0;
  tasks = [];
  holder = some (authenticate 1 false);
  waiting = authenticate 2 false ∷ [];
  answers = [];
}

logged_in :
    log_in open_libraries (authenticate 1 false) busy
    ≡ (ok secret, (log_in open_libraries (authenticate 1 false) busy).1)
unfolding log_in Login.login call_login_api call_private_api do_auth_response after read_auth get_or
    find complete_login read_login expect_dict value_text call_auth_api call_login_by_it_token
    token_loop token_attempt post post_loop next_turn attempt read_response read_token_response item
    is_text make_credentials to_int expiry truncate post_request
logged_in = refl

still_valid :
    is_expired secret (log_in open_libraries (authenticate 1 false) busy).1.net.clock ≡ false
unfolding is_expired log_in Login.login call_login_api call_private_api do_auth_response after
    read_auth get_or find complete_login read_login expect_dict value_text call_auth_api
    call_login_by_it_token token_loop token_attempt post post_loop next_turn attempt read_response
    read_token_response item is_text make_credentials to_int expiry truncate post_request
still_valid = refl

finish-shared_example :
    finish open_libraries (authenticate 1 false) busy
    ≡ record (set_credentials secret
        (record busy { client = (log_in open_libraries (authenticate 1 false) busy).1 })) {
          holder = none;
          waiting = [];
          answers = (authenticate 2 false, ok secret) ∷ (authenticate 1 false, ok secret) ∷ [];
        }
finish-shared_example =
    finish-shared open_libraries (authenticate 1 false) secret
      (log_in open_libraries (authenticate 1 false) busy).1 busy logged_in (refl, tt) still_valid
