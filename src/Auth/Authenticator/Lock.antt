-- ===== src/Auth/Authenticator/Lock.antt =====
-- The calls of `Authenticator` under its lock: `authenticate`, `verify_device`, `post_authenticated`
-- and `teardown`.
use client_py.Prelude.{
  String, Bool, true, Option, none, some, List, [], ◌∷◌, ◌++◌, Result, ok, err, Exec, if◌then◌else◌,
}
use client_py.Dict.{Dict}
use client_py.Value.{Value}
use client_py.Auth.Network.{Params, Libraries, Client}
use client_py.Auth.Post.{Credentials, post}
use client_py.Auth.Login
use client_py.Auth.Authenticator.{
  Authenticator, Call, authenticate, verify_device, refresh, is_expired, set_credentials,
  cancel_refresh_task,
}

abbrev pub is_forced : Call → Bool
is_forced (authenticate caller force) = force
is_forced _ = true

module _ {K : Type 0} where
  -- The credentials that a call returns without a login once it has the lock.
  unfoldable pub admit : Call → Authenticator K → Option Credentials
  admit c a = elim a.credentials [
    | none ↦ none
    | some credentials ↦
        if is_forced c
        then none
        else if is_expired credentials a.client.net.clock
        then none
        else some credentials
  ]

  unfoldable pub answer : Call → Result Credentials → Authenticator K → Authenticator K
  answer c r a = record a { answers = (c, r) ∷ a.answers }

  -- The lock goes from one call to the next, up to one that has to log in.
  unfoldable pub serve : List Call → Authenticator K → Authenticator K
  serve [] a = record a { holder = none; waiting = [] }
  serve (c ∷ calls) a = elim (admit c a) [
    | none ↦ record a { holder = some c; waiting = calls }
    | some credentials ↦ serve calls (answer c (ok credentials) a)
  ]

  -- The lock is given back by a task that was cancelled in its login.
  unfoldable pub release : Authenticator K → Authenticator K
  release a = serve a.waiting a

  -- `async with self._lock`, from the call on
  unfoldable pub acquire : Call → Authenticator K → Authenticator K
  acquire c a = elim a.holder [
    | none ↦ serve (c ∷ []) a
    | some h ↦ record a { waiting = a.waiting ++ c ∷ [] }
  ]

  -- The login has returned or raised.
  unfoldable pub settle : Call → Result Credentials → Authenticator K → Authenticator K
  settle c (ok credentials) a = answer c (ok credentials) (set_credentials credentials a)
  settle c (err e) a = answer c (err e) a

  -- `teardown` up to its await: a task that has not begun never runs; one that waits for the lock or
  -- logs in ends in a later turn of the loop, which may come after `teardown` has returned.
  unfoldable pub teardown : Authenticator K → Authenticator K
  teardown a = record (cancel_refresh_task a) { tasks = [] }

  module _ (lib : Libraries K) where
    unfoldable pub log_in : Call → Authenticator K → Result Credentials × Client K
    log_in (authenticate caller force) a = Login.login lib a.account a.client
    log_in (verify_device caller code) a = Login.verify_device lib a.account code a.client
    log_in refresh a = Login.login lib a.account a.client

    -- The call that has the lock ends its login, and the lock goes on.
    unfoldable pub finish : Call → Authenticator K → Authenticator K
    finish c a =
        let (r, client') = log_in c a in
        let b = settle c r (record a { client = client' }) in serve b.waiting b

    -- `post_authenticated` with what `authenticate` returned or raised
    unfoldable pub post_authenticated :
        Result Credentials
        → String
        → Dict String Value
        → Params
        → Dict String String
        → Exec (Authenticator K) Value
    post_authenticated (err e) path body query_params headers a = (err e, a)
    post_authenticated (ok credentials) path body query_params headers a =
        let (r, client') =
          post lib a.account.config path body query_params headers (some credentials) a.client in
        (r, record a { client = client' })

    -- `request_device_verification_code`
    unfoldable pub request_device_verification_code : Exec (Authenticator K) Unit
    request_device_verification_code a =
        let (r, client') = Login.request_device_verification_code lib a.account a.client in
        (r, record a { client = client' })
