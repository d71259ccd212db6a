-- ===== src/Auth/Authenticator.antt =====
-- `Authenticator` of authentication.py: the credentials, their lock, and the timer that renews them.
-- The lock is `holder`, the call that holds it while it logs in, and `waiting`, the calls that wait
-- for it, the first come first served. What the calls returned or raised is `answers`, latest first.
pub mod Lock
pub mod Steps
pub mod Renewal
pub mod Sharing
pub mod Teardown
use client_py.Prelude.{
  ℕ, suc, ◌+◌, String, Bool, true, false, Option, none, some, List, [], ◌∷◌, ◌++◌, map, ℤ, pos,
  negsuc, ◌+ℤ◌, ltb_ℤ, key_error, Result, ok, err, nat_eq, any, if◌then◌else◌, nat_keys, zero,
}
use client_py.Dict.{Dict}
use client_py.Dict
use client_py.Value.{scale}
use client_py.Auth.Network.{Client}
use client_py.Auth.Post.{Credentials}
use client_py.Auth.Login.{Account}

-- A call of `authenticate` or `verify_device`, by a number for its caller; `refresh` is that of the
-- task `async_refresh`.
pub data Call : Type 0 where
  authenticate : ℕ → Bool → Call
  verify_device : ℕ → String → Call
  refresh : Call

pub data Task : Type 0 where
  on_changed : ℕ → Credentials → Task
  async_refresh : Task

-- A timer of `call_later`, with the time when it was made; the delay is in units of 10 ns.
pub record RefreshTimer : Type 0 where
  pub cancelled : Bool
  pub made_at : ℕ
  pub delay : ℤ

pub record Authenticator (K : Type 0) : Type 0 where
  pub account : Account
  pub client : Client K
  pub credentials : Option Credentials
  pub on_credentials_changed : List ℕ
  pub refresh_handle : Option ℕ
  pub timers : Dict ℕ RefreshTimer
  pub next_timer : ℕ
  pub tasks : List Task
  pub holder : Option Call
  pub waiting : List Call
  pub answers : List (Call × Result Credentials)

abbrev minus : ℕ → ℤ
minus zero = pos 0
minus (suc n) = negsuc n

-- `(credentials.expires_at - time.time()) * 0.99`
unfoldable pub validity : Credentials → ℕ → ℤ
validity credentials now = scale (scale credentials.expires_at 1000000 +ℤ minus now) 99

-- `credentials.expires_at < time.time()`
unfoldable pub is_expired : Credentials → ℕ → Bool
is_expired credentials now = ltb_ℤ (scale credentials.expires_at 1000000) (pos now)

-- `set.add`
abbrev add_once : ℕ → List ℕ → List ℕ
add_once callback callbacks =
    if any (nat_eq callback) callbacks then callbacks else callbacks ++ callback ∷ []

abbrev pub without : ℕ → List ℕ → List ℕ
without callback [] = []
without callback (c ∷ callbacks) =
    let rest = without callback callbacks in if nat_eq callback c then callbacks else c ∷ rest

abbrev cancel_timer : ℕ → RefreshTimer → Dict ℕ RefreshTimer → Dict ℕ RefreshTimer
cancel_timer i t timers =
    if t.cancelled then timers else Dict.set i (record t { cancelled = true }) timers

-- `cancel` of a handle; the timers that have fired are not kept.
unfoldable pub cancel : Option ℕ → Dict ℕ RefreshTimer → Dict ℕ RefreshTimer
cancel none timers = timers
cancel (some i) timers = elim (Dict.get i timers) [
  | none ↦ timers
  | some t ↦ cancel_timer i t timers
]

module _ {K : Type 0} where
  unfoldable pub init : Account → Client K → Authenticator K
  init account client = record {
    account = account;
    client = client;
    credentials = none;
    on_credentials_changed = [];
    refresh_handle = none;
    timers = [];
    next_timer = 0;
    tasks = [];
    holder = none;
    waiting = [];
    answers = [];
  }

  -- `_cancel_refresh_task`
  unfoldable pub cancel_refresh_task : Authenticator K → Authenticator K
  cancel_refresh_task a = record a { timers = cancel a.refresh_handle a.timers }

  -- `_create_refresh_task`
  unfoldable pub create_refresh_task : Credentials → Authenticator K → Authenticator K
  create_refresh_task credentials a =
      let now = a.client.net.clock in
      let timer : RefreshTimer = record {
        cancelled = false;
        made_at = now;
        delay = validity credentials now;
      } in
      record a {
        timers = Dict.set a.next_timer timer a.timers;
        next_timer = suc a.next_timer;
        refresh_handle = some a.next_timer;
      }

  -- `_set_credentials`; the callbacks of the set are told in the order of the list.
  unfoldable pub set_credentials : Credentials → Authenticator K → Authenticator K
  set_credentials credentials a =
      let a1 = cancel_refresh_task (record a { credentials = some credentials }) in
      let a2 = create_refresh_task credentials a1 in
      record a2 {
        tasks =
            a2.tasks ++ map (λ callback. on_changed callback credentials) a2.on_credentials_changed;
      }

  -- `refresh`, when its timer fires
  unfoldable pub fire : ℕ → Authenticator K → Authenticator K
  fire i a = record a {
    timers = Dict.remove i a.timers;
    tasks = a.tasks ++ async_refresh ∷ [];
    refresh_handle = none;
  }

  unfoldable pub subscribe : ℕ → Authenticator K → Authenticator K
  subscribe callback a = record a {
    on_credentials_changed = add_once callback a.on_credentials_changed;
  }

  -- `set.remove`, which wants a member
  unfoldable pub unsubscribe : ℕ → Authenticator K → Result (Authenticator K)
  unsubscribe callback a =
      if any (nat_eq callback) a.on_credentials_changed
      then ok (record a { on_credentials_changed = without callback a.on_credentials_changed })
      else err key_error
