-- ===== src/Auth/Authenticator/Steps.antt =====
-- `Authenticator` under the event loop, and its timer in every run.
use client_py.Prelude.{ℕ, ◌≡◌, false, some, List, ◌∷◌, ◌++◌, ok, nat_keys}
use client_py.Dict
use client_py.Dict.{Dict, get-set, get-remove}
use client_py.Auth.Network.{Libraries, Client}
use client_py.Auth.Post.{Credentials}
use client_py.Auth.Login.{Account}
use client_py.Auth.Authenticator.{
  Authenticator, Call, refresh, Task, async_refresh, on_changed, RefreshTimer, init, fire,
  subscribe, unsubscribe,
}
use client_py.Auth.Authenticator.Lock.{acquire, teardown, finish, release}

module _ {K : Type 0} where
  abbrev pub without_task : List Task → List Task → Authenticator K → Authenticator K
  without_task before after a = record a { tasks = before ++ after }

  -- What may happen next, in any order; a request of another call moves the clock and the client.
  pub data Step (lib : Libraries K) : Authenticator K → Authenticator K → Type 0 where
    called : (c : Call) (a : Authenticator K) → Step lib a (acquire c a)
    finished : (c : Call) (a : Authenticator K) → a.holder ≡ some c → Step lib a (finish lib c a)
    fired :
        (i : ℕ) (t : RefreshTimer) (a : Authenticator K)
        → Dict.get i a.timers ≡ some t
        → t.cancelled ≡ false
        → Step lib a (fire i a)
    refreshed :
        (before after : List Task) (a : Authenticator K)
        → a.tasks ≡ before ++ async_refresh ∷ after
        → Step lib a (acquire refresh (without_task before after a))
    told :
        (callback : ℕ) (credentials : Credentials) (before after : List Task) (a : Authenticator K)
        → a.tasks ≡ before ++ on_changed callback credentials ∷ after
        → Step lib a (without_task before after a)
    subscribed : (callback : ℕ) (a : Authenticator K) → Step lib a (subscribe callback a)
    unsubscribed :
        (callback : ℕ) (a b : Authenticator K) → unsubscribe callback a ≡ ok b → Step lib a b
    requested :
        (client : Client K) (a : Authenticator K) → Step lib a (record a { client = client })
    torn_down : (a : Authenticator K) → Step lib a (teardown a)
    login_cancelled : (a : Authenticator K) → a.holder ≡ some refresh → Step lib a (release a)
    wait_cancelled :
        (before after : List Call) (a : Authenticator K)
        → a.waiting ≡ before ++ refresh ∷ after
        → Step lib a (record a { waiting = before ++ after })

  pub data Run (lib : Libraries K) (account : Account) (client : Client K)
      : Authenticator K → Type 0 where
    here : Run lib account client (init account client)
    next :
        {a b : Authenticator K} → Run lib account client a → Step lib a b → Run lib account client b
