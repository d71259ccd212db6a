-- ===== src/Auth/Authenticator/Teardown.antt =====
-- What `teardown` leaves: no timer, unless a login ends later.
use client_py.Prelude.{
  ℕ, ◌≡◌, refl, sym, subst, any, nat_eq, key_error, ok-injective, Bool, true, false, Option, none,
  some, List, [], ◌∷◌, ◌++◌, Result, ok, err, arith, nat_keys, if◌then◌else◌,
}
use client_py.Dict.{Dict}
use client_py.Auth.Network.{Libraries, Client}
use client_py.Auth.Post.{Credentials}
use client_py.Auth.Login.{Account}
use client_py.Auth.Authenticator.{
  Authenticator, Call, refresh, RefreshTimer, without, cancel, cancel_refresh_task, subscribe,
  unsubscribe,
}
use client_py.Auth.Authenticator.Lock.{
  admit, answer, serve, acquire, settle, teardown, finish, log_in, release,
}
use client_py.Auth.Authenticator.Steps.{without_task, Step, Run}
use client_py.Auth.Authenticator.Renewal.{IsQuiet, cancel-IsQuiet, Run-RenewsCurrent}

abbrev is_ok : Result Credentials → Bool
is_ok (ok credentials) = true
is_ok (err e) = false

quiet-cancel :
    (handle : Option ℕ) (timers : Dict ℕ RefreshTimer)
    → IsQuiet timers
    → IsQuiet (cancel handle timers)
quiet-cancel handle timers q =
    cancel-IsQuiet handle timers none λ i t h live. absurd (ground (arith, q i t h, live))

module _ {K : Type 0} where
  -- Whether the step is the end of a login that returns credentials.
  abbrev pub logs_in : {lib : Libraries K} {a b : Authenticator K} → Step lib a b → Bool
  logs_in {lib} (Step.finished c a h) = is_ok (log_in lib c a).0
  logs_in _ = false

  -- Steps in any order, without such an end
  pub data Rest (lib : Libraries K) (a : Authenticator K) : Authenticator K → Type 0 where
    done : Rest lib a a
    more :
        {b c : Authenticator K}
        → Rest lib a b
        → (s : Step lib b c) → logs_in s ≡ false
        → Rest lib a c

  abbrev HasNoTimer : Authenticator K → Type 0
  HasNoTimer a = IsQuiet a.timers

  serve-timers : (calls : List Call) (a : Authenticator K) → (serve calls a).timers ≡ a.timers
  unfolding serve answer
  serve-timers [] a = refl
  serve-timers (c ∷ calls) a =
      elim (admit c a)
        as (λ o.
          (elim o as (λ _. Authenticator K) [
            | none ↦ record a { holder = some c; waiting = calls }
            | some credentials ↦ serve calls (answer c (ok credentials) a)
          ]).timers
          ≡ a.timers) [
            | none ↦ refl
            | some credentials ↦ serve-timers calls (answer c (ok credentials) a)
          ]

  serve-HasNoTimer :
      (calls : List Call) (a : Authenticator K) → HasNoTimer a → HasNoTimer (serve calls a)
  serve-HasNoTimer calls a q = subst IsQuiet (sym (serve-timers calls a)) q

  acquire-HasNoTimer : (c : Call) (a : Authenticator K) → HasNoTimer a → HasNoTimer (acquire c a)
  unfolding acquire
  acquire-HasNoTimer c a q =
      elim a.holder
        as (λ o. HasNoTimer (elim o [
          | none ↦ serve (c ∷ []) a
          | some h ↦ record a { waiting = a.waiting ++ c ∷ [] }
        ])) [ none ↦ serve-HasNoTimer (c ∷ []) a q | some h ↦ q ]

  -- The end of a login that raised.
  abbrev ended : Call → Authenticator K → Result Credentials × Client K → Authenticator K
  ended c a x = let b = settle c x.0 (record a { client = x.1 }) in serve b.waiting b

  ended-HasNoTimer :
      (c : Call) (a : Authenticator K) (x : Result Credentials × Client K)
      → HasNoTimer a
      → is_ok x.0 ≡ false
      → HasNoTimer (ended c a x)
  unfolding settle answer
  ended-HasNoTimer c a (ok credentials, client) q raised = absurd (ground (arith, raised))
  ended-HasNoTimer c a (err e, client) q raised =
      serve-HasNoTimer a.waiting (answer c (err e) (record a { client = client })) q

  finish-HasNoTimer :
      (lib : Libraries K) (c : Call) (a : Authenticator K)
      → HasNoTimer a
      → is_ok (log_in lib c a).0 ≡ false
      → HasNoTimer (finish lib c a)
  unfolding finish
  finish-HasNoTimer lib c a q raised = ended-HasNoTimer c a (log_in lib c a) q raised

  unsubscribe-HasNoTimer :
      (callback : ℕ) (a b : Authenticator K)
      → unsubscribe callback a ≡ ok b
      → HasNoTimer a
      → HasNoTimer b
  unfolding unsubscribe
  unsubscribe-HasNoTimer callback a b h q =
      elim (any (nat_eq callback) a.on_credentials_changed)
          as (λ x.
            (if x
                then ok (record a {
                  on_credentials_changed = without callback a.on_credentials_changed;
                })
                else err key_error)
              ≡ ok b
            → HasNoTimer b) [
              | true ↦ λ e. subst HasNoTimer (ok-injective e) q
              | false ↦ λ e. ground arith
            ]
        h

  Step-HasNoTimer :
      {lib : Libraries K} {a b : Authenticator K} (s : Step lib a b)
      → logs_in s ≡ false
      → HasNoTimer a
      → HasNoTimer b
  unfolding subscribe release teardown cancel_refresh_task
  Step-HasNoTimer (Step.called c a) l q = acquire-HasNoTimer c a q
  Step-HasNoTimer {lib} (Step.finished c a h) l q = finish-HasNoTimer lib c a q l
  Step-HasNoTimer (Step.fired i t a is live) l q = absurd (ground (arith, q i t is, live))
  Step-HasNoTimer (Step.refreshed before after a h) l q =
      acquire-HasNoTimer refresh (without_task before after a) q
  Step-HasNoTimer (Step.told callback credentials before after a h) l q = q
  Step-HasNoTimer (Step.subscribed callback a) l q = q
  Step-HasNoTimer (Step.unsubscribed callback a b h) l q = unsubscribe-HasNoTimer callback a b h q
  Step-HasNoTimer (Step.requested client a) l q = q
  Step-HasNoTimer (Step.torn_down a) l q = quiet-cancel a.refresh_handle a.timers q
  Step-HasNoTimer (Step.login_cancelled a h) l q = serve-HasNoTimer a.waiting a q
  Step-HasNoTimer (Step.wait_cancelled before after a h) l q = q

  Rest-HasNoTimer :
      {lib : Libraries K} {a b : Authenticator K} → Rest lib a b → HasNoTimer a → HasNoTimer b
  Rest-HasNoTimer done q = q
  Rest-HasNoTimer (more r s l) q = Step-HasNoTimer s l (Rest-HasNoTimer r q)

  -- In every run, after `teardown` has cancelled the tasks, no timer will fire, whatever runs then in
  -- whatever order, as long as no login ends with credentials.
  pub teardown-IsQuiet :
      (lib : Libraries K) (account : Account) (client : Client K) (a b : Authenticator K)
      → Run lib account client a
      → Rest lib (teardown a) b
      → IsQuiet b.timers
  unfolding teardown cancel_refresh_task
  teardown-IsQuiet lib account client a b r rest = Rest-HasNoTimer rest (
      cancel-IsQuiet a.refresh_handle a.timers a.credentials
        (Run-RenewsCurrent lib account client a r))
