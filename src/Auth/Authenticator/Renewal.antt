-- ===== src/Auth/Authenticator/Renewal.antt =====
-- The timer that renews the credentials: which one is left after each operation, and in every run.
use client_py.Prelude.{
  ℕ, ◌≡◌, refl, ap, subst, any, nat_eq, key_error, ok-injective, ◌⊎◌, inl, inr, true, false,
  Bool-cases, Option, none, some, Option-cases, List, [], ◌∷◌, ◌++◌, Result, ok, err, nat_eq_iff,
  arith, if◌then◌else◌, nat_keys,
}
use client_py.Dict
use client_py.Dict.{Dict, get-set, get-remove}
use client_py.Auth.Network.{Libraries, Client}
use client_py.Auth.Post.{Credentials}
use client_py.Auth.Login.{Account}
use client_py.Auth.Authenticator.{
  Authenticator, Call, refresh, RefreshTimer, validity, init, without, cancel, cancel_refresh_task,
  create_refresh_task, set_credentials, fire, subscribe, unsubscribe,
}
use client_py.Auth.Authenticator.Lock.{
  admit, answer, serve, acquire, settle, teardown, finish, log_in, release,
}
use client_py.Auth.Authenticator.Steps.{without_task, Step, Run, here, next}

-- The timer is for the credentials, from the time when it was made.
abbrev pub IsOf : RefreshTimer → Option Credentials → Type 0
IsOf t credentials = (c : Credentials) × (credentials ≡ some c) × (t.delay ≡ validity c t.made_at)

-- A timer that is not cancelled is that of the handle, for the credentials that are stored.
abbrev pub Renews : Dict ℕ RefreshTimer → Option ℕ → Option Credentials → Type 0
Renews timers handle credentials =
    (i : ℕ) (t : RefreshTimer)
    → Dict.get i timers ≡ some t
    → t.cancelled ≡ false
    → (handle ≡ some i) × IsOf t credentials

-- No timer is left that will fire.
abbrev pub IsQuiet : Dict ℕ RefreshTimer → Type 0
IsQuiet timers = (i : ℕ) (t : RefreshTimer) → Dict.get i timers ≡ some t → t.cancelled ≡ true

cancelled_or :
    (i : ℕ) (t : RefreshTimer) (timers : Dict ℕ RefreshTimer) (handle : Option ℕ)
    (credentials : Option Credentials)
    → Renews timers handle credentials
    → Dict.get i timers ≡ some t
    → (t.cancelled ≡ true) ⊎ (handle ≡ some i)
cancelled_or i t timers handle credentials v h = elim (Bool-cases t.cancelled) [
  | inl e ↦ inl e
  | inr live ↦ inr (v i t h live).0
]

pub cancel-IsQuiet :
    (handle : Option ℕ) (timers : Dict ℕ RefreshTimer) (credentials : Option Credentials)
    → Renews timers handle credentials
    → IsQuiet (cancel handle timers)
unfolding cancel
cancel-IsQuiet none timers credentials v i t h =
    ground (arith, cancelled_or i t timers none credentials v h)
cancel-IsQuiet (some j) timers credentials v i t h = elim (Option-cases (Dict.get j timers)) [
  | inl e ↦ ground (arith, cancelled_or i t timers (some j) credentials v (rw (e, cancel) at h))
  | inr (u, e) ↦ ground (
    arith,
    rw (e, cancel) at h,
    get-set j i (record u { cancelled = true }) timers,
    nat_eq_iff j i,
    cancelled_or i t timers (some j) credentials v,
  )
]

-- Of a dict in which only a new timer is live.
only_new :
    (i j : ℕ) (t u : RefreshTimer) (timers : Dict ℕ RefreshTimer)
    → Dict.get j (Dict.set i u timers) ≡ some t
    → t.cancelled ≡ false
    → (Dict.get j timers ≡ some t → t.cancelled ≡ true)
    → (i ≡ j) × (u ≡ t)
only_new i j t u timers h live quiet = ground (arith, get-set i j u timers, nat_eq_iff i j)

-- A timer that is left when one fires is another timer, so it is not of the handle.
left_over :
    (i j : ℕ) (u : RefreshTimer) (timers : Dict ℕ RefreshTimer) (handle : Option ℕ)
    → handle ≡ some i
    → Dict.get j (Dict.remove i timers) ≡ some u
    → (Dict.get j timers ≡ some u → handle ≡ some j)
    → (Dict.get j timers ≡ some u) × (none ≡ some j)
left_over i j u timers handle is h v = ground (arith, get-remove i j timers, nat_eq_iff i j)

module _ {K : Type 0} where
  abbrev pub RenewsCurrent : Authenticator K → Type 0
  RenewsCurrent a = Renews a.timers a.refresh_handle a.credentials

  set_credentials-Renews :
      (c : Credentials) (a : Authenticator K)
      → RenewsCurrent a
      → RenewsCurrent (set_credentials c a)
  unfolding set_credentials create_refresh_task cancel_refresh_task
  set_credentials-Renews c a v i t h live =
      let now = a.client.net.clock in
      let timer : RefreshTimer = record {
        cancelled = false;
        made_at = now;
        delay = validity c now;
      } in
      let timers = cancel a.refresh_handle a.timers in
      let quiet = cancel-IsQuiet a.refresh_handle a.timers a.credentials v i t in
      let (same, is) = only_new a.next_timer i t timer timers h live quiet in
      (ap some same, (c, refl, subst (λ u. u.delay ≡ validity c u.made_at) is refl))

  serve-Renews :
      (calls : List Call) (a : Authenticator K) → RenewsCurrent a → RenewsCurrent (serve calls a)
  unfolding serve answer
  serve-Renews [] a v = v
  serve-Renews (c ∷ calls) a v =
      elim (admit c a)
        as (λ o. RenewsCurrent (elim o [
          | none ↦ record a { holder = some c; waiting = calls }
          | some credentials ↦ serve calls (answer c (ok credentials) a)
        ])) [ none ↦ v | some credentials ↦ serve-Renews calls (answer c (ok credentials) a) v ]

  acquire-Renews : (c : Call) (a : Authenticator K) → RenewsCurrent a → RenewsCurrent (acquire c a)
  unfolding acquire
  acquire-Renews c a v =
      elim a.holder
        as (λ o. RenewsCurrent (elim o [
          | none ↦ serve (c ∷ []) a
          | some h ↦ record a { waiting = a.waiting ++ c ∷ [] }
        ])) [ none ↦ serve-Renews (c ∷ []) a v | some h ↦ v ]

  settle-Renews :
      (c : Call) (r : Result Credentials) (a : Authenticator K)
      → RenewsCurrent a
      → RenewsCurrent (settle c r a)
  unfolding settle answer
  settle-Renews c (ok credentials) a v = set_credentials-Renews credentials a v
  settle-Renews c (err e) a v = v

  finish-Renews :
      (lib : Libraries K) (c : Call) (a : Authenticator K)
      → RenewsCurrent a
      → RenewsCurrent (finish lib c a)
  unfolding finish
  finish-Renews lib c a v =
      let (r, client') = log_in lib c a in
      let b = settle c r (record a { client = client' }) in
      serve-Renews b.waiting b (settle-Renews c r (record a { client = client' }) v)

  teardown-Renews : (a : Authenticator K) → RenewsCurrent a → RenewsCurrent (teardown a)
  unfolding teardown cancel_refresh_task
  teardown-Renews a v i t h live =
      ground (arith, cancel-IsQuiet a.refresh_handle a.timers a.credentials v i t h)

  fire-Renews :
      (i : ℕ) (t : RefreshTimer) (a : Authenticator K)
      → Dict.get i a.timers ≡ some t
      → t.cancelled ≡ false
      → RenewsCurrent a
      → RenewsCurrent (fire i a)
  unfolding fire
  fire-Renews i t a is live v j u h l =
      let (before, none_is) =
        left_over i j u a.timers a.refresh_handle (v i t is live).0 h (λ e. (v j u e l).0) in
      (none_is, (v j u before l).1)

  unsubscribe-Renews :
      (callback : ℕ) (a b : Authenticator K)
      → unsubscribe callback a ≡ ok b
      → RenewsCurrent a
      → RenewsCurrent b
  unfolding unsubscribe
  unsubscribe-Renews callback a b h v =
      elim (any (nat_eq callback) a.on_credentials_changed)
          as (λ x.
            (if x
                then ok (record a {
                  on_credentials_changed = without callback a.on_credentials_changed;
                })
                else err key_error)
              ≡ ok b
            → RenewsCurrent b) [
              | true ↦ λ e. subst RenewsCurrent (ok-injective e) v
              | false ↦ λ e. ground arith
            ]
        h

  Step-Renews :
      {lib : Libraries K} {a b : Authenticator K} → Step lib a b → RenewsCurrent a → RenewsCurrent b
  unfolding subscribe release
  Step-Renews (Step.called c a) v = acquire-Renews c a v
  Step-Renews {lib} (Step.finished c a h) v = finish-Renews lib c a v
  Step-Renews (Step.fired i t a is live) v = fire-Renews i t a is live v
  Step-Renews (Step.refreshed before after a h) v =
      acquire-Renews refresh (without_task before after a) v
  Step-Renews (Step.told callback credentials before after a h) v = v
  Step-Renews (Step.subscribed callback a) v = v
  Step-Renews (Step.unsubscribed callback a b h) v = unsubscribe-Renews callback a b h v
  Step-Renews (Step.requested client a) v = v
  Step-Renews (Step.torn_down a) v = teardown-Renews a v
  Step-Renews (Step.login_cancelled a h) v = serve-Renews a.waiting a v
  Step-Renews (Step.wait_cancelled before after a h) v = v

  -- In every run, a timer that is not cancelled is that of the handle, so there is at most one, and
  -- its delay is the validity of the credentials that are stored, from the time when it was made.
  pub Run-RenewsCurrent :
      (lib : Libraries K) (account : Account) (client : Client K) (a : Authenticator K)
      → Run lib account client a
      → RenewsCurrent a
  unfolding init Dict.get
  Run-RenewsCurrent lib account client _ here = λ i t h live. ground arith
  Run-RenewsCurrent lib account client _ (next r s) =
      Step-Renews s (Run-RenewsCurrent lib account client _ r)
