-- ===== src/Auth/Authenticator/Sharing.antt =====
-- What the lock gives the calls that wait.
use client_py.Prelude.{◌≡◌, All, refl, false, none, some, List, [], ◌∷◌, Result, ok, nat_keys}
use client_py.Auth.Network.{Libraries, Client}
use client_py.Auth.Post.{Credentials}
use client_py.Auth.Authenticator.{
  Authenticator, Call, is_expired, cancel_refresh_task, create_refresh_task, set_credentials,
}
use client_py.Auth.Authenticator.Lock.{admit, is_forced, answer, serve, settle, finish, log_in}

-- The answers after calls that all get the same credentials.
abbrev pub shared :
    List Call → Credentials → List (Call × Result Credentials) → List (Call × Result Credentials)
shared [] credentials answers = answers
shared (c ∷ calls) credentials answers = shared calls credentials ((c, ok credentials) ∷ answers)

module _ {K : Type 0} where
  admit_stored :
      (c : Call) (credentials : Credentials) (a : Authenticator K)
      → a.credentials ≡ some credentials
      → is_forced c ≡ false
      → is_expired credentials a.client.net.clock ≡ false
      → admit c a ≡ some credentials
  unfolding admit
  admit_stored c credentials a stored unforced valid = rw (stored, unforced, valid) refl

  serve-shared :
      (calls : List Call) (credentials : Credentials) (a : Authenticator K)
      → a.credentials ≡ some credentials
      → All (λ c. is_forced c ≡ false) calls
      → is_expired credentials a.client.net.clock ≡ false
      → serve calls a
        ≡ record a { holder = none; waiting = []; answers = shared calls credentials a.answers }
  unfolding serve answer
  serve-shared [] credentials a stored unforced valid = refl
  serve-shared (c ∷ calls) credentials a stored (u, us) valid =
      rw (admit_stored c credentials a stored u valid, serve)
        (serve-shared calls credentials (answer c (ok credentials) a) stored us valid)

  -- A login has returned credentials that are still valid, and no call that waits is forced: all of
  -- them return these credentials, in their order and without another login, and the lock is free.
  pub finish-shared :
      (lib : Libraries K) (c : Call) (credentials : Credentials) (client : Client K)
      → (a : Authenticator K) → log_in lib c a ≡ (ok credentials, client)
      → All (λ w. is_forced w ≡ false) a.waiting
      → is_expired credentials client.net.clock ≡ false
      → finish lib c a ≡ record (set_credentials credentials (record a { client = client })) {
        holder = none;
        waiting = [];
        answers = shared a.waiting credentials ((c, ok credentials) ∷ a.answers);
      }
  unfolding finish settle answer set_credentials create_refresh_task cancel_refresh_task
  finish-shared lib c credentials client a done unforced valid =
      rw (done, finish, settle)
        (serve-shared a.waiting credentials
          (answer c (ok credentials) (set_credentials credentials (record a { client = client })))
          refl unforced valid)
