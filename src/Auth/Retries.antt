-- ===== src/Auth/Retries.antt =====
-- What `_AuthClient.post` returns and sends, against the first answer that is no bad gateway.
use client_py.Prelude.{
  ℕ, zero, suc, ◌+◌, ◌≤◌, ◌≡◌, ◌∙◌, refl, sym, ap, subst, length, map, ◌++◌, [], inl, inr,
  Bool-cases, String, Bool, true, false, ◌||◌, ◌&&◌, Option, none, some, List, ◌∷◌, api_error,
  api_timeout, Result, ok, err, nat_eq, ltb, if◌then◌else◌, arith,
}
use client_py.Dict.{Dict}
use client_py.Value.{Value}
use client_py.Auth.Config.{RestConfiguration}
use client_py.Auth.Network.{
  Request, Params, Failure, timed_out, response_error, raised, Reading, unread, json, Outcome,
  failure, response, Libraries, Client, after,
}
use client_py.Auth.Post.{
  Credentials, max_retries, bad_gateway, sleep, handle_failure, read_response, attempt, next_turn,
  post_loop, post_request, post,
}

abbrev is_bad_failure : Failure → Bool
is_bad_failure (response_error status) = nat_eq status bad_gateway
is_bad_failure _ = false

-- The server or the reading of its response says 502.
abbrev pub is_bad_gateway : Outcome → Bool
is_bad_gateway (failure f) = is_bad_failure f
is_bad_gateway (response status (unread f)) =
    nat_eq status bad_gateway || (nat_eq status 200 && is_bad_failure f)
is_bad_gateway (response status (json v)) = nat_eq status bad_gateway

abbrev verdict_of : Failure → Result Value
verdict_of timed_out = err api_timeout
verdict_of (response_error status) = err api_error
verdict_of (raised e) = err e

-- What an answer that is no bad gateway means to the caller.
abbrev pub verdict : Outcome → Result Value
verdict (failure f) = verdict_of f
verdict (response status (unread f)) = if nat_eq status 200 then verdict_of f else err api_error
verdict (response status (json v)) = if nat_eq status 200 then ok v else err api_error

-- What a turn of the loop makes of it.
abbrev told : Result Value → Result (Option Value)
told (ok v) = ok (some v)
told (err e) = err e

-- Times, the latest first, at least ten seconds apart
abbrev pub Later : ℕ → List ℕ → Type 0
Later t [] = Unit
Later t (u ∷ us) = u + 10000000 ≤ t

abbrev pub Spaced : List ℕ → Type 0
Spaced [] = Unit
Spaced (t ∷ ts) = Later t ts × Spaced ts

module _ {K : Type 0} where
  abbrev turn_end : Bool → Result Value → Client K → Result (Option Value) × Client K
  turn_end bad r c = if bad then (ok none, sleep c) else (told r, c)

  handle_failure_lem :
      (f : Failure) (c : Client K)
      → handle_failure f c ≡ turn_end (is_bad_failure f) (verdict_of f) c
  unfolding handle_failure
  handle_failure_lem timed_out c = refl
  handle_failure_lem (response_error status) c = ground arith
  handle_failure_lem (raised e) c = refl

  read_response_lem :
      (status : ℕ) (reading : Reading) (c : Client K)
      → read_response status reading c
        ≡ turn_end (is_bad_gateway (response status reading)) (verdict (response status reading)) c
  unfolding read_response handle_failure
  read_response_lem status (unread f) c =
      ground (arith, handle_failure_lem f c, handle_failure_lem (response_error status) c)
  read_response_lem status (json v) c = ground (arith, handle_failure_lem (response_error status) c)

module _ {K : Type 0} (lib : Libraries K) (request : Request) where
  -- The client after k attempts that met a bad gateway, each followed by the pause.
  abbrev pub turn : ℕ → Client K → Client K
  turn zero c = c
  turn (suc k) c = turn k (sleep (after lib request c))

  -- How many of the first n attempts meet a bad gateway before another answer.
  unfoldable pub refusals : ℕ → Client K → ℕ
  refusals zero c = 0
  refusals (suc n) c =
      let more = suc (refusals n (sleep (after lib request c))) in
      if is_bad_gateway (lib.answer request c.net) then more else 0

  abbrev pub first_answer : ℕ → ℕ → Client K → Result Value × Client K
  first_answer n k c =
      if ltb k n
      then (verdict (lib.answer request (turn k c).net), after lib request (turn k c))
      else (err api_error, turn n c)

  refusals-le : (n : ℕ) (c : Client K) → refusals n c ≤ n
  unfolding refusals
  refusals-le zero c = omega arith
  refusals-le (suc n) c = ground (arith, refusals-le n (sleep (after lib request c)))

  attempt_lem :
      (c : Client K)
      → attempt lib request c
        ≡ turn_end
            (is_bad_gateway (lib.answer request c.net))
            (verdict (lib.answer request c.net))
            (after lib request c)
  unfolding attempt
  attempt_lem c =
      elim (lib.answer request c.net)
        as (λ o.
          elim o [
            | failure f ↦ handle_failure f (after lib request c)
            | response status reading ↦ read_response status reading (after lib request c)
          ]
          ≡ turn_end (is_bad_gateway o) (verdict o) (after lib request c)) [
            | failure f ↦ handle_failure_lem f (after lib request c)
            | response status reading ↦ read_response_lem status reading (after lib request c)
          ]

  next_turn_lem :
      (rest : Client K → Result Value × Client K) (bad : Bool) (r : Result Value) (d : Client K)
      → next_turn rest (turn_end bad r d) ≡ (if bad then rest (sleep d) else (r, d))
  unfolding next_turn
  next_turn_lem rest true r d = refl
  next_turn_lem rest false (ok v) d = refl
  next_turn_lem rest false (err e) d = refl

  first_answer-suc :
      (n k : ℕ) (bad : Bool) (c : Client K)
      → (if bad
          then first_answer n k (sleep (after lib request c))
          else (verdict (lib.answer request c.net), after lib request c))
        ≡ first_answer (suc n) (if bad then suc k else 0) c
  first_answer-suc n k true c = ground arith
  first_answer-suc n k false c = ground arith

  post_loop_lem :
      (n : ℕ) (c : Client K) → post_loop lib n request c ≡ first_answer n (refusals n c) c
  unfolding post_loop refusals
  post_loop_lem zero c = refl
  post_loop_lem (suc n) c =
      let next = sleep (after lib request c) in
      let bad = is_bad_gateway (lib.answer request c.net) in
      ap (next_turn (post_loop lib n request)) (attempt_lem c)
      ∙ next_turn_lem (post_loop lib n request) bad (verdict (lib.answer request c.net))
          (after lib request c)
      ∙ rw (post_loop_lem n next) (first_answer-suc n (refusals n next) bad c)

  -- The client after one more attempt and its pause.
  abbrev following : Client K → Client K
  following c = sleep (after lib request c)

  turn-following : (k : ℕ) (c : Client K) → turn k (following c) ≡ following (turn k c)
  turn-following zero c = refl
  turn-following (suc k) c = turn-following k (following c)

  -- This request at each of the times
  abbrev pub sent_at : List ℕ → List (ℕ × Request)
  sent_at times = map (λ t. (t, request)) times

  -- What k refused attempts sent; the next attempt keeps the distance too.
  abbrev SentBefore : ℕ → Client K → Client K → Type 0
  SentBefore k c d =
      (times : List ℕ) × (length times ≡ k)
      × (d.net.sent ≡ sent_at times ++ c.net.sent)
      × Spaced (d.net.clock ∷ times)

  turn-SentBefore : (k : ℕ) (c : Client K) → SentBefore k c (turn k c)
  unfolding after
  turn-SentBefore zero c = ([], refl, refl, (tt, tt))
  turn-SentBefore (suc k) c =
      let d = turn k c in
      let (times, many, sent, spaced) = turn-SentBefore k c in
      subst (SentBefore (suc k) c) (sym (turn-following k c)) (
        d.net.clock ∷ times,
        ap suc many,
        ap (λ l. (d.net.clock, request) ∷ l) sent,
        (omega arith, spaced),
      )

  -- The sends of a loop: one to n of them, at least ten seconds apart, and no other.
  abbrev pub Sends : ℕ → Client K → Client K → Type 0
  Sends n c c' =
      (times : List ℕ) × (1 ≤ length times)
      × (length times ≤ n)
      × (c'.net.sent ≡ sent_at times ++ c.net.sent)
      × Spaced times

  first_answer-Sends :
      (n k : ℕ) (c : Client K) → k ≤ suc n → Sends (suc n) c (first_answer (suc n) k c).1
  unfolding after
  first_answer-Sends n k c h = elim (Bool-cases (ltb k (suc n))) [
    | inl lt ↦
        let (times, many, sent, spaced) = turn-SentBefore k c in
        let t = (turn k c).net.clock in
        rw (lt) (
          t ∷ times,
          omega arith,
          ground (arith, many, lt),
          ap (λ l. (t, request) ∷ l) sent,
          spaced,
        )
    | inr ge ↦
        let (times, many, sent, (late, spaced)) = turn-SentBefore (suc n) c in
        rw (ge) (times, omega (arith, many), omega (arith, many), sent, spaced)
  ]

  loop-Sends : (c : Client K) → Sends max_retries c (post_loop lib max_retries request c).1
  loop-Sends c =
      rw (post_loop_lem max_retries c) (first_answer-Sends 2 (refusals 3 c) c (refusals-le 3 c))

module _ {K : Type 0} (lib : Libraries K) (config : RestConfiguration) (path : String)
    (body : Dict String Value) (query_params : Params) (headers : Dict String String)
    (credentials : Option Credentials) (c : Client K) where
  abbrev request : Request
  request = post_request lib config path body query_params headers credentials

  -- A post ends with the first answer that is no bad gateway: what it means is returned or raised;
  -- after three bad gateways, each followed by the pause, an ApiError is raised.
  pub post-first_answer :
      post lib config path body query_params headers credentials c
      ≡ first_answer lib request max_retries (refusals lib request max_retries c) c
  unfolding post
  post-first_answer = post_loop_lem lib request max_retries c

  -- A post sends its request between one and three times, with at least ten seconds between two of
  -- them, and nothing else.
  pub post-Sends :
      Sends lib request max_retries c
        (post lib config path body query_params headers credentials c).1
  unfolding post
  post-Sends = loop-Sends lib request c
