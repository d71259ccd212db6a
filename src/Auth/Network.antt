-- ===== src/Auth/Network.antt =====
-- The network as `_AuthClient` sees it: requests with aiohttp, what they return or raise, and the
-- clock. `Libraries` is the code outside of the repository. Times are microseconds.
use client_py.Prelude.{ℕ, ◌+◌, String, Option, List, ◌∷◌, Error, Result}
use client_py.Dict.{Dict}
use client_py.Value.{Value}

-- A value of `dict[str, str | int]`
pub data Param : Type 0 where
  str : String → Param
  number : ℕ → Param

abbrev pub Params : Type 0
Params = Dict String Param

-- `session.get(url, params=...)` and `session.post(url, json=..., params=..., headers=...)`
pub data Request : Type 0 where
  get : String → Params → Request
  post : String → Dict String Value → Params → Dict String String → Request

-- The exceptions: a time out, a `ClientResponseError` with its status, or another one.
pub data Failure : Type 0 where
  timed_out : Failure
  response_error : ℕ → Failure
  raised : Error → Failure

-- `await res.json()`
pub data Reading : Type 0 where
  unread : Failure → Reading
  json : Value → Reading

-- What a request comes to: no response, or one with its status.
pub data Outcome : Type 0 where
  failure : Failure → Outcome
  response : ℕ → Reading → Outcome

-- The clock, and the requests that were sent, each with its time, the latest first.
pub record Net : Type 0 where
  pub clock : ℕ
  pub sent : List (ℕ × Request)

-- aiohttp with the servers behind it, `cryptography`, `orjson`, `base64` and `hashlib`, over the
-- type of the RSA public keys. `load_der` returns none for a key that is not an RSA key; `repr` is
-- Python's on floats, lists and dicts, and `time_text` is `str` of a time.
pub record Libraries (K : Type 0) : Type 0 where
  pub answer : Request → Net → Outcome
  pub elapsed : Request → Net → ℕ
  pub urljoin : String → String → String
  pub md5 : String → String
  pub time_text : ℕ → String
  pub repr : Value → String
  pub loads : String → Result Value
  pub b64decode : String → Result (List ℕ)
  pub load_der : List ℕ → Result (Option K)
  pub encrypt : K → String → Net → String

-- The state of `_AuthClient`: `_public_key`, with the network.
pub record Client (K : Type 0) : Type 0 where
  pub public_key : Option K
  pub net : Net

module _ {K : Type 0} (lib : Libraries K) where
  -- The network after a request.
  unfoldable pub after : Request → Client K → Client K
  after r c = record c {
    net = record {
      clock = c.net.clock + lib.elapsed r c.net;
      sent = (c.net.clock, r) ∷ c.net.sent;
    };
  }
