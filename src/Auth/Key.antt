-- ===== src/Auth/Key.antt =====
-- The public key of `_AuthClient` and the encryption with it.
use client_py.Prelude.{
  String, Bool, true, false, Option, none, some, [], ◌∷◌, Error, key_error, value_error, type_error,
  authentication_error, Result, ok, err, Exec, ◌>>=◌, if◌then◌else◌,
}
use client_py.Value.{Value, Items, nil, cons, text, dict, list, item, find, is_text}
use client_py.Auth.Config.{RestConfiguration}
use client_py.Auth.Network.{str, Libraries, Client}
use client_py.Auth.Api.{call_private_api}

abbrev public_key_config : String
public_key_config = "PUBLIC.KEY.CONFIG"

abbrev is_text_value : Option Value → Option String
is_text_value (some (text s)) = some s
is_text_value _ = none

abbrev is_text_of : Option Value → String → Bool
is_text_of (some v) s = is_text v s
is_text_of none s = false

-- The value of an entry of the configuration that has the public key.
unfoldable pub key_entry : Value → Option String
key_entry (dict fs) =
    if is_text_of (find "key" fs) public_key_config then is_text_value (find "value" fs) else none
key_entry _ = none

-- The first such entry
unfoldable pub find_key : Items → Option String
find_key nil = none
find_key (cons entry entries) =
    let rest = find_key entries in elim (key_entry entry) [ none ↦ rest | some s ↦ some s ]

-- The exceptions that make an invalid public key.
abbrev is_key_failure : Error → Bool
is_key_failure key_error = true
is_key_failure type_error = true
is_key_failure value_error = true
is_key_failure _ = false

abbrev is_value_error : Error → Bool
is_value_error value_error = true
is_value_error _ = false

abbrev invalid_key_if {ℓ} : {A : Type ℓ} → (Error → Bool) → Result A → Result A
invalid_key_if caught (ok a) = ok a
invalid_key_if caught (err e) = if caught e then err authentication_error else err e

module _ {K : Type 0} (lib : Libraries K) where
  abbrev encoded_key : String → Result Value
  encoded_key config_value = elim (lib.loads config_value) [
    | err e ↦ err e
    | ok v ↦ item v "publicKey"
  ]

  abbrev decode_key : String → Result (Option K)
  decode_key encoded = elim (lib.b64decode encoded) [
    | err e ↦ err e
    | ok bytes ↦ lib.load_der bytes
  ]

  abbrev rsa_only : Result (Option K) → Result K
  rsa_only (err e) = err e
  rsa_only (ok none) = err authentication_error
  rsa_only (ok (some key)) = ok key

  -- `__load_public_key`
  unfoldable pub load_public_key : String → Result K
  load_public_key config_value = elim (invalid_key_if is_key_failure (encoded_key config_value)) [
    | err e ↦ err e
    | ok v ↦ elim v [
      | text encoded ↦ rsa_only (invalid_key_if is_value_error (decode_key encoded))
      | _ ↦ err authentication_error
    ]
  ]

  -- `__get_public_key` from the response
  unfoldable pub keep_public_key : Value → Exec (Client K) K
  keep_public_key (list entries) c = elim (find_key entries) [
    | none ↦ (err authentication_error, c)
    | some value ↦ elim (load_public_key value) [
      | err e ↦ (err e, c)
      | ok key ↦ (ok key, record c { public_key = some key })
    ]
  ]
  keep_public_key _ c = (err authentication_error, c)

  -- `__get_public_key`
  unfoldable pub get_public_key : RestConfiguration → Exec (Client K) K
  get_public_key config c =
      let fetched =
        (call_private_api lib config "common/getConfig" (("keys", str public_key_config) ∷ [])
            >>= keep_public_key)
          c in
      elim c.public_key [ some key ↦ (ok key, c) | none ↦ fetched ]

  -- `__encrypt_account`, base64 included
  unfoldable pub encrypt_account : RestConfiguration → String → Exec (Client K) String
  encrypt_account config account =
      get_public_key config >>= λ key c. (ok (lib.encrypt key account c.net), c)
