-- ===== src/Prelude/Effects.antt =====
-- Python code that mutates a state and may raise. What was written before a raise stays written,
-- so the state comes back beside the exception too.
use mathlib.Core.Path.{◌≡◌, refl, ap}
use mathlib.Core.Logic.{◌⊎◌, inl, inr}

-- The exceptions that the sources raise or catch by class.
pub data Error : Type 0 where
  key_error value_error type_error attribute_error index_error : Error
  deebot_error api_error api_timeout map_error mqtt_error : Error
  authentication_error invalid_authentication invalid_verification_code : Error
  verification_required client_error timeout_error broker_error other_error : Error

pub data Result {ℓ} (A : Type ℓ) : Type ℓ where
  ok : A → Result A
  err : Error → Result A

module _ {ℓ} {A : Type ℓ} where
  pub Result-cases : (r : Result A) → ((a : A) × (r ≡ ok a)) ⊎ ((e : Error) × (r ≡ err e))
  Result-cases (ok a) = inl (a, refl)
  Result-cases (err e) = inr (e, refl)

  abbrev ok_or : A → Result A → A
  ok_or default (ok a) = a
  ok_or default (err e) = default

  pub ok-injective : {a b : A} → ok a ≡ ok b → a ≡ b
  ok-injective {a} h = ap (ok_or a) h

abbrev pub Exec {ℓ} : Type ℓ → Type ℓ → Type ℓ
Exec S A = S → Result A × S

module _ {ℓ} {S A : Type ℓ} where
  abbrev pub pure : A → Exec S A
  pure a s = (ok a, s)

  abbrev pub raise : Error → Exec S A
  raise e s = (err e, s)

  -- A pure computation that may raise.
  abbrev pub lift : Result A → Exec S A
  lift r s = (r, s)

  -- `try: m except Exception as e: handler`
  abbrev pub try_except : Exec S A → (Error → Exec S A) → Exec S A
  try_except m handler s = let (r, s') = m s in elim r [ ok a ↦ (ok a, s') | err e ↦ handler e s' ]

module _ {ℓ} {S A B : Type ℓ} where
  infixl 10 ◌>>=◌ ◌>>◌
  abbrev pub ◌>>=◌ : Exec S A → (A → Exec S B) → Exec S B
  ◌>>=◌ m f s = let (r, s') = m s in elim r [ ok a ↦ f a s' | err e ↦ (err e, s') ]

  abbrev pub ◌>>◌ : Exec S A → Exec S B → Exec S B
  m >> n = m >>= λ _. n
