-- ===== src/Prelude/Results.antt =====
-- Computations that may raise and change nothing, in do blocks, and what holds of what they return.
use mathlib.Core.Path.{◌≡◌, refl}
use mathlib.Core.Bool.{Bool, true, false}
use client_py.Prelude.Tests.{if◌then◌else◌}
use client_py.Prelude.Effects.{Result, ok, err}

module _ {ℓ κ} {A : Type ℓ} {B : Type κ} where
  infixl 10 ◌>>=◌ ◌>>◌
  abbrev pub ◌>>=◌ : Result A → (A → Result B) → Result B
  ok a >>= f = f a
  err e >>= f = err e

  abbrev pub ◌>>◌ : Result A → Result B → Result B
  r >> s = r >>= λ _. s

-- A predicate of what is returned, if anything is.
abbrev pub Holds {ℓ κ} : {A : Type ℓ} → (A → Type κ) → Result A → Type κ
Holds P (ok a) = P a
Holds P (err e) = Unit

pub Holds-bind {ℓ κ μ} :
    {A : Type ℓ} {B : Type κ} (P : B → Type μ) (r : Result A) (f : A → Result B)
    → ((a : A) → r ≡ ok a → Holds P (f a))
    → Holds P (r >>= f)
Holds-bind P (ok a) f h = h a refl
Holds-bind P (err e) f h = tt

pub Holds-if {ℓ κ} :
    {A : Type ℓ} (P : A → Type κ) (b : Bool) (r s : Result A)
    → Holds P r
    → Holds P s
    → Holds P (if b then r else s)
Holds-if P true r s hr hs = hr
Holds-if P false r s hr hs = hs
