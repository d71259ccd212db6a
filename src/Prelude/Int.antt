-- ===== src/Prelude/Int.antt =====
-- Python's integers, over the native numbers.
use Prim.Native.Nat.{ℕ, suc, ◌+◌, ◌-◌}
use mathlib.Core.Bool.{Bool, true, ◌&&◌}
use mathlib.Core.Path.{◌≡◌, ap}
use mathlib.Core.Logic.{◌↔◌}
use native.Mathlib.Omega.{arith}
use client_py.Prelude.Tests.{leb, ltb, nat_eq, nat_eq_iff, Eq, if◌then◌else◌}

-- `negsuc n` is -(n + 1).
pub data ℤ : Type 0 where
  pos : ℕ → ℤ
  negsuc : ℕ → ℤ

abbrev pub pos_part : ℤ → ℕ
pos_part (pos n) = n
pos_part (negsuc n) = 0

abbrev pub neg_part : ℤ → ℕ
neg_part (pos n) = 0
neg_part (negsuc n) = suc n

-- a - b, as an integer.
abbrev pub sub_ℕ : ℕ → ℕ → ℤ
sub_ℕ a b = if leb b a then pos (a - b) else negsuc (b - a - 1)

infixl 65 ◌+ℤ◌
abbrev pub ◌+ℤ◌ : ℤ → ℤ → ℤ
a +ℤ b = sub_ℕ (pos_part a + pos_part b) (neg_part a + neg_part b)

abbrev pub int_eq : ℤ → ℤ → Bool
int_eq a b = nat_eq (pos_part a) (pos_part b) && nat_eq (neg_part a) (neg_part b)

-- `a < b` and `a <= b`
abbrev pub ltb_ℤ : ℤ → ℤ → Bool
ltb_ℤ a b = ltb (pos_part a + neg_part b) (pos_part b + neg_part a)

abbrev pub leb_ℤ : ℤ → ℤ → Bool
leb_ℤ a b = leb (pos_part a + neg_part b) (pos_part b + neg_part a)

int_eq_sound : (a b : ℤ) → int_eq a b ≡ true → a ≡ b
int_eq_sound (pos n) (pos m) h = ap pos ((nat_eq_iff n m).0 (ground arith))
int_eq_sound (pos n) (negsuc m) h = ground arith
int_eq_sound (negsuc n) (pos m) h = ground arith
int_eq_sound (negsuc n) (negsuc m) h = ap negsuc ((nat_eq_iff n m).0 (ground arith))

int_eq_self : (a : ℤ) → int_eq a a ≡ true
int_eq_self (pos n) = ground arith
int_eq_self (negsuc n) = ground arith

pub int_eq_iff : (a b : ℤ) → (int_eq a b ≡ true) ↔ (a ≡ b)
int_eq_iff a b = (int_eq_sound a b, λ e. rw (e) (int_eq_self b))

instance abbrev pub int_keys : Eq ℤ
int_keys = record { beq = int_eq; beq_iff = int_eq_iff }
