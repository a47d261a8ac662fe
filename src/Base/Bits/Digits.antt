-- ===== src/Base/Bits/Digits.antt =====
-- The native bit operations are recursions on binary digits with fuel; here the fuel is dropped,
-- which leaves one equation for the lowest digit of each.
use Prim.Native.Nat.{ℕ, zero, suc, ◌+◌, ◌*◌, ◌/◌, ◌%◌, ◌≤◌, min, max}
use Prim.Native.Nat.{digits, bit_and, bit_or, bit_and-bitwise, bit_or-bitwise}
use mathlib.Core.Path.{◌≡◌, refl}
use native.Mathlib.Omega.{arith}

-- Any two counts of digits that reach the end of `a` give one result.
enough :
    (z : ℕ → ℕ) (f : ℕ → ℕ → ℕ) (n m a b : ℕ) → a ≤ n → a ≤ m → digits z f n a b ≡ digits z f m a b
enough z f zero zero a b p q = refl
enough z f zero (suc m) zero b p q = refl
enough z f zero (suc m) (suc a) b p q = elim p [ ]
enough z f (suc n) zero zero b p q = refl
enough z f (suc n) zero (suc a) b p q = elim q [ ]
enough z f (suc n) (suc m) zero b p q = refl
enough z f (suc n) (suc m) (suc a) b p q =
    rw (enough z f n m (suc a / 2) (b / 2) (omega arith) (omega arith))

module _ (z : ℕ → ℕ) (f : ℕ → ℕ → ℕ) where
  lowest :
      (a b : ℕ)
      → digits z f (suc a) (suc a) b
        ≡ digits z f (suc a / 2) (suc a / 2) (b / 2) * 2 + f (suc a % 2) (b % 2)
  lowest a b = rw (enough z f a (suc a / 2) (suc a / 2) (b / 2) (omega arith) (omega arith))

pub bit_and_digit : (a b : ℕ) → bit_and a b ≡ bit_and (a / 2) (b / 2) * 2 + min (a % 2) (b % 2)
bit_and_digit zero b = simp bit_and-bitwise (omega arith)
bit_and_digit (suc a) b = simp bit_and-bitwise (lowest (λ _. 0) min a b)

pub bit_or_digit : (a b : ℕ) → bit_or a b ≡ bit_or (a / 2) (b / 2) * 2 + max (a % 2) (b % 2)
bit_or_digit zero b = simp bit_or-bitwise (omega arith)
bit_or_digit (suc a) b = simp bit_or-bitwise (lowest (λ y. y) max a b)
