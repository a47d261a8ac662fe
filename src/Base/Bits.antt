-- ===== src/Base/Bits.antt =====
-- Laws of `&`, `|` and `^` at variables, by single bits: `bit k x` is bit k of x.
mod Digits
use Digits.{bit_and_digit, bit_or_digit}
use Prim.Native.Nat.{ℕ, zero, suc, ◌+◌, ◌-◌, ◌*◌, ◌/◌, ◌%◌, ◌^◌, ◌≤◌, ◌<◌, min, max}
use Prim.Native.Nat.{bit_and, bit_or}
use mathlib.Core.Path.{◌≡◌, refl, ap, sym, ◌∙◌}
use native.Mathlib.Nat.{div-div-eq-div-mul, pow-succ', one-le-pow, zero-div}
use native.Mathlib.Omega.{arith}

abbrev pub bit : ℕ → ℕ → ℕ
bit k x = x / 2 ^ k % 2

pub bit-half : (k x : ℕ) → bit (suc k) x ≡ bit k (x / 2)
bit-half k x = rw (pow-succ' 2 k, ← div-div-eq-div-mul x 2 (2 ^ k))

pub bit-bit_and : (k a b : ℕ) → bit k (bit_and a b) ≡ min (bit k a) (bit k b)
bit-bit_and zero a b = omega (arith, bit_and_digit a b)
bit-bit_and (suc k) a b =
    rw (bit-half k (bit_and a b), bit-half k a, bit-half k b, bit_and_half)
      (bit-bit_and k (a / 2) (b / 2))
  where
    bit_and_half : bit_and a b / 2 ≡ bit_and (a / 2) (b / 2)
    bit_and_half = omega (arith, bit_and_digit a b)

pub bit-bit_or : (k a b : ℕ) → bit k (bit_or a b) ≡ max (bit k a) (bit k b)
bit-bit_or zero a b = omega (arith, bit_or_digit a b)
bit-bit_or (suc k) a b =
    rw (bit-half k (bit_or a b), bit-half k a, bit-half k b, bit_or_half)
      (bit-bit_or k (a / 2) (b / 2))
  where
    bit_or_half : bit_or a b / 2 ≡ bit_or (a / 2) (b / 2)
    bit_or_half = omega (arith, bit_or_digit a b)

-- Numbers with the same bits are equal; `n` bounds them for the recursion.
bit_ext_below : (n a b : ℕ) → a ≤ n → b ≤ n → ((k : ℕ) → bit k a ≡ bit k b) → a ≡ b
bit_ext_below zero a b p q h = omega arith
bit_ext_below (suc n) a b p q h = omega (
  arith,
  h 0,
  bit_ext_below n (a / 2) (b / 2) (omega arith) (omega arith)
      λ k. sym (bit-half k a) ∙ h (suc k) ∙ bit-half k b,
)

pub bit_ext : (a b : ℕ) → ((k : ℕ) → bit k a ≡ bit k b) → a ≡ b
bit_ext a b h = bit_ext_below (a + b) a b (omega arith) (omega arith) h

zero-bit : (k : ℕ) → bit k 0 ≡ 0
zero-bit k = rw zero-div

pub bit_and-zero : (a : ℕ) → bit_and a 0 ≡ 0
bit_and-zero a = bit_ext (bit_and a 0) 0 λ k. omega (arith, bit-bit_and k a 0, zero-bit k)

pub bit_or-zero : (a : ℕ) → bit_or a 0 ≡ a
bit_or-zero a = bit_ext (bit_or a 0) a λ k. omega (arith, bit-bit_or k a 0, zero-bit k)

mod_double : (a m : ℕ) → 0 < m → a % (2 * m) ≡ a / 2 % m * 2 + a % 2
mod_double a m h = grind arith

-- `& (2 ^ k - 1)` is the remainder by 2 ^ k.
pub bit_and_mask : (k a : ℕ) → bit_and a (2 ^ k - 1) ≡ a % 2 ^ k
bit_and_mask zero a = omega (arith, bit_and-zero a)
bit_and_mask (suc k) a =
    rw
      (
        bit_and_digit a (2 ^ suc k - 1),
        half,
        pow-succ' 2 k,
        mod_double a (2 ^ k) (one-le-pow k 2 (omega arith)),
        bit_and_mask k (a / 2),
      )
      (omega (arith, one-le-pow k 2))
  where
    half : (2 ^ suc k - 1) / 2 ≡ 2 ^ k - 1
    half = omega (arith, pow-succ' 2 k, one-le-pow k 2)

lt-one_eq_zero : (r : ℕ) → r < 1 → r ≡ 0
lt-one_eq_zero r h = omega arith

-- `|` of two fields that do not overlap is their sum.
pub bit_or_fields : (k q r : ℕ) → r < 2 ^ k → bit_or (q * 2 ^ k) r ≡ q * 2 ^ k + r
bit_or_fields zero q r h = rw (lt-one_eq_zero r h) (bit_or-zero (q * 1) ∙ omega arith)
bit_or_fields (suc k) q r h =
    let e : q * 2 ^ suc k ≡ 2 * (q * 2 ^ k) =
      omega (arith, ap (λ (t : ℕ). q * t) (pow-succ' 2 k)) in
    ground (arith, bit_or_digit (q * 2 ^ suc k) r, pow-succ' 2 k, bit_or_fields k q (r / 2))

pub bit_digits :
    (a b : ℕ)
    → (bit_and a b ≡ bit_and (a / 2) (b / 2) * 2 + min (a % 2) (b % 2))
      × (bit_or a b ≡ bit_or (a / 2) (b / 2) * 2 + max (a % 2) (b % 2))
bit_digits a b = (bit_and_digit a b, bit_or_digit a b)

-- `(x >> k) & 1` is bit k.
pub bit_read : (k x : ℕ) → bit_and (x / 2 ^ k) 1 ≡ bit k x
bit_read k x = bit_and_mask 1 (x / 2 ^ k)

pub bit-le-one : (k x : ℕ) → bit k x ≤ 1
bit-le-one k x = omega arith
