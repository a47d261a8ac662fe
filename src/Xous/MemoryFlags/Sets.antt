-- ===== src/Xous/MemoryFlags/Sets.antt =====
-- The operations of src/xous/definitions/memoryflags.rs as operations on sets of bits.
use yove.Base.{
  ℕ, zero, suc, ◌-◌, ◌/◌, ◌^◌, ◌<◌, ◌≤◌, ◌≡◌, sym, ap, ◌∙◌, true, min, bit, bit-half, bit-bit_and,
  bit_and, bit_ext, refl, ◌↔◌, ◌⊎◌, inl, inr, if◌then◌else◌, ltb, arith,
}
use native.Mathlib.Nat.{pow-succ'}
use yove.Xous.MemoryFlags.{MemoryFlags, contains_flags, sub, not_flags, inverted}

-- The complement of a set in n bits has the bits that the set has not.
bit_complement : (n k b : ℕ) → b < 2 ^ n → k < n → bit k (2 ^ n - 1 - b) ≡ 1 - bit k b
bit_complement (suc n) zero b h l = omega arith
bit_complement (suc n) (suc k) b h l =
    let e : (2 ^ suc n - 1 - b) / 2 ≡ 2 ^ n - 1 - b / 2 = omega (arith, pow-succ' 2 n) in
    bit-half k (2 ^ suc n - 1 - b)
    ∙ ap (bit k) e
    ∙ bit_complement n k (b / 2) (omega (arith, pow-succ' 2 n, h)) (omega arith)
    ∙ ap (λ (x : ℕ). 1 - x) (sym (bit-half k b))
bit_complement zero k b h l = omega arith

-- A flag is in the difference of two sets when it is in the first and not in the second, for the
-- 64 bits of a word.
pub bit-sub :
    (flags other : MemoryFlags) (k : ℕ)
    → other.bits < 2 ^ 64
    → k < 64
    → bit k (sub flags other).bits ≡ min (bit k flags.bits) (1 - bit k other.bits)
bit-sub flags other k h l =
    bit-bit_and k flags.bits (inverted other.bits)
    ∙ ap (min (bit k flags.bits)) (bit_complement 64 k other.bits h l)

-- `contains_flags` says yes exactly when each flag of `other` is one of the set.
pub contains_flags_iff :
    (flags other : MemoryFlags)
    → (contains_flags flags other ≡ true) ↔ ((k : ℕ) → bit k other.bits ≤ bit k flags.bits)
contains_flags_iff flags other = (
  λ h k.
      let e : bit_and flags.bits other.bits ≡ other.bits = ground arith in
      omega (arith, bit-bit_and k flags.bits other.bits, ap (bit k) e),
  λ h.
      let e : bit_and flags.bits other.bits ≡ other.bits =
        bit_ext _ _ λ k. omega (arith, bit-bit_and k flags.bits other.bits, h k) in
      ground (arith, e),
)

bit_zero : (k : ℕ) → bit k 0 ≡ 0
bit_zero zero = refl
bit_zero (suc k) = bit-half k 0 ∙ bit_zero k

-- The bits from `n` on of a number of n bits.
bit_high : (n k b : ℕ) → b < 2 ^ n → n ≤ k → bit k b ≡ 0
bit_high zero k b h l = ap (bit k) (omega arith) ∙ bit_zero k
bit_high (suc n) zero b h l = omega arith
bit_high (suc n) (suc k) b h l =
    bit-half k b ∙ bit_high n k (b / 2) (omega (arith, pow-succ' 2 n, h)) (omega arith)

-- One of the eight flags is in the complement of a set exactly when it is not in the set, and no
-- other bit is in the complement, for sets in a word of 64 bits.
pub bit-not_flags :
    (flags : MemoryFlags) (k : ℕ)
    → flags.bits < 2 ^ 64
    → bit k (not_flags flags).bits ≡ (if ltb k 8 then 1 - bit k flags.bits else 0)
bit-not_flags flags k h = elim (below_eight k) [
  | inl l ↦
      let e : bit k (not_flags flags).bits ≡ 1 - bit k flags.bits = omega (
        arith,
        bit-bit_and k (inverted flags.bits) 255,
        bit_complement 64 k flags.bits h (omega arith),
        bit_complement 8 k 0 (omega arith) l,
        bit_zero k,
      ) in
      ground (arith, e)
  | inr l ↦
      let e : bit k (not_flags flags).bits ≡ 0 =
        omega (arith, bit-bit_and k (inverted flags.bits) 255, bit_high 8 k 255 (omega arith) l) in
      ground (arith, e)
]
  where
    below_eight : (k : ℕ) → (k < 8) ⊎ (8 ≤ k)
    below_eight k = omega arith
