-- ===== src/Base/Mask.antt =====
-- `&` and `|` as a distributive lattice on words, and reading and writing through a mask.
use Prim.Native.Nat.{ℕ, zero, suc, ◌*◌, ◌/◌, ◌^◌, ◌≤◌, ◌<◌, bit_and, bit_or}
use mathlib.Core.Path.{◌≡◌, ◌∙◌, ap, ap₂, sym}
use native.Mathlib.Nat.{pow-succ', div-div-eq-div-mul}
use native.Mathlib.Omega.{arith}
use yove.Base.Bits.{bit_ext, bit-bit_and, bit-bit_or, bit_and-zero, bit_or-zero, bit_digits}

pub bit_and_comm : (a b : ℕ) → bit_and a b ≡ bit_and b a
bit_and_comm a b = bit_ext _ _ λ k. omega (arith, bit-bit_and k a b, bit-bit_and k b a)

pub bit_and_assoc : (a b c : ℕ) → bit_and (bit_and a b) c ≡ bit_and a (bit_and b c)
bit_and_assoc a b c = bit_ext _ _ λ k. omega (
  arith,
  bit-bit_and k (bit_and a b) c,
  bit-bit_and k a b,
  bit-bit_and k a (bit_and b c),
  bit-bit_and k b c,
)

pub bit_or_comm : (a b : ℕ) → bit_or a b ≡ bit_or b a
bit_or_comm a b = bit_ext _ _ λ k. omega (arith, bit-bit_or k a b, bit-bit_or k b a)

pub bit_or_assoc : (a b c : ℕ) → bit_or (bit_or a b) c ≡ bit_or a (bit_or b c)
bit_or_assoc a b c = bit_ext _ _ λ k. omega (
  arith,
  bit-bit_or k (bit_or a b) c,
  bit-bit_or k a b,
  bit-bit_or k a (bit_or b c),
  bit-bit_or k b c,
)

pub bit_and-bit_or : (a b m : ℕ) → bit_and (bit_or a b) m ≡ bit_or (bit_and a m) (bit_and b m)
bit_and-bit_or a b m = bit_ext _ _ λ k. omega (
  arith,
  bit-bit_and k (bit_or a b) m,
  bit-bit_or k a b,
  bit-bit_or k (bit_and a m) (bit_and b m),
  bit-bit_and k a m,
  bit-bit_and k b m,
)

pub zero-bit_or : (a : ℕ) → bit_or 0 a ≡ a
zero-bit_or a = bit_or_comm 0 a ∙ bit_or-zero a

-- A register is written through the mask `m` and keeps the bits of `n`: what is read through `m`
-- is the value, and what is read through `n` is as before.
pub masked_write_read :
    (m n old v : ℕ)
    → bit_and n m ≡ 0
    → bit_and m m ≡ m
    → bit_and (bit_or (bit_and old n) (bit_and v m)) m ≡ bit_and v m
masked_write_read m n old v disjoint self =
    simp (bit_and-bit_or, bit_and_assoc, disjoint, self, bit_and-zero, zero-bit_or)

pub masked_write_rest :
    (m n old v : ℕ)
    → bit_and m n ≡ 0
    → bit_and n n ≡ n
    → bit_and (bit_or (bit_and old n) (bit_and v m)) n ≡ bit_and old n
masked_write_rest m n old v disjoint self =
    simp (bit_and-bit_or, bit_and_assoc, disjoint, self, bit_and-zero, bit_or-zero)

-- Bounds.
pub bit_and-le : (n a b : ℕ) → a ≤ n → bit_and a b ≤ a
bit_and-le zero a b h =
    let e : a ≡ 0 = omega arith in rw (e, bit_and_comm 0 b, bit_and-zero b) (omega arith)
bit_and-le (suc n) a b h = omega (arith, bit_digits a b, bit_and-le n (a / 2) (b / 2) (omega arith))

pub bit_or-lt : (k a b : ℕ) → a < 2 ^ k → b < 2 ^ k → bit_or a b < 2 ^ k
bit_or-lt zero a b p q =
    let e : a ≡ 0 = omega arith in let f : b ≡ 0 = omega arith in rw (e, f) (omega arith)
bit_or-lt (suc k) a b p q = omega (
  arith,
  bit_digits a b,
  pow-succ' 2 k,
  bit_or-lt k (a / 2) (b / 2) (omega (arith, pow-succ' 2 k)) (omega (arith, pow-succ' 2 k)),
)

-- A mask that is shifted to the left reads the bits above its place.
pub bit_and_shifted : (k m x : ℕ) → bit_and x (m * 2 ^ k) ≡ bit_and (x / 2 ^ k) m * 2 ^ k
bit_and_shifted zero m x = ap₂ bit_and e f ∙ g
  where
    e : x ≡ x / 2 ^ 0
    e = omega arith

    f : m * 2 ^ 0 ≡ m
    f = omega arith

    g : bit_and (x / 2 ^ 0) m ≡ bit_and (x / 2 ^ 0) m * 2 ^ 0
    g = omega arith
bit_and_shifted (suc k) m x =
    let e : m * 2 ^ suc k ≡ 2 * (m * 2 ^ k) =
      omega (arith, ap (λ (t : ℕ). m * t) (pow-succ' 2 k)) in
    let f : bit_and (x / 2 ^ suc k) m * 2 ^ suc k ≡ 2 * (bit_and (x / 2 ^ suc k) m * 2 ^ k) =
      omega (arith, ap (λ (t : ℕ). bit_and (x / 2 ^ suc k) m * t) (pow-succ' 2 k)) in
    let g : x / 2 / 2 ^ k ≡ x / 2 ^ suc k =
      div-div-eq-div-mul x 2 (2 ^ k) ∙ ap (λ (t : ℕ). x / t) (sym (pow-succ' 2 k)) in
    let h : m * 2 ^ suc k / 2 ≡ m * 2 ^ k = omega (arith, e) in
    let i : bit_and (x / 2) (m * 2 ^ suc k / 2) ≡ bit_and (x / 2 ^ suc k) m * 2 ^ k =
      ap (bit_and (x / 2)) h
      ∙ bit_and_shifted k m (x / 2)
      ∙ ap (λ (t : ℕ). bit_and t m * 2 ^ k) g in
    omega (arith, (bit_digits x (m * 2 ^ suc k)).0, e, f, i)
