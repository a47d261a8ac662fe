-- ===== src/Cpu/Ops/MulDiv/Identity.antt =====
-- Signed division (crates/riscv-cpu/src/cpu/instructions.rs, DIV and REM).
use yove.Base.{
  ℕ, zero, suc, ◌+◌, ◌-◌, ◌*◌, ◌/◌, ◌%◌, ◌^◌, ◌<◌, ◌≤◌, ◌≡◌, ◌≢◌, refl, ap, sym, ◌∙◌, ◌==◌, ◌&&◌,
  if◌then◌else◌, arith,
}
use native.Mathlib.Nat.{div-add-mod', div-le_self, div-lt_self, mod-le, mod-lt}
use yove.Base.Int.{
  ℤ, pos, negsuc, abs, neg, ◌+ℤ◌, ◌*ℤ◌, div_ℤ, rem_ℤ, signed32, wrap32, IsI32, signed32-wrap32,
}
use yove.Cpu.Ops.MulDiv.{quotient, remainder, most_negative, minus_one}

abbrev IsZero : ℤ → Type 0
IsZero y = abs y ≡ 0

neg-suc : (n : ℕ) → neg (suc n) ≡ negsuc n
neg-suc n = ground arith

neg-*ℤ-negsuc : (q b : ℕ) → neg q *ℤ negsuc b ≡ pos (q * suc b)
unfolding ◌*ℤ◌
neg-*ℤ-negsuc zero b = let e : 0 ≡ 0 * suc b = omega arith in sym (ap neg e) ∙ ap pos e
neg-*ℤ-negsuc (suc q) b = ap (λ z. z *ℤ negsuc b) (neg-suc q)

neg-*ℤ-pos : (q b : ℕ) → neg q *ℤ pos b ≡ neg (q * b)
unfolding ◌*ℤ◌
neg-*ℤ-pos zero b = let e : 0 ≡ 0 * b = omega arith in sym (ap pos e) ∙ ap neg e
neg-*ℤ-pos (suc q) b = ap (λ z. z *ℤ pos b) (neg-suc q)

neg-+ℤ-neg : (p q : ℕ) → neg p +ℤ neg q ≡ neg (p + q)
unfolding ◌+ℤ◌
neg-+ℤ-neg p q = ground arith

pos-+ℤ-pos : (p q : ℕ) → pos p +ℤ pos q ≡ pos (p + q)
unfolding ◌+ℤ◌
pos-+ℤ-pos p q = ground arith

divided : (x y : ℤ) → ¬ IsZero y → div_ℤ x y *ℤ y +ℤ rem_ℤ x y ≡ x
unfolding div_ℤ rem_ℤ ◌*ℤ◌
divided (pos a) (pos b) h = rw (pos-+ℤ-pos (a / b * b) (a % b)) (ap pos (div-add-mod' a b))
divided (pos a) (negsuc b) h =
    rw (neg-*ℤ-negsuc (a / suc b) b, pos-+ℤ-pos (a / suc b * suc b) (a % suc b))
      (ap pos (div-add-mod' a (suc b)))
divided (negsuc a) (pos b) h =
    rw (neg-*ℤ-pos (suc a / b) b, neg-+ℤ-neg (suc a / b * b) (suc a % b))
      (ap neg (div-add-mod' (suc a) b) ∙ neg-suc a)
divided (negsuc a) (negsuc b) h =
    rw (neg-+ℤ-neg (suc a / suc b * suc b) (suc a % suc b))
      (ap neg (div-add-mod' (suc a) (suc b)) ∙ neg-suc a)

div-le : (a b : ℕ) → a / b ≤ a
div-le a b = div-le_self a b

IsI32-neg : (q : ℕ) → q ≤ 2 ^ 31 → IsI32 (neg q)
IsI32-neg zero h = ground arith
IsI32-neg (suc q) h = ground arith

div_fits :
    (x y : ℤ)
    → ¬ IsZero y
    → IsI32 x
    → ¬ ((x ≡ negsuc (2 ^ 31 - 1)) × (y ≡ negsuc 0))
    → IsI32 (div_ℤ x y)
unfolding div_ℤ
div_fits (pos a) (pos b) h p n = omega (arith, div-le a b)
div_fits (pos a) (negsuc b) h p n = IsI32-neg _ (omega (arith, div-le a (suc b)))
div_fits (negsuc a) (pos b) h p n = IsI32-neg _ (omega (arith, div-le (suc a) b))
div_fits (negsuc a) (negsuc zero) h p n =
    omega (arith, λ (e : a ≡ 2 ^ 31 - 1). n (ap negsuc e, refl))
div_fits (negsuc a) (negsuc (suc b)) h p n =
    omega (arith, div-lt_self {n = suc a} {k = suc (suc b)} (omega arith) (omega arith))

rem_fits : (x y : ℤ) → ¬ IsZero y → IsI32 x → IsI32 (rem_ℤ x y)
unfolding rem_ℤ
rem_fits (pos a) y h p = omega (arith, mod-le a (abs y))
rem_fits (negsuc a) y h p = IsI32-neg _ (omega (arith, mod-le (suc a) (abs y)))

-- Outside the two special cases the code's quotient and remainder are those of the integers.
module _ (dividend divisor : ℕ) (a : dividend < 2 ^ 32) (b : divisor < 2 ^ 32)
    (nonzero : divisor ≢ 0) (regular : ¬ ((dividend ≡ most_negative) × (divisor ≡ minus_one))) where
  signed_nonzero : ¬ IsZero (signed32 divisor)
  signed_nonzero = ground arith

  signed_fits : (w : ℕ) → w < 2 ^ 32 → IsI32 (signed32 w)
  signed_fits w h = ground arith

  not_overflow : ¬ ((signed32 dividend ≡ negsuc (2 ^ 31 - 1)) × (signed32 divisor ≡ negsuc 0))
  not_overflow = ground arith

  regular_if :
      (z : ℤ) (u v : ℕ)
      → (if divisor == 0
          then u
          else if dividend == most_negative && divisor == minus_one
          then v
          else wrap32 z)
        ≡ wrap32 z
  regular_if z u v = ground arith

  quotient-signed32 :
      signed32 (quotient dividend divisor) ≡ div_ℤ (signed32 dividend) (signed32 divisor)
  unfolding quotient
  quotient-signed32 =
      let z = div_ℤ (signed32 dividend) (signed32 divisor) in
      ap signed32 (regular_if z minus_one dividend)
      ∙ signed32-wrap32 z (div_fits _ _ signed_nonzero (signed_fits dividend a) not_overflow)

  remainder-signed32 :
      signed32 (remainder dividend divisor) ≡ rem_ℤ (signed32 dividend) (signed32 divisor)
  unfolding remainder
  remainder-signed32 =
      let z = rem_ℤ (signed32 dividend) (signed32 divisor) in
      ap signed32 (regular_if z dividend 0)
      ∙ signed32-wrap32 z (rem_fits _ _ signed_nonzero (signed_fits dividend a))

abs-neg : (n : ℕ) → abs (neg n) ≡ n
abs-neg zero = refl
abs-neg (suc n) = ap abs (neg-suc n)

rem_small : (x y : ℤ) → ¬ IsZero y → abs (rem_ℤ x y) < abs y
unfolding rem_ℤ
rem_small (pos a) y h = mod-lt a (omega arith)
rem_small (negsuc a) y h = rw (abs-neg (suc a % abs y)) (mod-lt (suc a) (omega arith))

-- Signed DIV and REM together, on operands of 32 bits with a divisor other than 0 and no overflow:
-- read as integers, quotient times divisor plus remainder is the dividend, and the remainder is
-- smaller than the divisor in absolute value.
pub quotient-remainder :
    (dividend divisor : ℕ)
    → dividend < 2 ^ 32
    → divisor < 2 ^ 32
    → divisor ≢ 0
    → ¬ ((dividend ≡ most_negative) × (divisor ≡ minus_one))
    → (signed32 (quotient dividend divisor) *ℤ signed32 divisor
          +ℤ signed32 (remainder dividend divisor)
        ≡ signed32 dividend)
      × (abs (signed32 (remainder dividend divisor)) < abs (signed32 divisor))
quotient-remainder dividend divisor a b n r =
    let nonzero = signed_nonzero dividend divisor a b n r in
    rw (quotient-signed32 dividend divisor a b n r, remainder-signed32 dividend divisor a b n r)
      (
        divided (signed32 dividend) (signed32 divisor) nonzero,
        rem_small (signed32 dividend) (signed32 divisor) nonzero,
      )
