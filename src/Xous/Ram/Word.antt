-- ===== src/Xous/Ram/Word.antt =====
-- Bytes of words: what a write of one byte leaves in each byte (src/xous.rs, write_u8).
use yove.Base.{
  ℕ, zero, suc, ◌*◌, ◌/◌, ◌%◌, ◌^◌, ◌<◌, ◌≡◌, refl, ap, ap₂, ◌∙◌, bit_and, bit_or, bit_and_mask,
  bit_and_shifted, bit_and-bit_or, bit_and_assoc, bit_and-zero, bit_or-zero, zero-bit_or,
  complement, ◌==◌, if◌then◌else◌, ◌<<<◌, arith,
}
use yove.Xous.Ram.{replaced}

-- Byte k of a word.
abbrev pub byte : ℕ → ℕ → ℕ
byte k x = x / 2 ^ (k * 8) % 2 ^ 8

byte_at : (k x : ℕ) → bit_and x (0xff * 2 ^ (k * 8)) ≡ byte k x * 2 ^ (k * 8)
byte_at k x =
    bit_and_shifted (k * 8) 0xff x
    ∙ ap (λ (t : ℕ). t * 2 ^ (k * 8)) (bit_and_mask 8 (x / 2 ^ (k * 8)))

here : (n m old w : ℕ) → bit_and n m ≡ 0 → bit_and (bit_or (bit_and old n) w) m ≡ bit_and w m
here n m old w e =
    bit_and-bit_or (bit_and old n) w m
    ∙ ap (λ t. bit_or t (bit_and w m))
        (bit_and_assoc old n m ∙ ap (bit_and old) e ∙ bit_and-zero old)
    ∙ zero-bit_or (bit_and w m)

there :
    (n m old w : ℕ)
    → bit_and n m ≡ m
    → bit_and w m ≡ 0
    → bit_and (bit_or (bit_and old n) w) m ≡ bit_and old m
there n m old w e f =
    bit_and-bit_or (bit_and old n) w m
    ∙ ap₂ bit_or (bit_and_assoc old n m ∙ ap (bit_and old) e) f
    ∙ bit_or-zero (bit_and old m)

-- A write of byte k changes byte k and no other.
pub byte-replaced :
    (k j old v : ℕ)
    → k < 4
    → j < 4
    → v < 2 ^ 8
    → byte j (replaced 0xff (k * 8) old v) ≡ (if j == k then v else byte j old)
byte-replaced zero zero old v h i b = omega (
  arith,
  byte_at 0 (replaced 0xff 0 old v),
  byte_at 0 (v <<< 0),
  here (complement (0xff <<< 0)) (0xff * 2 ^ 0) old (v <<< 0) refl,
)
byte-replaced zero (suc zero) old v h i b =
    let f : bit_and (v <<< 0) (0xff * 2 ^ 8) ≡ 0 = omega (arith, byte_at 1 (v <<< 0)) in
    omega (
      arith,
      byte_at 1 (replaced 0xff 0 old v),
      byte_at 1 old,
      there (complement (0xff <<< 0)) (0xff * 2 ^ 8) old (v <<< 0) refl f,
    )
byte-replaced zero (suc (suc zero)) old v h i b =
    let f : bit_and (v <<< 0) (0xff * 2 ^ 16) ≡ 0 = omega (arith, byte_at 2 (v <<< 0)) in
    omega (
      arith,
      byte_at 2 (replaced 0xff 0 old v),
      byte_at 2 old,
      there (complement (0xff <<< 0)) (0xff * 2 ^ 16) old (v <<< 0) refl f,
    )
byte-replaced zero (suc (suc (suc zero))) old v h i b =
    let f : bit_and (v <<< 0) (0xff * 2 ^ 24) ≡ 0 = omega (arith, byte_at 3 (v <<< 0)) in
    omega (
      arith,
      byte_at 3 (replaced 0xff 0 old v),
      byte_at 3 old,
      there (complement (0xff <<< 0)) (0xff * 2 ^ 24) old (v <<< 0) refl f,
    )
byte-replaced zero (suc (suc (suc (suc j)))) old v h i b = absurd (omega arith)
byte-replaced (suc zero) zero old v h i b =
    let f : bit_and (v <<< 8) (0xff * 2 ^ 0) ≡ 0 = omega (arith, byte_at 0 (v <<< 8)) in
    omega (
      arith,
      byte_at 0 (replaced 0xff 8 old v),
      byte_at 0 old,
      there (complement (0xff <<< 8)) (0xff * 2 ^ 0) old (v <<< 8) refl f,
    )
byte-replaced (suc zero) (suc zero) old v h i b = omega (
  arith,
  byte_at 1 (replaced 0xff 8 old v),
  byte_at 1 (v <<< 8),
  here (complement (0xff <<< 8)) (0xff * 2 ^ 8) old (v <<< 8) refl,
)
byte-replaced (suc zero) (suc (suc zero)) old v h i b =
    let f : bit_and (v <<< 8) (0xff * 2 ^ 16) ≡ 0 = omega (arith, byte_at 2 (v <<< 8)) in
    omega (
      arith,
      byte_at 2 (replaced 0xff 8 old v),
      byte_at 2 old,
      there (complement (0xff <<< 8)) (0xff * 2 ^ 16) old (v <<< 8) refl f,
    )
byte-replaced (suc zero) (suc (suc (suc zero))) old v h i b =
    let f : bit_and (v <<< 8) (0xff * 2 ^ 24) ≡ 0 = omega (arith, byte_at 3 (v <<< 8)) in
    omega (
      arith,
      byte_at 3 (replaced 0xff 8 old v),
      byte_at 3 old,
      there (complement (0xff <<< 8)) (0xff * 2 ^ 24) old (v <<< 8) refl f,
    )
byte-replaced (suc zero) (suc (suc (suc (suc j)))) old v h i b = absurd (omega arith)
byte-replaced (suc (suc zero)) zero old v h i b =
    let f : bit_and (v <<< 16) (0xff * 2 ^ 0) ≡ 0 = omega (arith, byte_at 0 (v <<< 16)) in
    omega (
      arith,
      byte_at 0 (replaced 0xff 16 old v),
      byte_at 0 old,
      there (complement (0xff <<< 16)) (0xff * 2 ^ 0) old (v <<< 16) refl f,
    )
byte-replaced (suc (suc zero)) (suc zero) old v h i b =
    let f : bit_and (v <<< 16) (0xff * 2 ^ 8) ≡ 0 = omega (arith, byte_at 1 (v <<< 16)) in
    omega (
      arith,
      byte_at 1 (replaced 0xff 16 old v),
      byte_at 1 old,
      there (complement (0xff <<< 16)) (0xff * 2 ^ 8) old (v <<< 16) refl f,
    )
byte-replaced (suc (suc zero)) (suc (suc zero)) old v h i b = omega (
  arith,
  byte_at 2 (replaced 0xff 16 old v),
  byte_at 2 (v <<< 16),
  here (complement (0xff <<< 16)) (0xff * 2 ^ 16) old (v <<< 16) refl,
)
byte-replaced (suc (suc zero)) (suc (suc (suc zero))) old v h i b =
    let f : bit_and (v <<< 16) (0xff * 2 ^ 24) ≡ 0 = omega (arith, byte_at 3 (v <<< 16)) in
    omega (
      arith,
      byte_at 3 (replaced 0xff 16 old v),
      byte_at 3 old,
      there (complement (0xff <<< 16)) (0xff * 2 ^ 24) old (v <<< 16) refl f,
    )
byte-replaced (suc (suc zero)) (suc (suc (suc (suc j)))) old v h i b = absurd (omega arith)
byte-replaced (suc (suc (suc zero))) zero old v h i b =
    let f : bit_and (v <<< 24) (0xff * 2 ^ 0) ≡ 0 = omega (arith, byte_at 0 (v <<< 24)) in
    omega (
      arith,
      byte_at 0 (replaced 0xff 24 old v),
      byte_at 0 old,
      there (complement (0xff <<< 24)) (0xff * 2 ^ 0) old (v <<< 24) refl f,
    )
byte-replaced (suc (suc (suc zero))) (suc zero) old v h i b =
    let f : bit_and (v <<< 24) (0xff * 2 ^ 8) ≡ 0 = omega (arith, byte_at 1 (v <<< 24)) in
    omega (
      arith,
      byte_at 1 (replaced 0xff 24 old v),
      byte_at 1 old,
      there (complement (0xff <<< 24)) (0xff * 2 ^ 8) old (v <<< 24) refl f,
    )
byte-replaced (suc (suc (suc zero))) (suc (suc zero)) old v h i b =
    let f : bit_and (v <<< 24) (0xff * 2 ^ 16) ≡ 0 = omega (arith, byte_at 2 (v <<< 24)) in
    omega (
      arith,
      byte_at 2 (replaced 0xff 24 old v),
      byte_at 2 old,
      there (complement (0xff <<< 24)) (0xff * 2 ^ 16) old (v <<< 24) refl f,
    )
byte-replaced (suc (suc (suc zero))) (suc (suc (suc zero))) old v h i b = omega (
  arith,
  byte_at 3 (replaced 0xff 24 old v),
  byte_at 3 (v <<< 24),
  here (complement (0xff <<< 24)) (0xff * 2 ^ 24) old (v <<< 24) refl,
)
byte-replaced (suc (suc (suc zero))) (suc (suc (suc (suc j)))) old v h i b = absurd (omega arith)
byte-replaced (suc (suc (suc (suc k)))) j old v h i b = absurd (omega arith)
