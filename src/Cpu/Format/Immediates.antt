-- ===== src/Cpu/Format/Immediates.antt =====
-- The immediates of the instruction formats as numbers (crates/riscv-cpu/src/cpu/instructions.rs,
-- the functions parse_format_*).
use yove.Base.{
  bit_and_shifted, ℕ, ◌+◌, ◌-◌, ◌*◌, ◌/◌, ◌%◌, ◌^◌, ◌<◌, ◌≡◌, ap₂, ◌∙◌, bit_and, bit_or,
  bit_and_mask, bit_or_fields, ltb, if◌then◌else◌, ◌>>>◌, ◌<<<◌, arith,
}
use yove.Cpu.Format.{parse_format_b, parse_format_i, parse_format_j, parse_format_s, sign_fill}

-- The 32-bit pattern of a number of `n` bits in two's complement.
abbrev pub sign_extended : ℕ → ℕ → ℕ
sign_extended n v = if ltb v (2 ^ (n - 1)) then v else v + (2 ^ 32 - 2 ^ n)

-- Two fields, the upper one at bit k, make the number that they write side by side.
joined : (k q r a b : ℕ) → a ≡ q * 2 ^ k → b ≡ r → r < 2 ^ k → bit_or a b ≡ q * 2 ^ k + r
joined k q r a b e f h = ap₂ bit_or e f ∙ bit_or_fields k q r h

module _ (w : ℕ) (h : w < 2 ^ 32) where
  sign_bit : bit_and w 0x80000000 ≡ w / 2 ^ 31 * 2 ^ 31
  sign_bit = omega (arith, bit_and_shifted 31 1 w, bit_and_mask 1 (w / 2 ^ 31))

  filled : (n : ℕ) → sign_fill w n ≡ w / 2 ^ 31 * n
  filled n = ground (arith, sign_bit)

  imm_i : (parse_format_i w).imm ≡ sign_extended 12 (w / 2 ^ 20)
  unfolding parse_format_i
  imm_i =
      joined 11 (w / 2 ^ 31 * 0x1fffff) (w / 2 ^ 20 % 2 ^ 11) _ _ (ground (arith, sign_bit))
        (bit_and_mask 11 (w >>> 20)) (omega arith)
      ∙ ground arith

  imm_s : (parse_format_s w).imm ≡ sign_extended 12 (w / 2 ^ 25 * 2 ^ 5 + w / 2 ^ 7 % 2 ^ 5)
  unfolding parse_format_s
  imm_s =
      joined 5 (w / 2 ^ 31 * 0x7ffff80 + w / 2 ^ 25 % 2 ^ 7) (w / 2 ^ 7 % 2 ^ 5) _ _
        (joined 12 (w / 2 ^ 31 * 0xfffff) (w / 2 ^ 25 % 2 ^ 7 * 2 ^ 5) _ _
            (omega (arith, filled 0xfffff000))
            (omega (arith, bit_and_shifted 5 0x7f (w >>> 20), bit_and_mask 7 ((w >>> 20) / 2 ^ 5)))
            (omega arith)
          ∙ omega arith)
        (bit_and_mask 5 (w >>> 7)) (omega arith)
      ∙ ground arith

  imm_b :
      (parse_format_b w).imm
      ≡ sign_extended 13 (
          w / 2 ^ 31 * 2 ^ 12
          + w / 2 ^ 7 % 2 * 2 ^ 11
          + w / 2 ^ 25 % 2 ^ 6 * 2 ^ 5
          + w / 2 ^ 8 % 2 ^ 4 * 2)
  unfolding parse_format_b
  imm_b =
      joined 5 (w / 2 ^ 31 * 0x7ffff80 + w / 2 ^ 7 % 2 * 2 ^ 6 + w / 2 ^ 25 % 2 ^ 6)
        (w / 2 ^ 8 % 2 ^ 4 * 2) _ _
        (joined 11 (w / 2 ^ 31 * 0x1ffffe + w / 2 ^ 7 % 2) (w / 2 ^ 25 % 2 ^ 6 * 2 ^ 5) _ _
            (joined 12 (w / 2 ^ 31 * 0xfffff) (w / 2 ^ 7 % 2 * 2 ^ 11) _ _
                (omega (arith, filled 0xfffff000))
                (omega (arith, bit_and_shifted 11 1 (w <<< 4), bit_and_mask 1 ((w <<< 4) / 2 ^ 11)))
                (omega arith)
              ∙ omega arith)
            (omega (arith, bit_and_shifted 5 0x3f (w >>> 20), bit_and_mask 6 ((w >>> 20) / 2 ^ 5)))
            (omega arith)
          ∙ omega arith)
        (omega (arith, bit_and_shifted 1 0xf (w >>> 7), bit_and_mask 4 ((w >>> 7) / 2 ^ 1)))
        (omega arith)
      ∙ ground arith

  imm_j :
      (parse_format_j w).imm
      ≡ sign_extended 21 (
          w / 2 ^ 31 * 2 ^ 20
          + w / 2 ^ 12 % 2 ^ 8 * 2 ^ 12
          + w / 2 ^ 20 % 2 * 2 ^ 11
          + w / 2 ^ 21 % 2 ^ 10 * 2)
  unfolding parse_format_j
  imm_j =
      joined 11 (w / 2 ^ 31 * 0x1ffe00 + w / 2 ^ 12 % 2 ^ 8 * 2 + w / 2 ^ 20 % 2)
        (w / 2 ^ 21 % 2 ^ 10 * 2) _ _
        (joined 12 (w / 2 ^ 31 * 0xfff00 + w / 2 ^ 12 % 2 ^ 8) (w / 2 ^ 20 % 2 * 2 ^ 11) _ _
            (joined 20 (w / 2 ^ 31 * 0xfff) (w / 2 ^ 12 % 2 ^ 8 * 2 ^ 12) _ _
                (omega (arith, filled 0xfff00000))
                (omega (arith, bit_and_shifted 12 0xff w, bit_and_mask 8 (w / 2 ^ 12)))
                (omega arith)
              ∙ omega arith)
            (omega (arith, bit_and_shifted 20 1 w, bit_and_mask 1 (w / 2 ^ 20))) (omega arith)
          ∙ omega arith)
        (omega (arith, bit_and_shifted 21 0x3ff w, bit_and_mask 10 (w / 2 ^ 21))) (omega arith)
      ∙ ground arith

-- The immediates of the formats I, S, B and J, for every word of 32 bits: the fields of the word,
-- in the order that the instruction set gives them, are a number in two's complement of 12, 12,
-- 13 and 21 bits that is extended to 32 bits by its sign.
pub parse_format-sign_extended :
    (w : ℕ)
    → w < 2 ^ 32
    → ((parse_format_i w).imm ≡ sign_extended 12 (w / 2 ^ 20))
      × ((parse_format_s w).imm ≡ sign_extended 12 (w / 2 ^ 25 * 2 ^ 5 + w / 2 ^ 7 % 2 ^ 5))
      × ((parse_format_b w).imm
          ≡ sign_extended 13 (
              w / 2 ^ 31 * 2 ^ 12
              + w / 2 ^ 7 % 2 * 2 ^ 11
              + w / 2 ^ 25 % 2 ^ 6 * 2 ^ 5
              + w / 2 ^ 8 % 2 ^ 4 * 2))
      × ((parse_format_j w).imm
          ≡ sign_extended 21 (
              w / 2 ^ 31 * 2 ^ 20
              + w / 2 ^ 12 % 2 ^ 8 * 2 ^ 12
              + w / 2 ^ 20 % 2 * 2 ^ 11
              + w / 2 ^ 21 % 2 ^ 10 * 2))
parse_format-sign_extended w h = (imm_i w h, imm_s w h, imm_b w h, imm_j w h)
