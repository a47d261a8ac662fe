-- ===== src/Cpu/Ops/MulDiv.antt =====
-- crates/riscv-cpu/src/cpu/instructions.rs: multiplication, division and remainder. The products fit an `i64`.
pub mod Identity
use yove.Base.{
  ℕ, ◌+◌, ◌-◌, ◌*◌, ◌/◌, ◌%◌, ◌^◌, Bool, true, false, not, if◌then◌else◌, ◌==◌, ltb, leb, u8, u16,
  u32, wrapping_add, wrapping_sub, wrapping_mul, complement, bit_and, bit_or, bit_xor, ◌>>>◌, ◌<<<◌,
}
use yove.Base.Int.{
  ℤ, pos, negsuc, ltb_ℤ, ◌*ℤ◌, div_ℤ, rem_ℤ, shr_ℤ, signed32, wrap32, sign_extend8, sign_extend16,
}
use yove.Base.Exec.{Exec, ok, err, panic, pure, raise, abort, gets, modify, unwrap, ◌>>=◌, ◌>>◌}
use yove.Cpu.{Cpu, set_x}
use yove.Cpu.Ops.{Operation, unsigned_data, on_mmu, immediate, register, shift, branch}
use mathlib.Core.Bool.{◌&&◌}

-- `-1`, and `i32::MIN`, as patterns
abbrev pub minus_one : ℕ
minus_one = 0xffffffff

abbrev pub most_negative : ℕ
most_negative = 0x80000000

unfoldable pub quotient : ℕ → ℕ → ℕ
quotient dividend divisor =
    if divisor == 0
    then minus_one
    else if dividend == most_negative && divisor == minus_one
    then dividend
    else wrap32 (div_ℤ (signed32 dividend) (signed32 divisor))

unfoldable pub quotient_unsigned : ℕ → ℕ → ℕ
quotient_unsigned dividend divisor = if divisor == 0 then minus_one else dividend / divisor

unfoldable pub remainder : ℕ → ℕ → ℕ
remainder dividend divisor =
    if divisor == 0
    then dividend
    else if dividend == most_negative && divisor == minus_one
    then 0
    else wrap32 (rem_ℤ (signed32 dividend) (signed32 divisor))

unfoldable pub remainder_unsigned : ℕ → ℕ → ℕ
remainder_unsigned dividend divisor = if divisor == 0 then dividend else dividend % divisor

module _ {M : Type 0} where
  unfoldable pub mul : Operation M
  mul word address = register wrapping_mul word

  unfoldable pub mulhu : Operation M
  mulhu word address = register (λ a b. a * b / 2 ^ 32) word

  unfoldable pub div : Operation M
  div word address = register quotient word

  unfoldable pub divu : Operation M
  divu word address = register (λ a b. quotient_unsigned (unsigned_data a) (unsigned_data b)) word

  unfoldable pub divuw : Operation M
  divuw word address = register (λ a b. quotient_unsigned (unsigned_data a) (unsigned_data b)) word

  unfoldable pub divw : Operation M
  divw word address = register quotient word

  unfoldable pub mulh : Operation M
  mulh word address = register (λ a b. wrap32 (shr_ℤ (signed32 a *ℤ signed32 b) 32)) word

  unfoldable pub mulhsu : Operation M
  mulhsu word address = register (λ a b. wrap32 (shr_ℤ (signed32 a *ℤ pos b) 32)) word

  unfoldable pub mulw : Operation M
  mulw word address = register wrapping_mul word

  unfoldable pub rem : Operation M
  rem word address = register remainder word

  unfoldable pub remu : Operation M
  remu word address = register (λ a b. remainder_unsigned (unsigned_data a) (unsigned_data b)) word

  unfoldable pub remuw : Operation M
  remuw word address = register remainder_unsigned word

  unfoldable pub remw : Operation M
  remw word address = register remainder word
