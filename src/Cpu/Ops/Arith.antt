-- ===== src/Cpu/Ops/Arith.antt =====
-- crates/riscv-cpu/src/cpu/instructions.rs: the operations on registers, for words and for the names with a W.
use yove.Base.{
  ◌%◌, if◌then◌else◌, ltb, wrapping_add, wrapping_sub, bit_and, bit_or, bit_xor, ◌>>>◌, ◌<<<◌,
}
use yove.Base.Int.{ltb_ℤ, shr_ℤ, signed32, wrap32}
use yove.Base.Exec.{modify}
use yove.Cpu.{set_x}
use yove.Cpu.Ops.{Operation, unsigned_data, immediate, register, shift}
use yove.Cpu.Format.{parse_format_u}

module _ {M : Type 0} where
  unfoldable pub addi : Operation M
  addi word address = immediate wrapping_add word

  unfoldable pub add : Operation M
  add word address = register wrapping_add word

  unfoldable pub andi : Operation M
  andi word address = immediate bit_and word

  unfoldable pub or : Operation M
  or word address = register bit_or word

  unfoldable pub sub : Operation M
  sub word address = register wrapping_sub word

  unfoldable pub slli : Operation M
  slli word address = shift ◌<<<◌ word

  unfoldable pub lui : Operation M
  lui word address = let f = parse_format_u word in modify (set_x f.rd f.imm)

  unfoldable pub auipc : Operation M
  auipc word address =
      let f = parse_format_u word in modify (set_x f.rd (wrapping_add address f.imm))

  unfoldable pub xori : Operation M
  xori word address = immediate bit_xor word

  unfoldable pub srli : Operation M
  srli word address = shift (λ a shamt. unsigned_data a >>> shamt) word

  unfoldable pub sltu : Operation M
  sltu word address =
      register (λ a b. if ltb (unsigned_data a) (unsigned_data b) then 1 else 0) word

  -- The wrapping shifts take the amount modulo 32.
  unfoldable pub srl : Operation M
  srl word address = register (λ a b. unsigned_data a >>> (b % 32)) word

  unfoldable pub and : Operation M
  and word address = register bit_and word

  unfoldable pub srai : Operation M
  srai word address = shift (λ a shamt. wrap32 (shr_ℤ (signed32 a) shamt)) word

  unfoldable pub sll : Operation M
  sll word address = register (λ a b. a <<< (b % 32)) word

  unfoldable pub sltiu : Operation M
  sltiu word address =
      immediate (λ a imm. if ltb (unsigned_data a) (unsigned_data imm) then 1 else 0) word

  unfoldable pub slti : Operation M
  slti word address = immediate (λ a imm. if ltb_ℤ (signed32 a) (signed32 imm) then 1 else 0) word

  unfoldable pub xor : Operation M
  xor word address = register bit_xor word

  unfoldable pub ori : Operation M
  ori word address = immediate bit_or word

  unfoldable pub slt : Operation M
  slt word address = register (λ a b. if ltb_ℤ (signed32 a) (signed32 b) then 1 else 0) word

  unfoldable pub addiw : Operation M
  addiw word address = immediate wrapping_add word

  unfoldable pub addw : Operation M
  addw word address = register wrapping_add word

  unfoldable pub slliw : Operation M
  slliw word address = shift ◌<<<◌ word

  unfoldable pub sllw : Operation M
  sllw word address = register (λ a b. a <<< (b % 32)) word

  unfoldable pub sra : Operation M
  sra word address = register (λ a b. wrap32 (shr_ℤ (signed32 a) (b % 32))) word

  unfoldable pub sraiw : Operation M
  sraiw word address = shift (λ a shamt. wrap32 (shr_ℤ (signed32 a) shamt)) word

  unfoldable pub sraw : Operation M
  sraw word address = register (λ a b. wrap32 (shr_ℤ (signed32 a) (b % 32))) word

  unfoldable pub srliw : Operation M
  srliw word address = shift ◌>>>◌ word

  unfoldable pub srlw : Operation M
  srlw word address = register (λ a b. a >>> (b % 32)) word

  unfoldable pub subw : Operation M
  subw word address = register wrapping_sub word
