-- ===== src/Cpu/Ops/Branch.antt =====
-- crates/riscv-cpu/src/cpu/instructions.rs: the branches and jumps.
use yove.Base.{not, ◌==◌, ltb, leb, wrapping_add}
use yove.Base.Int.{ltb_ℤ, signed32}
use yove.Base.Exec.{gets, modify, ◌>>=◌, ◌>>◌}
use yove.Cpu.{set_x}
use yove.Cpu.Ops.{Operation, unsigned_data, branch}
use yove.Cpu.Format.{parse_format_i, parse_format_j}

module _ {M : Type 0} where
  unfoldable pub bltu : Operation M
  bltu word address = branch ltb word address

  unfoldable pub beq : Operation M
  beq word address = branch ◌==◌ word address

  unfoldable pub bne : Operation M
  bne word address = branch (λ a b. not (a == b)) word address

  unfoldable pub bgeu : Operation M
  bgeu word address = branch (λ a b. leb (unsigned_data b) (unsigned_data a)) word address

  unfoldable pub bge : Operation M
  bge word address = branch (λ a b. not (ltb_ℤ (signed32 a) (signed32 b))) word address

  unfoldable pub blt : Operation M
  blt word address = branch (λ a b. ltb_ℤ (signed32 a) (signed32 b)) word address

  unfoldable pub jalr : Operation M
  jalr word address = do
    let f = parse_format_i word
    tmp ← gets (λ c. c.pc)
    modify λ c. record c { pc = wrapping_add (c.x f.rs1) f.imm }
    modify (set_x f.rd tmp)

  unfoldable pub jal : Operation M
  jal word address = do
    let f = parse_format_j word
    modify λ c. set_x f.rd c.pc c
    modify λ c. record c { pc = wrapping_add address f.imm }
