-- ===== src/Cpu/Ops.antt =====
-- crates/riscv-cpu/src/cpu/instructions.rs: what the operations of the instruction table share. An
-- operation takes the instruction word and the address at which it stands.
pub mod Arith
pub mod Branch
pub mod Transfer
pub mod Atomic
pub mod Status
pub mod MulDiv
pub mod System
use yove.Base.{ℕ, Bool, if◌then◌else◌, wrapping_add, bit_and}
use yove.Base.Exec.{Exec, ok, err, panic, pure, gets, modify, ◌>>=◌, ◌>>◌}
use yove.Trap.{Trap}
use yove.Mmu.{Mmu}
use yove.Cpu.{Cpu, set_x}
use yove.Cpu.Format.{parse_format_b, parse_format_i, parse_format_r, parse_format_u}

-- `InstructionOperation`
abbrev pub Operation : Type 0 → Type 0
Operation M = ℕ → ℕ → Exec (Cpu M) Trap (Unit {0})

-- `unsigned_data`: the mask of the processor is `!0` and is never changed.
abbrev pub unsigned_data : ℕ → ℕ
unsigned_data value = bit_and value 0xffffffff

module _ {M : Type 0} where
  -- A method of the MMU, called on the core's own.
  unfoldable pub on_mmu : {A : Type 0} → Exec (Mmu M) Trap A → Exec (Cpu M) Trap A
  on_mmu m c = elim (m c.mmu) [
    | ok a t ↦ ok a (record c { mmu = t })
    | err e t ↦ err e (record c { mmu = t })
    | panic ↦ panic
  ]

  -- `cpu.x[f.rd] = op(cpu.x[f.rs1], f.imm)` of an I-format instruction
  unfoldable pub immediate : (ℕ → ℕ → ℕ) → ℕ → Exec (Cpu M) Trap (Unit {0})
  immediate op word = let f = parse_format_i word in modify λ c. set_x f.rd (op (c.x f.rs1) f.imm) c

  -- `cpu.x[f.rd] = op(cpu.x[f.rs1], cpu.x[f.rs2])` of an R-format instruction
  unfoldable pub register : (ℕ → ℕ → ℕ) → ℕ → Exec (Cpu M) Trap (Unit {0})
  register op word =
      let f = parse_format_r word in modify λ c. set_x f.rd (op (c.x f.rs1) (c.x f.rs2)) c

  -- `cpu.x[f.rd] = op(cpu.x[f.rs1], shamt)`, where the amount is the field of rs2
  unfoldable pub shift : (ℕ → ℕ → ℕ) → ℕ → Exec (Cpu M) Trap (Unit {0})
  shift op word = let f = parse_format_r word in modify λ c. set_x f.rd (op (c.x f.rs1) f.rs2) c

  -- `if test(cpu.x[f.rs1], cpu.x[f.rs2]) { cpu.pc = address.wrapping_add(f.imm) }`
  unfoldable pub branch : (ℕ → ℕ → Bool) → ℕ → ℕ → Exec (Cpu M) Trap (Unit {0})
  branch test word address =
      let f = parse_format_b word in
      modify λ c.
        if test (c.x f.rs1) (c.x f.rs2) then record c { pc = wrapping_add address f.imm } else c

  -- `FENCE`, `FENCE.I`, `SFENCE.VMA` and `EBREAK` do nothing.
  unfoldable pub nothing : Operation M
  nothing word address = pure tt
