-- ===== src/Cpu/Ops/Status.antt =====
-- crates/riscv-cpu/src/cpu/instructions.rs: the instructions on control and status registers.
use yove.Base.{ℕ, complement, bit_and, bit_or}
use yove.Base.Exec.{Exec, gets, modify, ◌>>=◌, ◌>>◌}
use yove.Cpu.{Cpu, set_x}
use yove.Cpu.Ops.{Operation, unsigned_data}
use yove.Trap.{Trap}
use yove.Cpu.Csr.{read_csr, write_csr}
use yove.Cpu.Format.{FormatCsr, parse_format_csr}

module _ {M : Type 0} where
  -- Read the register into rd, then write what `op` makes of rd and of the operand read before.
  unfoldable pub exchange : (ℕ → ℕ → ℕ) → (FormatCsr → Cpu M → ℕ) → ℕ → Exec (Cpu M) Trap (Unit {0})
  exchange op operand word = do
    let f = parse_format_csr word
    value ← read_csr f.csr
    tmp ← gets (operand f)
    modify (set_x f.rd value)
    written ← gets λ c. op (c.x f.rd) tmp
    write_csr f.csr written

  unfoldable pub csrrc : Operation M
  csrrc word address = exchange (λ a tmp. bit_and a (complement tmp)) (λ f c. c.x f.rs) word

  unfoldable pub csrrci : Operation M
  csrrci word address = exchange (λ a tmp. bit_and a (complement tmp)) (λ f c. f.rs) word

  unfoldable pub csrrs : Operation M
  csrrs word address = exchange (λ a tmp. unsigned_data (bit_or a tmp)) (λ f c. c.x f.rs) word

  unfoldable pub csrrsi : Operation M
  csrrsi word address = exchange (λ a tmp. unsigned_data (bit_or a tmp)) (λ f c. f.rs) word

  unfoldable pub csrrw : Operation M
  csrrw word address = exchange (λ a tmp. unsigned_data tmp) (λ f c. c.x f.rs) word

  unfoldable pub csrrwi : Operation M
  csrrwi word address = exchange (λ a tmp. tmp) (λ f c. f.rs) word
