-- ===== src/Cpu/Ops/Transfer.antt =====
-- crates/riscv-cpu/src/cpu/instructions.rs: the loads and stores.
use yove.Base.{ℕ, u8, u16, wrapping_add}
use yove.Base.Int.{sign_extend8, sign_extend16}
use yove.Base.Exec.{Exec, gets, modify, ◌>>=◌}
use yove.Cpu.{Cpu, set_x}
use yove.Cpu.Ops.{Operation, on_mmu}
use yove.Trap.{Trap}
use yove.Bus.{Memory}
use yove.Mmu.{Mmu}
use yove.Mmu.Access.{load, load_halfword, load_word, store, store_halfword, store_word}
use yove.Cpu.Format.{parse_format_i, parse_format_s}

module _ {M : Type 0} (bus : Memory M) where
  -- A load of an I-format instruction; `extend` widens what was read.
  unfoldable pub transfer : (ℕ → Exec (Mmu M) Trap ℕ) → (ℕ → ℕ) → ℕ → Exec (Cpu M) Trap (Unit {0})
  transfer read extend word = do
    let f = parse_format_i word
    address ← gets λ c. wrapping_add (c.x f.rs1) f.imm
    value ← on_mmu (read address)
    modify (set_x f.rd (extend value))

  -- A store of an S-format instruction.
  unfoldable pub put :
      (ℕ → ℕ → Exec (Mmu M) Trap (Unit {0})) → (ℕ → ℕ) → ℕ → Exec (Cpu M) Trap (Unit {0})
  put write cut word = do
    let f = parse_format_s word
    address ← gets λ c. wrapping_add (c.x f.rs1) f.imm
    value ← gets λ c. cut (c.x f.rs2)
    on_mmu (write address value)

  unfoldable pub lw : Operation M
  lw word address = transfer (load_word bus) (λ w. w) word

  unfoldable pub lbu : Operation M
  lbu word address = transfer (load bus) (λ w. w) word

  unfoldable pub lhu : Operation M
  lhu word address = transfer (load_halfword bus) (λ w. w) word

  unfoldable pub lh : Operation M
  lh word address = transfer (load_halfword bus) sign_extend16 word

  unfoldable pub lb : Operation M
  lb word address = transfer (load bus) sign_extend8 word

  unfoldable pub lwu : Operation M
  lwu word address = transfer (load_word bus) (λ w. w) word

  unfoldable pub sw : Operation M
  sw word address = put (store_word bus) (λ w. w) word

  unfoldable pub sb : Operation M
  sb word address = put (store bus) u8 word

  unfoldable pub sh : Operation M
  sh word address = put (store_halfword bus) u16 word
