-- ===== src/Cpu/Ops/Atomic.antt =====
-- crates/riscv-cpu/src/cpu/instructions.rs: the atomic operations, LR.W and SC.W.
use yove.Base.{ℕ, not, if◌then◌else◌, leb, wrapping_add, bit_and, bit_or, bit_xor}
use yove.Base.Int.{ltb_ℤ, signed32}
use yove.Base.Exec.{Exec, gets, modify, ◌>>=◌, ◌>>◌}
use yove.Cpu.{Cpu, set_x}
use yove.Cpu.Ops.{Operation, on_mmu}
use yove.Trap.{Trap}
use yove.Bus.{Memory}
use yove.Mmu.{reserve, clear_reservation}
use yove.Mmu.Access.{load_word, store_word}
use yove.Cpu.Address.{csr_mhartid_address}
use yove.Cpu.Csr.{read_csr_raw}
use yove.Cpu.Format.{parse_format_r}

module _ {M : Type 0} (bus : Memory M) where
  -- Load a word, store `op(x[rs2], word)` in its place, and leave the old word in rd.
  unfoldable pub read_modify_write : (ℕ → ℕ → ℕ) → ℕ → Exec (Cpu M) Trap (Unit {0})
  read_modify_write op word = do
    let f = parse_format_r word
    address ← gets λ c. c.x f.rs1
    tmp ← on_mmu (load_word bus address)
    value ← gets λ c. op (c.x f.rs2) tmp
    on_mmu (store_word bus address value)
    modify (set_x f.rd tmp)

  unfoldable pub amoswap_w : Operation M
  amoswap_w word address = read_modify_write (λ a tmp. a) word

  unfoldable pub amoadd_w : Operation M
  amoadd_w word address = read_modify_write wrapping_add word

  unfoldable pub amoxor_w : Operation M
  amoxor_w word address = read_modify_write bit_xor word

  unfoldable pub amoand_w : Operation M
  amoand_w word address = read_modify_write bit_and word

  unfoldable pub amominu_w : Operation M
  amominu_w word address = read_modify_write (λ a tmp. if leb a tmp then a else tmp) word

  unfoldable pub amomin_w : Operation M
  amomin_w word address =
      read_modify_write (λ a tmp. if not (ltb_ℤ (signed32 tmp) (signed32 a)) then a else tmp) word

  unfoldable pub amomaxu_w : Operation M
  amomaxu_w word address = read_modify_write (λ a tmp. if leb tmp a then a else tmp) word

  unfoldable pub amomax_w : Operation M
  amomax_w word address =
      read_modify_write (λ a tmp. if not (ltb_ℤ (signed32 a) (signed32 tmp)) then a else tmp) word

  unfoldable pub amoor_w : Operation M
  amoor_w word address = read_modify_write bit_or word

  unfoldable pub lr_w : Operation M
  lr_w word _ = do
    let f = parse_format_r word
    address ← gets λ c. c.x f.rs1
    core ← gets λ c. read_csr_raw c csr_mhartid_address
    value ← on_mmu (load_word bus address)
    modify (set_x f.rd value)
    on_mmu (modify (reserve bus core address))

  unfoldable pub sc_w : Operation M
  sc_w word _ = do
    let f = parse_format_r word
    address ← gets λ c. c.x f.rs1
    core ← gets λ c. read_csr_raw c csr_mhartid_address
    held ← on_mmu (clear_reservation bus core address)
    if held
        then (do
          value ← gets λ c. c.x f.rs2
          on_mmu (store_word bus address value)
          modify (set_x f.rd 0))
        else modify (set_x f.rd 1)
