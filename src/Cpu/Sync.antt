-- ===== src/Cpu/Sync.antt =====
-- What the MMU copies from the registers of its core (crates/riscv-cpu/src/cpu.rs, mmu.rs): the
-- mode, MSTATUS, and the addressing mode and page number of SATP. Every method keeps them alike.
use yove.Base.{ℕ, ◌≡◌, ◌≢◌, refl, if◌then◌else◌, ◌==◌, bit_and, arith}
use yove.Base.Exec.{◌>>=◌}
use yove.Base.Exec.Keeps.{Keeps}
use yove.Trap.{get_privilege_encoding}
use yove.Mmu.{AddressingMode, sv32}
use yove.Cpu.{Cpu, init}
use yove.Cpu.Address.{csr_mstatus_address, csr_satp_address}
use yove.Cpu.Csr.{
  read_csr_raw, write_csr_raw, sync_mstatus, update_addressing_mode, write_csr,
  has_csr_access_privilege, illegal_access,
}

abbrev pub satp_mode : ℕ → AddressingMode
satp_mode satp = if bit_and satp 0x80000000 == 0 then AddressingMode.none else sv32

module _ {M : Type 0} where
  pub record InSync (c : Cpu M) : Type 0 where
    pub mode : c.mmu.privilege_mode ≡ c.privilege_mode
    pub mstatus : c.mmu.mstatus ≡ c.csr csr_mstatus_address
    pub addressing : c.mmu.addressing_mode ≡ satp_mode (c.csr csr_satp_address)
    pub ppn : c.mmu.ppn ≡ bit_and (c.csr csr_satp_address) 0x3fffff

  pub init-InSync : (memory : M) → InSync (init memory)
  init-InSync memory = record { mode = refl; mstatus = refl; addressing = refl; ppn = refl }

  pub write_csr_raw-InSync :
      (a v : ℕ) → a ≢ csr_satp_address → (c : Cpu M) → InSync c → InSync (write_csr_raw a v c)
  unfolding write_csr_raw sync_mstatus read_csr_raw
  write_csr_raw-InSync a v h c s = ground arith

  pub write_csr-InSync : (a v : ℕ) → Keeps InSync (write_csr {M = M} a v)
  unfolding write_csr has_csr_access_privilege illegal_access write_csr_raw sync_mstatus
      read_csr_raw update_addressing_mode get_privilege_encoding ◌>>=◌
  write_csr-InSync a v = record { at = λ c s. ground arith }
