-- ===== src/Cpu/Stable.antt =====
-- A property of a core that no kind of write breaks is kept by every method: the writes are those
-- of crates/riscv-cpu/src/cpu.rs and instructions.rs to the fields of `Cpu`.
pub mod Traps
pub mod Operations
pub mod Entries
pub mod Cycle
use yove.Base.{ℕ, Bool, ◌≢◌, bit_and}
use yove.Base.Exec.Keeps.{Keeps}
use yove.Trap.{PrivilegeMode}
use yove.Cpu.{Cpu}
use yove.Cpu.Address.{csr_satp_address}
use yove.Cpu.Csr.{write_csr_raw, write_csr}
use yove.Cpu.TrapEntry.{set_privilege_mode}
use yove.Cpu.Uncompress.{uncompress}

-- Every write but that of a general register.
pub record IsStable {M : Type 0} (P : Cpu M → Type 0) : Type 0 where
  pub on_pc : (v : ℕ) (c : Cpu M) → P c → P (record c { pc = v })
  pub on_wfi : (b : Bool) (c : Cpu M) → P c → P (record c { wfi = b })
  pub on_clock : (v : ℕ) (c : Cpu M) → P c → P (record c { clock = v })
  pub on_memory :
      (memory : M) (c : Cpu M) → P c → P (record c { mmu = record c.mmu { memory = memory } })
  pub on_mode : (mode : PrivilegeMode) (c : Cpu M) → P c → P (set_privilege_mode mode c)
  pub on_csr_raw : (a v : ℕ) → a ≢ csr_satp_address → (c : Cpu M) → P c → P (write_csr_raw a v c)
  pub on_csr : (a v : ℕ) → Keeps P (write_csr a v)
  pub on_uncompress : (word : ℕ) → Keeps P (uncompress (bit_and word 0xffff))
