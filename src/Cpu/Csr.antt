-- ===== src/Cpu/Csr.antt =====
-- crates/riscv-cpu/src/cpu.rs: the control and status registers. SSTATUS, SIE and SIP are windows
-- on MSTATUS, MIE and MIP, and FFLAGS and FRM on FCSR.
use yove.Base.{
  ℕ, ◌+◌, ◌-◌, ◌*◌, ◌/◌, ◌^◌, ◌%◌, Bool, Option, some, none, if◌then◌else◌, ◌==◌, leb, ◌||◌, update,
  bit_and, bit_or, complement, wrapping_sub, ◌>>>◌, ◌<<<◌,
}
use yove.Base.Exec.{Exec, ok, err, panic, pure, raise, gets, modify, unwrap, ◌>>=◌, ◌>>◌}
pub mod Windows
use yove.Trap.{Trap, illegal_instruction, get_privilege_encoding}
use yove.Mmu
use yove.Mmu.{AddressingMode, sv32, update_mstatus, update_addressing_mode as set_mode, update_ppn}
use yove.Cpu.{Cpu}
use yove.Cpu.Address.{
  csr_fflags_address, csr_frm_address, csr_fcsr_address, csr_sstatus_address, csr_sie_address,
  csr_sip_address, csr_satp_address, csr_mstatus_address, csr_mideleg_address, csr_mie_address,
  csr_mip_address,
}

-- `csr[to] &= !mask; csr[to] |= value & mask`
abbrev pub masked_write : ℕ → ℕ → ℕ → ℕ
masked_write mask old value = bit_or (bit_and old (complement mask)) (bit_and value mask)

module _ {M : Type 0} where
  -- The lowest privilege that may access the register is in bits 8 and 9 of its address.
  unfoldable pub has_csr_access_privilege : ℕ → Exec (Cpu M) Trap Bool
  has_csr_access_privilege address = do
    mode ← gets (λ c. c.privilege_mode)
    encoding ← unwrap (get_privilege_encoding mode)
    pure (leb (bit_and (address >>> 8) 0x3) encoding)

  unfoldable pub read_csr_raw : Cpu M → ℕ → ℕ
  read_csr_raw c address =
      if address == csr_fflags_address
      then bit_and (c.csr csr_fcsr_address) 0x1f
      else if address == csr_frm_address
      then bit_and (c.csr csr_fcsr_address >>> 5) 0x7
      else if address == csr_sstatus_address
      then bit_and (c.csr csr_mstatus_address) 0x800de162
      else if address == csr_sie_address
      then bit_and (c.csr csr_mie_address) 0x222
      else if address == csr_sip_address
      then bit_and (c.csr csr_mip_address) 0x222
      else c.csr address

  abbrev set_csr : ℕ → ℕ → Cpu M → Cpu M
  set_csr address value c = record c { csr = update c.csr address value }

  -- `self.mmu.update_mstatus(self.read_csr_raw(CSR_MSTATUS_ADDRESS))`
  unfoldable pub sync_mstatus : Cpu M → Cpu M
  sync_mstatus c = record c { mmu = update_mstatus (read_csr_raw c csr_mstatus_address) c.mmu }

  unfoldable pub write_csr_raw : ℕ → ℕ → Cpu M → Cpu M
  write_csr_raw address value c =
      if address == csr_fflags_address
      then set_csr csr_fcsr_address (masked_write 0x1f (c.csr csr_fcsr_address) value) c
      else if address == csr_frm_address
      then set_csr csr_fcsr_address
          (bit_or (bit_and (c.csr csr_fcsr_address) (complement 0xe0)) (bit_and (value <<< 5) 0xe0))
          c
      else if address == csr_sstatus_address
      then sync_mstatus (
          set_csr csr_mstatus_address (masked_write 0x800de162 (c.csr csr_mstatus_address) value) c)
      else if address == csr_sie_address
      then set_csr csr_mie_address (masked_write 0x222 (c.csr csr_mie_address) value) c
      else if address == csr_sip_address
      then set_csr csr_mip_address (masked_write 0x222 (c.csr csr_mip_address) value) c
      else if address == csr_mideleg_address
      then set_csr address (bit_and value 0x666) c
      else if address == csr_mstatus_address
      then sync_mstatus (set_csr address value c)
      else set_csr address value c

  -- The error of an access without the privilege.
  unfoldable pub illegal_access : {A : Type 0} → Exec (Cpu M) Trap A
  illegal_access c = err (record { trap_type = illegal_instruction; value = wrapping_sub c.pc 4 }) c

  unfoldable pub read_csr : ℕ → Exec (Cpu M) Trap ℕ
  read_csr address = do
    allowed ← has_csr_access_privilege address
    if allowed then gets (λ c. read_csr_raw c address) else illegal_access

  -- `Cpu::update_addressing_mode`
  unfoldable pub update_addressing_mode : ℕ → Cpu M → Cpu M
  update_addressing_mode value c =
      let mode : AddressingMode =
        if bit_and value 0x80000000 == 0 then AddressingMode.none else sv32 in
      record c { mmu = update_ppn (bit_and value 0x3fffff) (set_mode mode c.mmu) }

  unfoldable pub write_csr : ℕ → ℕ → Exec (Cpu M) Trap (Unit {0})
  write_csr address value = do
    allowed ← has_csr_access_privilege address
    if allowed
        then (do
          modify (write_csr_raw address value)
          if address == csr_satp_address then modify (update_addressing_mode value) else pure tt)
        else illegal_access
