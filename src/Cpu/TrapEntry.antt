-- ===== src/Cpu/TrapEntry.antt =====
-- crates/riscv-cpu/src/cpu.rs, `Cpu::handle_trap`: which mode takes a trap, whether an interrupt
-- is ignored, and the entry into the handler.
pub mod Status
pub mod Machine
use yove.Base.{
  ℕ, ◌+◌, ◌-◌, ◌*◌, ◌/◌, ◌^◌, ◌%◌, Bool, true, false, ◌&&◌, ◌||◌, Option, some, none, if◌then◌else◌,
  ◌==◌, ltb, bit_and, bit_or, complement, u32, ◌>>>◌, ◌<<<◌,
}
use yove.Base.Exec.{Exec, ok, err, panic, pure, abort, gets, modify, unwrap, ◌>>=◌, ◌>>◌}
use yove.Trap.{
  PrivilegeMode, user, supervisor, reserved, machine, TrapType, Trap, get_privilege_encoding,
  get_trap_cause,
}
use yove.Trap.{
  user_software_interrupt, supervisor_software_interrupt, machine_software_interrupt,
  user_timer_interrupt, supervisor_timer_interrupt, machine_timer_interrupt,
  user_external_interrupt, supervisor_external_interrupt, machine_external_interrupt,
}
use yove.Mmu.{update_privilege_mode}
use yove.Cpu.{Cpu}
use yove.Cpu.Address.{
  csr_ustatus_address, csr_uie_address, csr_utvec_address, csr_uepc_address, csr_ucause_address,
  csr_utval_address, csr_sstatus_address, csr_sedeleg_address, csr_sideleg_address, csr_sie_address,
  csr_stvec_address, csr_sepc_address, csr_scause_address, csr_stval_address, csr_mstatus_address,
  csr_medeleg_address, csr_mideleg_address, csr_mie_address, csr_mtvec_address, csr_mepc_address,
  csr_mcause_address, csr_mtval_address,
}
use yove.Cpu.Csr.{read_csr_raw, write_csr_raw}

-- The register that each mode has for a purpose; the reserved mode panics.
abbrev pub for_mode : ℕ → ℕ → ℕ → PrivilegeMode → Option ℕ
for_mode m s u user = some u
for_mode m s u supervisor = some s
for_mode m s u reserved = none
for_mode m s u machine = some m

abbrev pub status_address : PrivilegeMode → Option ℕ
status_address = for_mode csr_mstatus_address csr_sstatus_address csr_ustatus_address

abbrev pub ie_address : PrivilegeMode → Option ℕ
ie_address = for_mode csr_mie_address csr_sie_address csr_uie_address

abbrev pub epc_address : PrivilegeMode → Option ℕ
epc_address = for_mode csr_mepc_address csr_sepc_address csr_uepc_address

abbrev pub cause_address : PrivilegeMode → Option ℕ
cause_address = for_mode csr_mcause_address csr_scause_address csr_ucause_address

abbrev pub tval_address : PrivilegeMode → Option ℕ
tval_address = for_mode csr_mtval_address csr_stval_address csr_utval_address

abbrev pub tvec_address : PrivilegeMode → Option ℕ
tvec_address = for_mode csr_mtvec_address csr_stvec_address csr_utvec_address

-- The bit of xIE that masks an interrupt; the other traps have none.
unfoldable pub enable_bit : TrapType → Option ℕ
enable_bit user_software_interrupt = some 0
enable_bit supervisor_software_interrupt = some 1
enable_bit machine_software_interrupt = some 3
enable_bit user_timer_interrupt = some 4
enable_bit supervisor_timer_interrupt = some 5
enable_bit machine_timer_interrupt = some 7
enable_bit user_external_interrupt = some 8
enable_bit supervisor_external_interrupt = some 9
enable_bit machine_external_interrupt = some 11
enable_bit _ = none

abbrev pub is_bit_clear : ℕ → ℕ → Bool
is_bit_clear word k = bit_and (word >>> k) 1 == 0

-- `match trap.trap_type`: the trap's own enable bit is 0.
unfoldable pub is_masked : TrapType → ℕ → Bool
is_masked trap_type ie = elim (enable_bit trap_type) [ none ↦ false | some k ↦ is_bit_clear ie k ]

-- The global enable bit of the mode that the core is in, in the status that this mode reads.
abbrev pub is_disabled : PrivilegeMode → ℕ → Bool
is_disabled user status = is_bit_clear status 0
is_disabled supervisor status = is_bit_clear status 1
is_disabled reserved status = false
is_disabled machine status = is_bit_clear status 3

-- The early returns: an interrupt for a lower mode, one for the same mode while the mode has
-- interrupts disabled, and one that is masked by itself.
unfoldable pub is_ignored : TrapType → PrivilegeMode → ℕ → ℕ → ℕ → ℕ → Bool
is_ignored trap_type mode encoding new_encoding status ie =
    ltb new_encoding encoding
    || (encoding == new_encoding && is_disabled mode status)
    || is_masked trap_type ie

-- Where the handler starts: a vector type address is offset by the cause.
unfoldable pub vectored : ℕ → ℕ → ℕ
vectored tvec cause =
    if bit_and tvec 0x3 == 0
    then tvec
    else u32 (bit_and tvec (complement 0x3) + 4 * bit_and cause 0xffff)

-- Clear MIE[3], override MPIE[7] with MIE[3] and MPP[12:11] with the mode's encoding.
unfoldable pub machine_entry_status : ℕ → ℕ → ℕ
machine_entry_status encoding status =
    let mie = bit_and (status >>> 3) 1 in
    bit_or (bit_or (bit_and status (complement 0x1888)) (mie <<< 7)) (encoding <<< 11)

-- Clear SIE[1], override SPIE[5] with SIE[1] and SPP[8] with the low bit of the encoding.
unfoldable pub supervisor_entry_status : ℕ → ℕ → ℕ
supervisor_entry_status encoding status =
    let sie = bit_and (status >>> 1) 1 in
    bit_or (bit_or (bit_and status (complement 0x122)) (sie <<< 5)) (bit_and encoding 1 <<< 8)

module _ {M : Type 0} where
  -- The mode that handles a trap: the machine mode unless it delegates the cause, and so on.
  unfoldable pub target_mode : Cpu M → ℕ → Bool → PrivilegeMode
  target_mode c cause is_interrupt =
      let mdeleg =
        read_csr_raw c (if is_interrupt then csr_mideleg_address else csr_medeleg_address) in
      let sdeleg =
        read_csr_raw c (if is_interrupt then csr_sideleg_address else csr_sedeleg_address) in
      let pos = bit_and cause 0xffff in
      if is_bit_clear mdeleg pos
      then machine
      else if is_bit_clear sdeleg pos
      then supervisor
      else user

  unfoldable pub stack_status : PrivilegeMode → ℕ → Exec (Cpu M) Trap (Unit {0})
  stack_status machine encoding = modify λ c.
      write_csr_raw csr_mstatus_address
        (machine_entry_status encoding (read_csr_raw c csr_mstatus_address)) c
  stack_status supervisor encoding = modify λ c.
      write_csr_raw csr_sstatus_address
        (supervisor_entry_status encoding (read_csr_raw c csr_sstatus_address)) c
  stack_status user encoding = abort
  stack_status reserved encoding = abort

  abbrev pub set_privilege_mode : PrivilegeMode → Cpu M → Cpu M
  set_privilege_mode mode c = record c {
    privilege_mode = mode;
    mmu = update_privilege_mode mode c.mmu;
  }

  -- The trap is taken in `mode`.
  unfoldable pub enter : Trap → ℕ → PrivilegeMode → ℕ → Exec (Cpu M) Trap Bool
  enter trap instruction_address mode encoding = do
    let cause = get_trap_cause trap.trap_type
    modify (set_privilege_mode mode)
    epc ← unwrap (epc_address mode)
    cause_register ← unwrap (cause_address mode)
    tval ← unwrap (tval_address mode)
    tvec ← unwrap (tvec_address mode)
    modify (write_csr_raw epc instruction_address)
    modify (write_csr_raw cause_register cause)
    modify (write_csr_raw tval trap.value)
    modify λ c. record c { pc = vectored (read_csr_raw c tvec) cause }
    stack_status mode encoding
    pure true

  unfoldable pub handle_trap : Trap → ℕ → Bool → Exec (Cpu M) Trap Bool
  handle_trap trap instruction_address is_interrupt = do
    mode ← gets (λ c. c.privilege_mode)
    encoding ← unwrap (get_privilege_encoding mode)
    new_mode ← gets λ c. target_mode c (get_trap_cause trap.trap_type) is_interrupt
    new_encoding ← unwrap (get_privilege_encoding new_mode)
    status_register ← unwrap (status_address mode)
    ie_register ← unwrap (ie_address new_mode)
    status ← gets λ c. read_csr_raw c status_register
    ie ← gets λ c. read_csr_raw c ie_register
    if is_interrupt && is_ignored trap.trap_type mode encoding new_encoding status ie
        then pure false
        else enter trap instruction_address new_mode encoding
