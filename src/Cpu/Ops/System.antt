-- ===== src/Cpu/Ops/System.antt =====
-- crates/riscv-cpu/src/cpu/instructions.rs: the environment call, the returns from traps and WFI.
use yove.Base.{ℕ, ◌+◌, true, complement, bit_and, bit_or, ◌>>>◌, ◌<<<◌}
use yove.Base.Exec.{Exec, ok, panic, raise, abort, gets, modify, unwrap, ◌>>=◌, ◌>>◌}
use yove.Cpu.{Cpu, set_x}
use yove.Cpu.Ops.{Operation}
use mathlib.Core.List.{List, [], ◌∷◌, map}
use mathlib.Core.Option.{Option, none, some}
use yove.Trap.{
  PrivilegeMode, user, supervisor, reserved, machine, decode_privilege_mode, TrapType, Trap,
  pause_emulation, environment_call_from_u_mode, environment_call_from_s_mode,
  environment_call_from_m_mode,
}
use yove.Bus.{Memory, SyscallResult, defer, terminate, continue}
use yove.Cpu.Address.{csr_mepc_address, csr_sepc_address, csr_mstatus_address, csr_sstatus_address}
use yove.Cpu.Csr.{read_csr, read_csr_raw, write_csr_raw}
use yove.Cpu.TrapEntry.{set_privilege_mode}

-- The trap of a system call that is passed to the processor.
unfoldable pub environment_call : PrivilegeMode → Option TrapType
environment_call user = some environment_call_from_u_mode
environment_call supervisor = some environment_call_from_s_mode
environment_call reserved = none
environment_call machine = some environment_call_from_m_mode

-- MPRV, which only a return to the machine mode keeps.
unfoldable pub carried_mprv : PrivilegeMode → ℕ → ℕ
carried_mprv machine status = bit_and (status >>> 17) 1
carried_mprv _ status = 0

-- Override MIE[3] with MPIE[7], set MPIE[7] to 1, MPP[12:11] to 0, and override MPRV[17].
unfoldable pub machine_return_status : PrivilegeMode → ℕ → ℕ
machine_return_status mode status =
    let mpie = bit_and (status >>> 7) 1 in
    let mprv = carried_mprv mode status in
    bit_or (bit_or (bit_or (bit_and status (complement 0x21888)) (mprv <<< 17)) (mpie <<< 3))
      (1 <<< 7)

-- Override SIE[1] with SPIE[5], set SPIE[5] to 1, SPP[8] to 0, and override MPRV[17].
unfoldable pub supervisor_return_status : PrivilegeMode → ℕ → ℕ
supervisor_return_status mode status =
    let spie = bit_and (status >>> 5) 1 in
    let mprv = carried_mprv mode status in
    bit_or (bit_or (bit_or (bit_and status (complement 0x20122)) (mprv <<< 17)) (spie <<< 1))
      (1 <<< 5)

module _ {M : Type 0} (bus : Memory M) where
  -- The results are stored one by one from register 10 on.
  unfoldable pub write_results : ℕ → List ℕ → Cpu M → Cpu M
  write_results i [] c = c
  write_results i (value ∷ rest) c = write_results (i + 1) rest (set_x i value c)

  unfoldable pub answer : SyscallResult → ℕ → Exec (Cpu M) Trap (Unit {0})
  answer (SyscallResult.ok results) address = modify (write_results 10 results)
  answer (defer receiver) address =
      raise (record { trap_type = pause_emulation receiver; value = address })
  answer (SyscallResult.join_thread handle) address =
      raise (record { trap_type = TrapType.join_thread handle; value = address })
  answer (terminate result) address = abort
  answer continue address = do
    mode ← gets λ c. c.privilege_mode
    trap_type ← unwrap (environment_call mode)
    raise (record { trap_type = trap_type; value = address })

  -- `cpu.memory.syscall(args)`, with registers 10 to 17
  unfoldable pub call : Exec (Cpu M) Trap SyscallResult
  call c = elim (bus.syscall c.mmu.memory (map c.x (10 ∷ 11 ∷ 12 ∷ 13 ∷ 14 ∷ 15 ∷ 16 ∷ 17 ∷ []))) [
    | none ↦ panic
    | some (result, memory) ↦ ok result (record c { mmu = record c.mmu { memory = memory } })
  ]

  unfoldable pub ecall : Operation M
  ecall word address = do result ← call; answer result address

  unfoldable pub mret : Operation M
  mret word address = do
    epc ← read_csr csr_mepc_address
    modify λ c. record c { pc = epc }
    status ← gets λ c. read_csr_raw c csr_mstatus_address
    mode ← unwrap (decode_privilege_mode (bit_and (status >>> 11) 0x3))
    modify (write_csr_raw csr_mstatus_address (machine_return_status mode status))
    modify (set_privilege_mode mode)

  unfoldable pub sret : Operation M
  sret word address = do
    epc ← read_csr csr_sepc_address
    modify λ c. record c { pc = epc }
    status ← gets λ c. read_csr_raw c csr_sstatus_address
    mode ← unwrap (decode_privilege_mode (bit_and (status >>> 8) 1))
    modify (write_csr_raw csr_sstatus_address (supervisor_return_status mode status))
    modify (set_privilege_mode mode)

  unfoldable pub uret : Operation M
  uret word address = abort

  unfoldable pub wfi : Operation M
  wfi word address = modify λ c. record c { wfi = true }
