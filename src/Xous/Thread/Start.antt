-- ===== src/Xous/Thread/Start.antt =====
-- The state in which a thread starts (src/xous.rs, Machine::run).
use yove.Base.{ℕ, ◌≡◌, refl, if◌then◌else◌, ◌==◌, bit_and, wrapping_add, wrapping_sub}
use yove.Base.Exec.{ok, ◌>>=◌}
use yove.Base.Exec.Returns.{Returns}
use yove.Trap.{user, get_privilege_encoding, decode_privilege_mode}
use yove.Bus.{Memory}
use yove.Mmu.{AddressingMode, sv32}
use yove.Cpu.{Cpu, build}
use yove.Cpu.Csr.{
  write_csr, write_csr_raw, read_csr_raw, read_csr, has_csr_access_privilege, sync_mstatus,
  update_addressing_mode,
}
use yove.Cpu.Ops.System.{sret, supervisor_return_status}
use yove.Cpu.Table.{
  decode, or_illegal, found, decode_and_get_instruction_index, first_match, get_instructions,
  operation_at,
}
use yove.Cpu.Tick.{execute_opcode}
use yove.Xous.Thread.{start_thread}

module _ {M : Type 0} (bus : Memory M) where
  decode-sret : (c : Cpu M) → decode bus 0x10200073 c ≡ ok (sret bus) c
  unfolding decode ◌>>=◌ or_illegal found decode_and_get_instruction_index first_match
      get_instructions operation_at
  decode-sret c = refl

  -- What a thread finds when it starts.
  pub record Started (satp entry stack argument_1 argument_2 argument_3 argument_4 : ℕ) (memory : M)
      (t : Cpu M) : Type 0 where
    pub mode : t.privilege_mode ≡ user
    pub pc : t.pc ≡ entry
    pub sp : t.x 2 ≡ stack
    pub a0 : t.x 10 ≡ argument_1
    pub a1 : t.x 11 ≡ argument_2
    pub a2 : t.x 12 ≡ argument_3
    pub a3 : t.x 13 ≡ argument_4
    pub mmu_mode : t.mmu.privilege_mode ≡ user
    pub paging :
        t.mmu.addressing_mode ≡ (if bit_and satp 0x80000000 == 0 then AddressingMode.none else sv32)
    pub ppn : t.mmu.ppn ≡ bit_and satp 0x3fffff
    pub same_memory : t.mmu.memory ≡ memory

  module _ (tid satp entry sp length a1 a2 a3 a4 : ℕ) (memory : M) where
    -- A thread starts without a trap or a panic, in user mode, at its entry point, with its four arguments
    -- in the registers 10 to 13 and its stack pointer 16 bytes below the end of its stack; its MMU has
    -- the paging and the root table of satp, in user mode; and the memory is as it was.
    pub start_thread-Started :
        Returns (start_thread bus tid satp entry sp length a1 a2 a3 a4 (build memory 0 0)) (λ _ t.
          Started satp entry (wrapping_sub (wrapping_add sp length) 16) a1 a2 a3 a4 memory t)
    unfolding start_thread write_csr write_csr_raw read_csr_raw read_csr has_csr_access_privilege
        get_privilege_encoding decode_privilege_mode sync_mstatus update_addressing_mode
        execute_opcode sret supervisor_return_status decode ◌>>=◌ or_illegal found
        decode_and_get_instruction_index first_match get_instructions operation_at
    start_thread-Started = record {
      mode = refl;
      pc = refl;
      sp = refl;
      a0 = refl;
      a1 = refl;
      a2 = refl;
      a3 = refl;
      mmu_mode = refl;
      paging = refl;
      ppn = refl;
      same_memory = refl;
    }
