-- ===== src/Xous/Thread.antt =====
-- src/xous.rs: the start of a thread (`Machine::run`), and a step of the loop of `Worker::run`. What a
-- receiver gives and what a thread that is joined returned are parameters.
pub mod Start
pub mod Paging
use yove.Base.{
  ℕ, ◌+◌, ◌-◌, ◌*◌, ◌/◌, ◌^◌, ◌%◌, Bool, true, false, ◌||◌, Option, some, none, List, [], ◌∷◌,
  if◌then◌else◌, ◌==◌, bit_and, wrapping_add, wrapping_sub,
}
use yove.Base.Exec.{Outcome, Exec, ok, err, panic, pure, gets, modify, assert, ◌>>=◌, ◌>>◌}
use yove.Trap.{Trap}
use yove.Bus.{Memory}
use yove.Mmu.Access.{store}
use yove.Cpu.{Cpu, build, update_pc, read_register, write_register}
use yove.Cpu.Address.{csr_mhartid_address, csr_satp_address, csr_mstatus_address, csr_sepc_address}
use yove.Cpu.Csr.{write_csr}
use yove.Cpu.Tick.{TickResult, done, exit_thread, pause, join, cpu_trap, tick, execute_opcode}
use yove.Xous.Results
use yove.Xous.Definitions.{number, send_message}

-- `.unwrap()` of a result
abbrev pub unwrap_ok : {S E A : Type 0} → Exec S E A → Exec S E A
unwrap_ok f s = elim (f s) [ ok a t ↦ ok a t | err e t ↦ panic | panic ↦ panic ]

module _ {M : Type 0} (bus : Memory M) where
  -- `MemoryCommand::CreateThread`, up to the spawn of the worker.
  unfoldable pub start_thread : ℕ → ℕ → ℕ → ℕ → ℕ → ℕ → ℕ → ℕ → ℕ → Exec (Cpu M) Trap (Unit {0})
  start_thread tid satp entry_point stack_pointer stack_length argument_1 argument_2 argument_3
        argument_4 =
      do
        unwrap_ok (write_csr csr_mhartid_address tid)
        write_csr csr_satp_address satp
        modify (update_pc entry_point)
        write_csr csr_mstatus_address 0x20
        unwrap_ok (write_csr csr_sepc_address entry_point)
        execute_opcode bus 0x10200073
        modify (write_register 2 (wrapping_sub (wrapping_add stack_pointer stack_length) 16))
        modify (write_register 10 argument_1)
        modify (write_register 11 argument_2)
        modify (write_register 12 argument_3)
        modify (write_register 13 argument_4)

  -- `mmu.store(offset as u32 + memory_offset, byte).unwrap()`, byte by byte
  unfoldable pub store_data : ℕ → List ℕ → Exec (Cpu M) Trap (Unit {0})
  store_data address [] = pure tt
  store_data address (byte ∷ rest) = do
    λ c. elim (store bus address byte c.mmu) [
      | ok a mmu ↦ ok tt (record c { mmu = mmu })
      | err e mmu ↦ panic
      | panic ↦ panic
    ]
    store_data (wrapping_add address 1) rest

  -- `write_register(10 + index, value)` for each value
  unfoldable pub load_result : ℕ → List ℕ → Cpu M → Cpu M
  load_result index [] c = c
  load_result index (value ∷ rest) c = load_result (index + 1) rest (write_register index value c)

  unfoldable pub take_data : Option (List ℕ) → Exec (Cpu M) Trap (Unit {0})
  take_data none = pure tt
  take_data (some bytes) = do
    syscall_type ← gets λ c. read_register c 10
    message_kind ← gets λ c. read_register c 12
    memory_offset ← gets λ c. read_register c 14
    assert (syscall_type == number send_message)
    assert (message_kind == 1 || message_kind == 2)
    store_data memory_offset bytes

  -- One round of the loop: `some` is what the worker returns with.
  module _ (receive : ℕ → List ℕ × Option (List ℕ)) (result_of : ℕ → ℕ) where
    unfoldable pub respond : TickResult → Exec (Cpu M) Trap (Option ℕ)
    respond (pause e) = do
      take_data ((receive e).1)
      modify (load_result 10 ((receive e).0))
      pure none
    respond (exit_thread val) = pure (some val)
    respond (join handle) = do
      modify (write_register 10 (Results.result_number Results.scalar1))
      modify (write_register 11 (result_of handle))
      modify (load_result 12 (0 ∷ 0 ∷ 0 ∷ 0 ∷ 0 ∷ 0 ∷ []))
      pure none
    respond (cpu_trap trap) = pure (some (2 ^ 32 - 1))
    respond done = pure none

    unfoldable pub run_once : Exec (Cpu M) Trap (Option ℕ)
    run_once = do result ← tick bus; respond result
