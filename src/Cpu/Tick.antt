-- ===== src/Cpu/Tick.antt =====
-- crates/riscv-cpu/src/cpu.rs: one cycle of a core: `fetch`, `tick_operate`, `tick` and
-- `execute_opcode`.
use yove.Base.{ℕ, ◌*◌, false, if◌then◌else◌, ◌==◌, bit_and, u32, wrapping_add}
use yove.Base.Exec.{Outcome, Exec, ok, err, panic, pure, gets, modify, ◌>>=◌, ◌>>◌}
use yove.Trap.{Trap, instruction_page_fault, pause_emulation, join_thread}
use yove.Bus.{Memory}
use yove.Mmu.Access.{fetch_word}
use yove.Cpu.{Cpu, set_x}
use yove.Cpu.Address.{csr_mie_address, csr_mip_address, csr_cycle_address}
use yove.Cpu.Csr.{read_csr_raw, write_csr_raw}
use yove.Cpu.Interrupt.{handle_interrupt}
use yove.Cpu.Table.{decode}
use yove.Cpu.Uncompress.{uncompress}

pub data TickResult : Type 0 where
  done : TickResult
  exit_thread : ℕ → TickResult
  pause : ℕ → TickResult
  join : ℕ → TickResult
  cpu_trap : Trap → TickResult

module _ {M : Type 0} (bus : Memory M) where
  abbrev skip_word : Cpu M → Cpu M
  skip_word c = record c { pc = wrapping_add c.pc 4 }

  -- A fetch that fails moves the program counter on.
  unfoldable pub fetch : Exec (Cpu M) Trap ℕ
  fetch c = elim (fetch_word bus c.pc c.mmu) [
    | ok word mmu ↦ ok word (record c { mmu = mmu })
    | err trap mmu ↦ err trap (skip_word (record c { mmu = mmu }))
    | panic ↦ panic
  ]

  -- Move on by the instruction's length, and expand a compressed one.
  unfoldable pub next_word : ℕ → Exec (Cpu M) Trap ℕ
  next_word original_word =
      if bit_and original_word 0x3 == 0x3
      then (do modify λ c. record c { pc = wrapping_add c.pc 4 }; pure original_word)
      else (do
        modify λ c. record c { pc = wrapping_add c.pc 2 }
        uncompress (bit_and original_word 0xffff))

  -- `self.x[0] = 0` after the operation, whether it failed or not.
  unfoldable pub clear_zero : Outcome (Cpu M) Trap (Unit {0}) → Outcome (Cpu M) Trap (Unit {0})
  clear_zero (ok a c) = ok a (set_x 0 0 c)
  clear_zero (err e c) = err e (set_x 0 0 c)
  clear_zero panic = panic

  unfoldable pub step : Exec (Cpu M) Trap (Unit {0})
  unfolding clear_zero
  step = do
    original_word ← fetch
    instruction_address ← gets λ c. c.pc
    word ← next_word original_word
    operation ← decode bus word
    λ c. clear_zero (operation word instruction_address c)

  -- Leave the wait if an enabled interrupt is pending; such a cycle does nothing else.
  unfoldable pub wake : Cpu M → Cpu M
  wake c =
      if bit_and (read_csr_raw c csr_mie_address) (read_csr_raw c csr_mip_address) == 0
      then c
      else record c { wfi = false }

  unfoldable pub tick_operate : Exec (Cpu M) Trap (Unit {0})
  tick_operate = do waiting ← gets λ c. c.wfi; if waiting then modify wake else step

  -- What the caller is told of a trap: the address 0xff803000 is that of a thread's exit.
  unfoldable pub report : Trap → Cpu M → TickResult
  report trap c = elim trap.trap_type [
    | pause_emulation receiver ↦ pause receiver
    | join_thread handle ↦ join handle
    | instruction_page_fault ↦
        if trap.value == 0xff803000 then exit_thread (c.x 10) else cpu_trap trap
    | _ ↦ cpu_trap trap
  ]

  unfoldable pub finish_cycle : Exec (Cpu M) Trap (Unit {0})
  finish_cycle = do
    pc ← gets λ c. c.pc
    handle_interrupt pc
    modify λ c. record c { clock = wrapping_add c.clock 1 }
    modify λ c. write_csr_raw csr_cycle_address (u32 (c.clock * 8)) c

  -- `tick` fails never: a trap of the instruction is a result.
  unfoldable pub tick : Exec (Cpu M) Trap TickResult
  tick c = elim (tick_operate c) [
    | ok a t ↦ (do finish_cycle; pure done) t
    | err trap t ↦ ok (report trap t) t
    | panic ↦ panic
  ]

  unfoldable pub execute_opcode : ℕ → Exec (Cpu M) Trap (Unit {0})
  execute_opcode op = do operation ← decode bus op; pc ← gets λ c. c.pc; operation op pc
