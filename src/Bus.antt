-- ===== src/Bus.antt =====
-- crates/riscv-cpu/src/mmu.rs: the answer to a system call, and the trait `Memory`, behind which
-- the emulator sees the program's memory. Two words of memory that are clones share their content,
-- so the processor and its MMU have one state `M` between them.
use yove.Base.{ℕ, Bool, Option, List}

-- A receiver and a thread's handle are tokens.
pub data SyscallResult : Type 0 where
  ok : List ℕ → SyscallResult
  defer : ℕ → SyscallResult
  terminate : ℕ → SyscallResult
  join_thread : ℕ → SyscallResult
  continue : SyscallResult

-- In `translate` the outer `none` is a panic, and in `syscall` a call that does not return.
pub record Memory (M : Type 0) : Type 0 where
  pub read_u8 : M → ℕ → ℕ
  pub read_u16 : M → ℕ → ℕ
  pub read_u32 : M → ℕ → ℕ
  pub write_u8 : M → ℕ → ℕ → M
  pub write_u16 : M → ℕ → ℕ → M
  pub write_u32 : M → ℕ → ℕ → M
  pub validate_address : M → ℕ → Bool
  pub syscall : M → List ℕ → Option (SyscallResult × M)
  pub translate : M → ℕ → Option (Option ℕ)
  pub reserve : M → ℕ → ℕ → M
  pub clear_reservation : M → ℕ → ℕ → Bool × M
