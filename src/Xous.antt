-- ===== src/Xous.antt =====
-- src/xous.rs: the memory of the emulated program, with its page tables and the state that its
-- system calls keep.
pub mod Ram
pub mod Pages
pub mod Results
pub mod Services
pub mod Syscalls
pub mod Kernel
pub mod Instances
pub mod Program
pub mod Walk
pub mod Thread
pub mod Ticktimer
pub mod Definitions
pub mod MemoryFlags
use yove.Base.{ℕ, ◌+◌, ◌*◌, ◌/◌, ◌^◌, ◌%◌, Bool, true, false, Option, some, none, List, [], ◌∷◌}
use yove.Base.Exec.{Exec}

abbrev pub memory_base : ℕ
memory_base = 0x80000000

abbrev pub allocation_start : ℕ
allocation_start = 0x40000000

abbrev pub allocation_end : ℕ
allocation_end = allocation_start + 5 * 1024 * 1024

abbrev pub heap_start : ℕ
heap_start = 0xa0000000

abbrev pub heap_end : ℕ
heap_end = heap_start + 5 * 1024 * 1024

abbrev pub stack_start : ℕ
stack_start = 0xc0000000

abbrev pub stack_end : ℕ
stack_end = 0xc0020000

abbrev pub mmuflag_valid : ℕ
mmuflag_valid = 0x01

abbrev pub mmuflag_readable : ℕ
mmuflag_readable = 0x02

abbrev pub mmuflag_writable : ℕ
mmuflag_writable = 0x04

abbrev pub mmuflag_executable : ℕ
mmuflag_executable = 0x8

abbrev pub mmuflag_usermode : ℕ
mmuflag_usermode = 0x10

abbrev pub mmuflag_accessed : ℕ
mmuflag_accessed = 0x40

abbrev pub mmuflag_dirty : ℕ
mmuflag_dirty = 0x80

-- `pages p i` is word i of page p of the RAM, for the first `page_count` pages. The fields stand
-- for what the struct's locks and atomics hold; a thread's handle is a token.
pub record Memory : Type 0 where
  pub base : ℕ
  pub page_count : ℕ
  pub pages : ℕ → ℕ → ℕ
  pub allocated_pages : List ℕ
  pub free_pages : List ℕ
  pub heap_size : ℕ
  pub allocation_previous : ℕ
  pub l1_pt : ℕ
  pub satp : ℕ
  pub translation_cache : ℕ → Option ℕ
  pub allocated_bytes : ℕ
  pub reservations : ℕ → Option ℕ
  pub thread_handles : ℕ → Option ℕ

-- The methods return or panic.
abbrev pub Action : Type 0 → Type 0
Action A = Exec Memory ⊥ A
