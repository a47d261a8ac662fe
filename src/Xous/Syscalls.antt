-- ===== src/Xous/Syscalls.antt =====
-- src/xous/syscalls.rs, and `Memory::syscall` (src/xous.rs).
pub mod Heap
pub mod Backed
pub mod Fill
use yove.Base.{
  ℕ, zero, suc, ◌+◌, ◌-◌, ◌*◌, ◌^◌, ◌%◌, Bool, true, false, not, ◌||◌, Option, some, none, List, [],
  ◌∷◌, if◌then◌else◌, ◌==◌, ltb, leb, min, bit_and, update, wrapping_add, wrapping_sub,
}
use yove.Base.Exec.{
  Outcome, Exec, ok, err, panic, pure, raise, abort, gets, modify, unwrap, assert, ◌>>=◌, ◌>>◌,
}
use yove.Bus.{SyscallResult}
use yove.Xous.{Memory, heap_start, heap_end}
use yove.Xous.Ram.{read_u8, write_u8}
use yove.Xous.Pages.{
  page_range, pages_from, virt_to_phys, ensure_page, free_virt_page, remove_memory_flags,
}
use yove.Xous.Pages.Regions.{allocate_virt_region}
use yove.Xous.Results
use yove.Xous.Results.{SyscallResultNumber, SyscallErrorNumber, result_number, error_number}
use yove.Xous.Definitions.{
  Syscall, syscall_of, unknown_call, yield_call, increase_heap_call, map_memory_call, connect_call,
  try_connect_call, send_message_call, try_send_message_call, update_memory_flags_call,
  create_thread_call, join_thread_call, unmap_memory_call, terminate_process_call,
  get_process_id_call,
}
use yove.Xous.Services.{
  Service, ServiceName, ScalarResult, scalar1, scalar2, scalar5, wait_for_scalar, LendResult,
  memory_returned, wait_for_memory, get_service, same_words,
}

-- `[..].into()`: a result of eight words, the last ones 0.
abbrev pub answer : SyscallResultNumber → ℕ → ℕ → SyscallResult
answer r a b = SyscallResult.ok (result_number r ∷ a ∷ b ∷ 0 ∷ 0 ∷ 0 ∷ 0 ∷ 0 ∷ [])

abbrev pub failure : SyscallErrorNumber → SyscallResult
failure e = answer Results.error (error_number e) 0

abbrev pub done : SyscallResult
done = answer Results.ok 0 0

unfoldable pub map_memory : ℕ → ℕ → ℕ → ℕ → Exec Memory ⊥ SyscallResult
map_memory phys virt size flags = do
  assert (virt == 0)
  assert (phys == 0)
  region ← allocate_virt_region size
  elim region [
    | some address ↦ pure (answer Results.memory_range address size)
    | none ↦ pure (failure Results.out_of_memory)
  ]

abbrev pub saturating_add : ℕ → ℕ → ℕ
saturating_add a b = min (a + b) (2 ^ 32 - 1)

-- The loop of `increase_heap`: what `ensure_page` returns is not looked at.
unfoldable pub ensure_each : List ℕ → Exec Memory ⊥ (Unit {0})
ensure_each [] = pure tt
ensure_each (page ∷ rest) = do ensure_page page; ensure_each rest

abbrev pub heap_address : Memory → ℕ
heap_address m = wrapping_add heap_start m.heap_size

unfoldable pub increase_heap : ℕ → ℕ → Exec Memory ⊥ SyscallResult
increase_heap delta flags = do
  assert (bit_and delta 0xfff == 0)
  heap_size ← gets λ m. m.heap_size
  address ← gets heap_address
  if delta == 0
      then pure
          (answer Results.memory_range heap_start (if heap_size == 0 then 4096 else heap_size))
      else if ltb heap_end (saturating_add address delta)
      then pure (failure Results.out_of_memory)
      else do
        ensure_each (page_range address (wrapping_add address delta))
        region ← gets heap_address
        modify λ m. record m { heap_size = wrapping_add m.heap_size delta }
        pure (answer Results.memory_range region delta)

-- The addresses of `(from..to)` and of `(from..to).step_by(4096)`, for signed words.
abbrev pub signed_count : ℕ → ℕ → ℕ
signed_count from to =
    if ltb (wrapping_add from (2 ^ 31)) (wrapping_add to (2 ^ 31)) then wrapping_sub to from else 0

unfoldable pub stepped : ℕ → ℕ → ℕ → List ℕ
stepped from step zero = []
stepped from step (suc n) = from ∷ stepped (wrapping_add from step) step n

-- `UpdateMemoryFlags` goes through every byte of the range.
unfoldable pub remove_flags : List ℕ → ℕ → Exec Memory ⊥ (Unit {0})
remove_flags [] flags = pure tt
remove_flags (address ∷ rest) flags = do remove_memory_flags address flags; remove_flags rest flags

unfoldable pub unmap : List ℕ → Exec Memory ⊥ (Unit {0})
unmap [] = pure tt
unmap (address ∷ rest) = do free_virt_page address; unmap rest

unfoldable pub join_thread : ℕ → Exec Memory ⊥ SyscallResult
join_thread thread_id = do
  handle ← gets λ m. m.thread_handles thread_id
  modify λ m. record m { thread_handles = update m.thread_handles thread_id none }
  pure (elim handle [
    | none ↦ failure Results.thread_not_available
    | some h ↦ SyscallResult.join_thread h
  ])

-- The bytes of the program that a message lends.
unfoldable pub read_region : List ℕ → Exec Memory ⊥ (List ℕ)
read_region [] = pure []
read_region (address ∷ rest) = do
  translated ← gets λ m. virt_to_phys m address
  phys ← unwrap translated
  byte ← gets λ m. read_u8 m phys
  bytes ← read_region rest
  pure (byte ∷ bytes)

unfoldable pub write_region : ℕ → List ℕ → Exec Memory ⊥ (Unit {0})
write_region address [] = pure tt
write_region address (byte ∷ rest) = do
  translated ← gets λ m. virt_to_phys m address
  phys ← unwrap translated
  modify λ m. write_u8 m phys byte
  write_region (wrapping_add address 1) rest
