-- ===== src/Xous/Pages.antt =====
-- src/xous.rs, `impl Memory`: physical pages, the page tables that the program keeps in its own
-- RAM.
pub mod Words
pub mod Sound
pub mod Ensure
pub mod Grow
pub mod Regions
pub mod Free
pub mod Core
pub mod Later
pub mod New
pub mod Translate
pub mod Bytes
pub mod Load
pub mod Starts
pub mod Allocate
use yove.Base.{
  ℕ, zero, suc, ◌+◌, ◌-◌, ◌*◌, ◌/◌, ◌^◌, ◌%◌, Bool, true, false, not, Option, some, none, List, [],
  ◌∷◌, if◌then◌else◌, ◌==◌, ltb, bit_and, bit_or, update, complement, u32, wrapping_add,
  wrapping_sub, ◌>>>◌, ◌<<<◌,
}
use yove.Base.OrderedSet.{contains, insert, remove, pop_first}
use yove.Base.Exec.{Exec, ok, err, panic, pure, abort, gets, modify, unwrap, assert, ◌>>=◌, ◌>>◌}
use yove.Xous.{
  Memory, Action, memory_base, heap_start, allocation_start, allocation_end, mmuflag_valid,
  mmuflag_readable, mmuflag_writable, mmuflag_executable, mmuflag_usermode, mmuflag_accessed,
  mmuflag_dirty,
}
use yove.Xous.Ram.{read_u32, write_u32, write_u8}

-- `for address in (start..stop).step_by(4096)`
unfoldable pub pages_from : ℕ → ℕ → List ℕ
pages_from start zero = []
pages_from start (suc n) = start ∷ pages_from (start + 4096) n

abbrev pub page_range : ℕ → ℕ → List ℕ
page_range start stop = pages_from start ((stop - start + 4095) / 4096)

-- `Memory::new`: all pages are free but the second, which is the root page table. Its assertions on
-- the base and the size, and the wrap of the sum of the base and a page's offset in 32 bits, are left
-- out: for a RAM in the address space the sum does not wrap.
unfoldable pub new : ℕ → ℕ → Memory
unfolding pages_from insert remove
new base size = record {
  base = base;
  page_count = (size + 4095) / 4096;
  pages = λ _ _. 0;
  allocated_pages = (memory_base + 4096) ∷ [];
  free_pages = remove (memory_base + 4096) (pages_from base ((size + 4095) / 4096));
  heap_size = 0;
  allocation_previous = allocation_start;
  l1_pt = memory_base + 4096;
  satp = bit_or ((4096 + memory_base) >>> 12) 0x80000000;
  translation_cache = λ _. none;
  allocated_bytes = 4096;
  reservations = λ _. none;
  thread_handles = λ _. none;
}

-- `((virt >> 22) & 0x3ff) * 4`, `((virt >> 12) & 0x3ff) * 4`: the places of the entries
abbrev pub vpn1 : ℕ → ℕ
vpn1 virt = bit_and (virt >>> 22) 0x3ff * 4

abbrev pub vpn0 : ℕ → ℕ
vpn0 virt = bit_and (virt >>> 12) 0x3ff * 4

-- `(entry >> 10) << 12`
abbrev pub frame : ℕ → ℕ
frame entry = (entry >>> 10) <<< 12

abbrev pub l1_address : Memory → ℕ → ℕ
l1_address m virt = wrapping_add m.l1_pt (vpn1 virt)

abbrev pub l0_address : ℕ → ℕ → ℕ
l0_address l1_entry virt = wrapping_add (frame l1_entry) (vpn0 virt)

abbrev pub is_invalid : ℕ → Bool
is_invalid entry = bit_and entry mmuflag_valid == 0

abbrev pub pointer_flags : ℕ
pointer_flags = bit_or (bit_or mmuflag_valid mmuflag_dirty) mmuflag_accessed

abbrev pub page_flags : ℕ
page_flags =
    bit_or
      (bit_or
        (bit_or
          (bit_or (bit_or (bit_or mmuflag_valid mmuflag_writable) mmuflag_readable)
            mmuflag_executable)
          mmuflag_usermode)
        mmuflag_dirty)
      mmuflag_accessed

unfoldable pub allocate_phys_page : Action (Option ℕ)
allocate_phys_page = do
  free ← gets λ m. m.free_pages
  elim (pop_first free) [
    | none ↦ pure none
    | some (phys, rest) ↦ do
      modify λ m. record m { free_pages = rest }
      allocated ← gets λ m. m.allocated_pages
      assert (not (contains phys allocated))
      modify λ m. record m { allocated_pages = insert phys allocated }
      modify λ m. record m { allocated_bytes = wrapping_add m.allocated_bytes 4096 }
      if phys == 0 then abort else pure (some (u32 phys))
  ]

unfoldable pub virt_to_phys : Memory → ℕ → Option ℕ
virt_to_phys m virt =
    let l1_entry = read_u32 m (l1_address m virt) in
    let l0_entry = read_u32 m (l0_address l1_entry virt) in
    if is_invalid l1_entry
    then none
    else if not (
        bit_and l1_entry (bit_or (bit_or mmuflag_executable mmuflag_readable) mmuflag_writable)
        == 0)
    then none
    else if is_invalid l0_entry
    then none
    else some (bit_or (frame l0_entry) (bit_and virt 0xfff))

abbrev pub write_entry : ℕ → ℕ → Memory → Memory
write_entry address entry m = write_u32 m address entry

-- The root table's entry for the address; a missing table is allocated. `none`: out of memory.
unfoldable pub ensure_table : ℕ → Action (Option (Bool × ℕ))
ensure_table virt = do
  l1_entry ← gets λ m. read_u32 m (l1_address m virt)
  if not (is_invalid l1_entry) then pure (some (false, l1_entry)) else do
    allocated ← allocate_phys_page
    elim allocated [
      | none ↦ pure none
      | some phys ↦ do
        let entry = bit_or ((phys >>> 12) <<< 10) pointer_flags
        modify λ m. write_entry (l1_address m virt) entry m
        pure (some (true, entry))
    ]

-- The entry for the address in the table that `l1_entry` points to; a missing page is allocated.
unfoldable pub ensure_mapping : ℕ → ℕ → Bool → Action (Option (Bool × ℕ))
ensure_mapping virt l1_entry allocated = do
  l0_entry ← gets λ m. read_u32 m (l0_address l1_entry virt)
  if not (is_invalid l0_entry) then pure (some (allocated, l0_entry)) else do
    page ← allocate_phys_page
    elim page [
      | none ↦ pure none
      | some phys ↦ do
        let entry = bit_or ((phys >>> 12) <<< 10) page_flags
        modify (write_entry (l0_address l1_entry virt) entry)
        assert (ltb (virt >>> 12) 0xfffff)
        modify λ m. record m {
          translation_cache = update m.translation_cache (virt >>> 12) (some phys);
        }
        pure (some (true, entry))
    ]

unfoldable pub ensure_page : ℕ → Action (Option Bool)
ensure_page virt = do
  assert (not (virt == 0))
  table ← ensure_table virt
  elim table [
    | none ↦ pure none
    | some (allocated, l1_entry) ↦ do
      mapping ← ensure_mapping virt l1_entry allocated
      elim mapping [
        | none ↦ pure none
        | some (allocated, l0_entry) ↦ do
          allocated_pages ← gets λ m. m.allocated_pages
          assert (contains (frame l0_entry) allocated_pages)
          free_pages ← gets λ m. m.free_pages
          assert (not (contains (frame l0_entry) free_pages))
          pure (some allocated)
      ]
  ]

unfoldable pub free_virt_page : ℕ → Action (Unit {0})
free_virt_page virt = do
  translated ← gets λ m. virt_to_phys m virt
  phys ← unwrap translated
  modify λ m. record m { allocated_bytes = wrapping_sub m.allocated_bytes 4096 }
  l1_entry ← gets λ m. read_u32 m (l1_address m virt)
  assert (not (is_invalid l1_entry))
  allocated ← gets λ m. m.allocated_pages
  assert (contains phys allocated)
  modify λ m. record m { allocated_pages = remove phys allocated }
  free ← gets λ m. m.free_pages
  assert (not (contains phys free))
  modify λ m. record m { free_pages = insert phys free }
  assert (ltb (phys >>> 12) 0xfffff)
  modify λ m. record m { translation_cache = update m.translation_cache (phys >>> 12) none }
  l0_entry ← gets λ m. read_u32 m (l0_address l1_entry virt)
  assert (not (is_invalid l0_entry))
  modify (write_entry (l0_address l1_entry virt) 0)

unfoldable pub remove_memory_flags : ℕ → ℕ → Action (Unit {0})
remove_memory_flags virt new_flags = do
  let adjustable = bit_or (bit_or mmuflag_readable mmuflag_writable) mmuflag_executable
  assert (bit_and new_flags (complement adjustable) == 0)
  l1_entry ← gets λ m. read_u32 m (l1_address m virt)
  if is_invalid l1_entry then pure tt else do
    l0_entry ← gets λ m. read_u32 m (l0_address l1_entry virt)
    if is_invalid l0_entry then pure tt else do
      let old_flags = bit_and l0_entry 0xff
      assert (bit_or old_flags new_flags == old_flags)
      modify (
          write_entry (l0_address l1_entry virt)
            (bit_or (bit_and l0_entry (complement adjustable)) new_flags))
