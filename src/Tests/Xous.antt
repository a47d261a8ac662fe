-- ===== src/Tests/Xous.antt =====
-- The theorems on src/xous.rs and below at concrete states: a RAM of four pages, whose second is the
-- root table, and one page of it mapped.
use yove.Base.{
  length, ◌+◌, ◌*◌, if◌then◌else◌, ◌==◌, wrapping_add, wrapping_sub, ℕ, ◌-◌, ◌/◌, ◌^◌, ◌≤◌, ◌≡◌,
  ◌↔◌, ltb, inl, refl, min, Bool, true, Option, some, none, List, [], ◌∷◌, update, bit, arith,
}
use yove.Base.OrderedSet.{insert, remove}
use yove.Base.Exec.{Outcome, Exec, ok, err, panic, ◌>>=◌}
use yove.Base.Exec.Returns.{Returns}
use yove.Mmu
use yove.Mmu.{Mmu, sv32, read}
use yove.Trap.{user}
use yove.Mmu.Walk.{translate_address}
use yove.Mmu.Walk.Reference.{value}
use yove.Xous.{Memory, memory_base}
use yove.Xous.Ram.{read_u8, read_u32, write_u8, write_u32, from_le_bytes}
use yove.Xous.Ram.Laws.{read_u32-write_u32}
use yove.Xous.Pages.{
  new, pages_from, allocate_phys_page, ensure_table, ensure_mapping, ensure_page, virt_to_phys,
  free_virt_page,
}
use yove.Xous.Pages.Sound.{IsSound}
use yove.Xous.Pages.New.{new-IsSound}
use yove.Xous.Ram.{translate}
use yove.Xous.Pages.Translate.{
  IsCacheRight, ensure_page-IsCacheRight, translate-virt_to_phys, Mapped, ensure_page-Mapped,
  ensure_page-virt_to_phys, virt_to_phys-injective,
}
use yove.Xous.{allocation_start}
use yove.Xous.Pages.Load.{load, write_u8-load}
use yove.Xous.Pages.Regions.{write_bytes, allocate_virt_region}
use yove.Xous.Pages.Allocate.{Allocated, allocate_virt_region-Allocated}
use yove.Xous.Syscalls.Fill.{Filled, write_bytes-Filled}
use yove.Xous.Syscalls.Backed.{pages_of}
use yove.Xous.Pages.Free.{Freed, free_virt_page-Freed}
use yove.Xous.Syscalls.{increase_heap}
use yove.Xous.Syscalls.Heap.{heap_most, Increased, increase_heap-Increased}
use yove.Xous.Services.{Service, ticktimer, scalar1, memory_returned}
use yove.Xous.Kernel.{Kernel, connect, bus}
use yove.Xous.Kernel.Connections.{connect-again}
use yove.Xous.Walk.Address.{reached, translate_address-reached}
use yove.Cpu.{build}
use yove.Xous.Thread.{start_thread}
use yove.Xous.Thread.Start.{Started, start_thread-Started}
use yove.Xous.Thread.Paging.{satp_of, start_thread-reached}
use yove.Xous.Ticktimer
use yove.Xous.Ticktimer.{Ticktimer, unlock_mutex}
use yove.Xous.Ticktimer.Mutexes.{Unlocked, unlock_mutex-Unlocked}
use yove.Xous.Definitions.{number, number_of}
use yove.Xous.Definitions.Numbers.{number-number_of}
use yove.Xous.MemoryFlags.{all, write, sub, not_flags, contains_flags}
use yove.Xous.MemoryFlags.Sets.{bit-sub, contains_flags_iff, bit-not_flags}

abbrev larger : Memory
larger = new memory_base 0x8000

larger-IsSound : IsSound larger
larger-IsSound = new-IsSound 0x8000 (omega arith) (omega arith)

abbrev pub small : Memory
small = new memory_base 0x4000

new-IsSound_example : IsSound (new memory_base 0x4000)
new-IsSound_example = new-IsSound 0x4000 (omega arith) (omega arith)

small-IsSound : IsSound small
small-IsSound = new-IsSound 0x4000 (omega arith) (omega arith)

ensure_page-Mapped_example : Returns (ensure_page 0x40000000 small) (Mapped 0x40000000)
ensure_page-Mapped_example =
    ensure_page-Mapped 0x40000000 small small-IsSound (omega arith) (omega arith)

-- The state that an action leaves.
abbrev state_of : {A : Type 0} → Outcome Memory ⊥ A → Memory
state_of (ok a t) = t
state_of _ = small

abbrev mapped : Memory
mapped = state_of (ensure_page 0x40000000 small)

left-IsSound :
    (o : Outcome Memory ⊥ (Option Bool)) → Returns o (Mapped 0x40000000) → IsSound (state_of o)
left-IsSound (ok none t) h = h.0
left-IsSound (ok (some a) t) h = h.0
left-IsSound (err e t) h = elim h [ ]
left-IsSound panic h = elim h [ ]

mapped-IsSound : IsSound mapped
mapped-IsSound =
    left-IsSound (ensure_page 0x40000000 small)
      (ensure_page-Mapped 0x40000000 small small-IsSound (omega arith) (omega arith))

mapped_page : virt_to_phys mapped 0x40000000 ≡ some 0x80002000
unfolding virt_to_phys read_u32 read_u8 write_u32 write_u8 from_le_bytes new pages_from insert
    remove ensure_page ensure_table ensure_mapping allocate_phys_page ◌>>=◌
mapped_page = refl

ensure_page-virt_to_phys_example :
    Returns (ensure_page 0x40001000 mapped) (λ r t. virt_to_phys t 0x40000000 ≡ some 0x80002000)
ensure_page-virt_to_phys_example =
    ensure_page-virt_to_phys 0x40001000 0x40000000 0x80002000 mapped mapped-IsSound (omega arith)
      (omega arith) mapped_page

abbrev start : ℕ
start = 0x40000000

virt_to_phys-injective_example : start ≡ start
virt_to_phys-injective_example =
    virt_to_phys-injective mapped mapped-IsSound start start 0x80002000 (omega arith) (omega arith)
      mapped_page mapped_page

free_virt_page-Freed_example :
    Returns
      (free_virt_page 0x40000000 mapped)
      (λ r t. Freed 0x40000000 0x80002000 0x40001000 mapped t)
free_virt_page-Freed_example =
    free_virt_page-Freed 0x40000000 0x80002000 0x40001000 mapped mapped-IsSound (omega arith)
      (omega arith) mapped_page (omega arith) (omega arith)

no_heap : small.heap_size ≤ heap_most
unfolding new
no_heap = omega arith

increase_heap_example : Returns (increase_heap 0x1000 0 small) (Increased 0x1000 small)
increase_heap_example =
    increase_heap-Increased 0x1000 0 small small-IsSound no_heap (omega arith) (omega arith)
      (omega arith)

-- A word that is not aligned, and the one after it.
read_u32-write_u32_example :
    (read_u32 (write_u32 small 0x80000001 0x12345678) 0x80000001 ≡ 0x12345678)
    × (read_u32 (write_u32 small 0x80000001 0x12345678) 0x80000008 ≡ read_u32 small 0x80000008)
unfolding new
read_u32-write_u32_example =
    read_u32-write_u32 small 0x80000001 0x80000008 0x12345678 small-IsSound.ram (omega arith)
      (omega arith) (omega arith) (omega arith) (omega arith) (inl (omega arith))

-- Services that answer at once.
abbrev pub services : Service ℕ (Kernel ℕ ℕ)
services = record {
  create = λ name k. ok 7 k;
  scalar = λ s opcode args k. ok tt k;
  blocking_scalar = λ s opcode args k. ok (scalar1 0) k;
  lend = λ s opcode region extra k. ok (memory_returned 0 0) k;
  lend_mut = λ s opcode region extra k. ok (memory_returned 0 0, region) k;
  send = λ s opcode region extra k. ok tt k;
}

abbrev pub threads : ℕ → ℕ → ℕ → List ℕ → Exec (Kernel ℕ ℕ) ℕ (ℕ × ℕ)
threads entry stack length arguments k = ok (2, 2) k

abbrev pub kernel : Memory → Kernel ℕ ℕ
kernel m = record {
  memory = m;
  connections = λ _. none;
  connection_index = 1;
  named_connections_index = [];
  world = 0;
}

abbrev ticktimer_id : List ℕ
ticktimer_id = 0x6b636974 ∷ 0x656d6974 ∷ 0x65732d72 ∷ 0x72657672 ∷ []

connect-again_example :
    Returns
      (connect services ticktimer_id (kernel small))
      (λ r t. connect services ticktimer_id t ≡ ok r t)
connect-again_example =
    connect-again services ticktimer_id ticktimer 7 (kernel small) (kernel small) refl refl

abbrev mmu : Mmu (Kernel ℕ ℕ)
mmu = record (Mmu.init (kernel mapped)) {
  addressing_mode = sv32;
  privilege_mode = user;
  ppn = 0x80001;
}

root_page : mmu.ppn ≡ mapped.l1_pt / 2 ^ 12
unfolding virt_to_phys read_u32 read_u8 write_u32 write_u8 from_le_bytes new pages_from insert
    remove ensure_page ensure_table ensure_mapping allocate_phys_page ◌>>=◌
root_page = refl

-- Mutex 5 is held, and thread 9 waits for it.
abbrev waited : Ticktimer
waited = record (Ticktimer.new 0) {
  mutexes = update (λ _. none) 5 (some true);
  mutex_unlockers = update (λ _. none) 5 (some (9 ∷ []));
}

unlock_mutex-Unlocked_example : Unlocked 5 waited (waited.mutexes 5) (unlock_mutex 5 waited)
unlock_mutex-Unlocked_example = unlock_mutex-Unlocked waited 5

number-number_of_example : number (number_of 16) ≡ 16
number-number_of_example = number-number_of 16 (λ e. cc)

bit-sub_example : bit 2 (sub all write).bits ≡ min (bit 2 all.bits) (1 - bit 2 write.bits)
bit-sub_example = bit-sub all write 2 (omega arith) (omega arith)

contains_flags_iff_example :
    (contains_flags all write ≡ true) ↔ ((k : ℕ) → bit k write.bits ≤ bit k all.bits)
contains_flags_iff_example = contains_flags_iff all write

bit-not_flags_example : bit 2 (not_flags write).bits ≡ (if ltb 2 8 then 1 - bit 2 write.bits else 0)
bit-not_flags_example = bit-not_flags write 2 (omega arith)

-- A thread that starts at the mapped page, with its stack in another.
start_thread-Started_example :
    Returns
      (start_thread
        (bus services threads)
        2
        0x80080001
        0x40000000
        0xc0000000
        0x20000
        1
        2
        3
        4
        (build (kernel mapped) 0 0))
      (λ r t.
        Started
          (bus services threads)
          0x80080001
          0x40000000
          (wrapping_sub (wrapping_add 0xc0000000 0x20000) 16)
          1
          2
          3
          4
          (kernel mapped)
          t)
start_thread-Started_example =
    start_thread-Started (bus services threads) 2 0x80080001 0x40000000 0xc0000000 0x20000 1 2 3 4
      (kernel mapped)

small-IsCacheRight : IsCacheRight small
unfolding new
small-IsCacheRight v q c = cc

ensure_page-IsCacheRight_example : Returns (ensure_page 0x40000000 small) (λ r t. IsCacheRight t)
ensure_page-IsCacheRight_example =
    ensure_page-IsCacheRight 0x40000000 small small-IsSound small-IsCacheRight (omega arith)
      (omega arith)

left-IsCacheRight :
    (o : Outcome Memory ⊥ (Option Bool))
    → Returns o (λ r t. IsCacheRight t)
    → IsCacheRight (state_of o)
left-IsCacheRight (ok a t) h = h
left-IsCacheRight (err e t) h = elim h [ ]
left-IsCacheRight panic h = elim h [ ]

mapped-IsCacheRight : IsCacheRight mapped
mapped-IsCacheRight = left-IsCacheRight (ensure_page 0x40000000 small) (
    ensure_page-IsCacheRight 0x40000000 small small-IsSound small-IsCacheRight (omega arith)
      (omega arith))

reached_example :
    value (translate_address (bus services threads) 0x40000004 read mmu)
    ≡ reached mapped 0x40000004 read
reached_example =
    translate_address-reached services threads 0x40000004 read mmu refl (inl refl) root_page
      mapped-IsSound mapped-IsCacheRight

-- The page is there for a read.
reached-read : reached mapped 0x40000004 read ≡ some (some 0x80002004)
unfolding virt_to_phys read_u32 read_u8 write_u32 write_u8 from_le_bytes new pages_from insert
    remove ensure_page ensure_table ensure_mapping allocate_phys_page ◌>>=◌
reached-read = refl

-- The last page is a panic.
reached_last : reached mapped 0xfffff004 read ≡ none
reached_last = refl

start_thread-reached_example :
    Returns
      (start_thread
        (bus services threads)
        2
        (satp_of mapped.l1_pt)
        0x40000000
        0xc0000000
        0x20000
        1
        2
        3
        4
        (build (kernel mapped) 0 0))
      (λ r t.
        value (translate_address (bus services threads) 0x40000004 read t.mmu)
        ≡ reached mapped 0x40000004 read)
start_thread-reached_example =
    start_thread-reached services threads (kernel mapped) 2 0x40000000 0xc0000000 0x20000 1 2 3 4
      0x40000004 read mapped-IsSound mapped-IsCacheRight

cached-read : translate mapped 0x40000004 ≡ some (some 0x80002004)
unfolding translate virt_to_phys read_u32 read_u8 write_u32 write_u8 from_le_bytes new pages_from
    insert remove ensure_page ensure_table ensure_mapping allocate_phys_page ◌>>=◌
cached-read = refl

translate-virt_to_phys_example : virt_to_phys mapped 0x40000004 ≡ some 0x80002004
translate-virt_to_phys_example =
    translate-virt_to_phys mapped 0x40000004 0x80002004 mapped-IsSound mapped-IsCacheRight
      cached-read

-- A byte in the mapped page, and the one after it.
write_u8-load_example :
    IsSound (write_u8 mapped 0x80002000 7)
    × (virt_to_phys (write_u8 mapped 0x80002000 7) 0x40000001 ≡ virt_to_phys mapped 0x40000001)
    × (load (write_u8 mapped 0x80002000 7) 0x40000001
        ≡ (if 0x40000001 == 0x40000000 then some 7 else load mapped 0x40000001))
write_u8-load_example =
    write_u8-load mapped 0x40000000 0x80002000 7 0x40000001 mapped-IsSound (omega arith) mapped_page
      (omega arith) (omega arith)

-- Bytes over the end of a page.
abbrev greeting : List ℕ
greeting = 104 ∷ 105 ∷ 33 ∷ []

enough_pages : 2 * pages_of 0x40000ffe (length greeting) + 3 ≤ length larger.free_pages
unfolding new pages_from insert remove
enough_pages = omega arith

write_bytes-Filled_example :
    Returns (write_bytes greeting 0x40000ffe larger) (λ r t. Filled larger t greeting 0x40000ffe 3)
write_bytes-Filled_example =
    write_bytes-Filled greeting 0x40000ffe 3 larger larger-IsSound
      (omega arith, (omega arith, (omega arith, tt))) (omega arith) (omega arith) enough_pages

at_first : larger.allocation_previous ≡ allocation_start
unfolding new
at_first = refl

three_pages : 2 * ((0x3000 + 4095) / 4096) ≤ length larger.free_pages
unfolding new pages_from insert remove
three_pages = omega arith

allocate_virt_region-Allocated_example :
    Returns (allocate_virt_region 0x3000 larger) (Allocated larger 0x3000)
allocate_virt_region-Allocated_example =
    allocate_virt_region-Allocated 0x3000 larger larger-IsSound (omega (arith, at_first))
      (omega (arith, at_first)) (omega arith) three_pages
