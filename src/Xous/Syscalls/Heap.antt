-- ===== src/Xous/Syscalls/Heap.antt =====
-- `increase_heap` (src/xous/syscalls.rs).
use yove.Base.{
  ℕ, zero, suc, ◌+◌, ◌-◌, ◌*◌, ◌/◌, ◌%◌, ◌^◌, ◌<◌, ◌≤◌, ◌≡◌, ◌≢◌, ◌⊎◌, inl, inr, subst, sym, Bool,
  Option, some, none, if◌then◌else◌, leb, bit_and_mask, wrapping_add, arith,
}
use yove.Base.Exec.{Outcome, ok, ◌>>=◌}
use yove.Base.Exec.Returns.{Returns, Returns-bind, Returns-map}
use yove.Bus.{SyscallResult}
use yove.Xous.{Memory, heap_start}
use yove.Xous.Results
use yove.Xous.Pages.{pages_from, page_range, ensure_page}
use yove.Xous.Pages.Sound.{IsSound}
use yove.Xous.Pages.Core.{core-IsSound}
use yove.Xous.Pages.Later.{Later, Later-refl, Later-trans}
use yove.Xous.Pages.Ensure.Page.{Ensured, ensure_page-Ensured, returned}
use yove.Xous.Syscalls.{answer, failure, ensure_each, increase_heap, heap_address}

-- A sound state that has all that `m` had.
abbrev pub Grew : Memory → Memory → Type 0
Grew m t = IsSound t × Later m t

ensured-Grew :
    (m : Memory) (virt : ℕ) (r : Option Bool) (t : Memory) → Ensured m virt r t → Grew m t
ensured-Grew m virt none t h = (h.0, h.1)
ensured-Grew m virt (some a) t h = (h.0, h.1)

pub ensure_each-Grew :
    (n start : ℕ) (m : Memory)
    → IsSound m
    → start ≢ 0
    → start + n * 4096 ≤ 0xfffff000
    → Returns (ensure_each (pages_from start n) m) (λ r t. Grew m t)
unfolding ensure_each pages_from ◌>>=◌
ensure_each-Grew zero start m s h k = (s, Later-refl m)
ensure_each-Grew (suc n) start m s h k =
    let page =
      Returns-map (Ensured m start) (λ r t. Grew m t) (ensure_page start m)
        (ensure_page-Ensured start m s h (omega arith)) (ensured-Grew m start) in
    Returns-bind (λ r t. Grew m t) (λ r t. Grew m t) (ensure_page start)
      (λ _. ensure_each (pages_from (start + 4096) n)) m page
      (λ r t g.
        Returns-map (λ r u. Grew t u) (λ r u. Grew m u)
          (ensure_each (pages_from (start + 4096) n) t)
          (ensure_each-Grew n (start + 4096) t g.0 (omega arith) (omega arith))
          (λ r u f. (f.0, Later-trans m t u g.1 f.1)))

room : (a b : ℕ) → (a ≤ b) ⊎ (b < a)
room a b = omega arith

-- The size of the heap is no part of the promise of the page tables.
sized-IsSound : (m : Memory) (n : ℕ) → IsSound m → IsSound (record m { heap_size = n })
sized-IsSound m n s = core-IsSound m (record m { heap_size = n }) s

abbrev pub heap_most : ℕ
heap_most = 5 * 1024 * 1024

module _ (delta flags : ℕ) (m : Memory) (s : IsSound m) (bound : m.heap_size ≤ heap_most)
    (small : delta < 2 ^ 32) (aligned : delta % 4096 ≡ 0) (some_bytes : delta ≢ 0) where
  refused :
      heap_most < m.heap_size + delta
      → increase_heap delta flags m ≡ ok (failure Results.out_of_memory) m
  unfolding increase_heap ◌>>=◌
  refused h = ground (arith, bit_and_mask 12 delta)

  granted :
      (t : Memory)
      → m.heap_size + delta ≤ heap_most
      → ensure_each (page_range (heap_address m) (wrapping_add (heap_address m) delta)) m ≡ ok tt t
      → t.heap_size ≡ m.heap_size
      → increase_heap delta flags m
        ≡ ok
            (answer Results.memory_range (heap_start + m.heap_size) delta)
            (record t { heap_size = m.heap_size + delta })
  unfolding increase_heap ◌>>=◌
  granted t h e f = ground (arith, bit_and_mask 12 delta, e)

-- What `increase_heap` answers, and the size of the heap after it.
abbrev pub heap_answer : ℕ → Memory → SyscallResult
heap_answer delta m =
    if leb (m.heap_size + delta) heap_most
    then answer Results.memory_range (heap_start + m.heap_size) delta
    else failure Results.out_of_memory

abbrev pub heap_after : ℕ → Memory → ℕ
heap_after delta m =
    if leb (m.heap_size + delta) heap_most then m.heap_size + delta else m.heap_size

abbrev pub Increased : ℕ → Memory → SyscallResult → Memory → Type 0
Increased delta m r t =
    IsSound t
    × (r ≡ heap_answer delta m)
    × (t.heap_size ≡ heap_after delta m)
    × (t.heap_size ≤ heap_most)

-- From a sound state whose heap is not over its limit of 5 MB, and for a number of bytes that is a
-- positive multiple of the size of a page, `increase_heap` never panics and leaves a sound
-- state. If the heap has room for the bytes it grows by them, and the answer is the range after the
-- old heap; if not, it is as large as before, and the answer is that there is no memory.
pub increase_heap-Increased :
    (delta flags : ℕ) (m : Memory)
    → IsSound m
    → m.heap_size ≤ heap_most
    → delta < 2 ^ 32
    → delta % 4096 ≡ 0
    → delta ≢ 0
    → Returns (increase_heap delta flags m) (Increased delta m)
increase_heap-Increased delta flags m s b h a n = elim (room (m.heap_size + delta) heap_most) [
  | inl k ↦
      let pages = page_range (heap_address m) (wrapping_add (heap_address m) delta) in
      let each : Returns (ensure_each pages m) (λ r t. Grew m t) =
        ensure_each-Grew ((wrapping_add (heap_address m) delta - heap_address m + 4095) / 4096)
          (heap_address m) m s (omega arith) (omega arith) in
      let r = returned (λ (r : Unit {0}) t. Grew m t) (ensure_each pages m) each in
      subst (λ (o : Outcome Memory ⊥ SyscallResult). Returns o (Increased delta m))
        (sym (granted delta flags m s b h a n r.1 k r.2 r.3.1.heap_size))
        (sized-IsSound r.1 (m.heap_size + delta) r.3.0, ground arith, ground arith, k)
  | inr k ↦
      subst (λ (o : Outcome Memory ⊥ SyscallResult). Returns o (Increased delta m))
        (sym (refused delta flags m s b h a n k)) (s, ground arith, ground arith, b)
]
