-- ===== src/Xous/Pages/Core.antt =====
-- The fields of the memory that its page tables stand on (src/xous.rs).
use yove.Base.{ℕ, ◌≡◌, ◌≢◌, refl, true}
use yove.Base.OrderedSet.{contains}
use yove.Xous.{Memory}
use yove.Xous.Ram.{read_u8, read_u32}
use yove.Xous.Pages.{frame, virt_to_phys}
use yove.Xous.Pages.Words.{IsPage}
use yove.Xous.Pages.Sound.{Position, root, leaf, InRange, entry, is_live, IsSound}

-- The RAM and the pages of `m`, with the other fields of `r`.
abbrev pub with_core : Memory → Memory → Memory
with_core m r = record r {
  base = m.base;
  page_count = m.page_count;
  pages = m.pages;
  allocated_pages = m.allocated_pages;
  free_pages = m.free_pages;
  l1_pt = m.l1_pt;
}

-- Only those fields matter.
pub core-IsSound : (m r : Memory) → IsSound m → IsSound (with_core m r)
unfolding read_u32 read_u8
core-IsSound m r s =
    let page_same : (p : ℕ) → IsPage m p → IsPage (with_core m r) p =
      λ p i. record { start = i.start; low = i.low; high = i.high; nonzero = i.nonzero } in
    record {
      ram = record { aligned = s.ram.aligned; fits = s.ram.fits; words = s.ram.words };
      root_table = s.root_table;
      allocated = λ p c. page_same p (s.allocated p c);
      free = λ p c. (page_same p (s.free p c).0, (s.free p c).1);
      zeroed = s.zeroed;
      ascending = s.ascending;
      pointers = s.pointers;
      owned = owned;
      unique = unique;
    }
  where
    owned :
        (x : Position)
        → InRange x
        → is_live (with_core m r) x ≡ true
        → (contains (frame (entry (with_core m r) x)) m.allocated_pages ≡ true)
          × (frame (entry (with_core m r) x) ≢ m.l1_pt)
    owned (root i) h l = s.owned (root i) h l
    owned (leaf i j) h l = s.owned (leaf i j) h l

    unique :
        (x y : Position)
        → InRange x
        → InRange y
        → is_live (with_core m r) x ≡ true
        → is_live (with_core m r) y ≡ true
        → frame (entry (with_core m r) x) ≡ frame (entry (with_core m r) y)
        → x ≡ y
    unique (root i) (root k) h h' l l' f = s.unique (root i) (root k) h h' l l' f
    unique (root i) (leaf k n) h h' l l' f = s.unique (root i) (leaf k n) h h' l l' f
    unique (leaf i j) (root k) h h' l l' f = s.unique (leaf i j) (root k) h h' l l' f
    unique (leaf i j) (leaf k n) h h' l l' f = s.unique (leaf i j) (leaf k n) h h' l l' f

pub core-virt_to_phys : (m r : Memory) (v : ℕ) → virt_to_phys (with_core m r) v ≡ virt_to_phys m v
unfolding virt_to_phys read_u32 read_u8
core-virt_to_phys m r v = refl
