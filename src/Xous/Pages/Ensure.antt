-- ===== src/Xous/Pages/Ensure.antt =====
-- `ensure_page` keeps the promise of the page tables and never panics (src/xous.rs).
pub mod Page
pub mod Ready
use yove.Base.{
  ℕ, ◌+◌, ◌-◌, ◌*◌, ◌/◌, ◌%◌, ◌^◌, ◌<◌, ◌≤◌, ◌≡◌, ◌≢◌, ◌⊎◌, inl, inr, refl, subst, ap, ap₂, sym,
  ◌∙◌, Bool, true, false, not, ◌&&◌, ◌||◌, Option, some, none, List, [], ◌∷◌, if◌then◌else◌, ◌==◌,
  ltb, bit_and, bit_or, bit_and_mask, u32, wrapping_add, update, ◌>>>◌, ◌<<<◌, arith,
}
use yove.Base.OrderedSet.{contains, insert, pop_first}
use yove.Base.Exec.{Outcome, Exec, ok, err, panic, pure, gets, modify, ◌>>=◌, ◌>>◌}
use yove.Base.Exec.Returns.{Returns, Returns-bind, Returns-map}
use yove.Xous.{Memory, Action}
use yove.Xous.Ram.{read_u8, read_u32, write_u8, write_u32}
use yove.Xous.Ram.Bytes.{IsRam}
use yove.Xous.Ram.Laws.{write_u32-IsRam, write_u32_frame, write_u32_rest}
use yove.Xous.Pages.{
  frame, is_invalid, pointer_flags, page_flags, allocate_phys_page, ensure_table, ensure_mapping,
  ensure_page, virt_to_phys, l1_address, l0_address,
}
use yove.Xous.Pages.Words.{
  IsPage, word, with_word, word-with_word, frame-entry, entry-lt, low-entry,
}
use yove.Xous.Pages.Sound.{
  Position, root, leaf, InRange, table, index, entry, is_live, IsSound, Grown, HasTable, true-false,
}
use yove.Xous.Pages.Grow.{Grown-IsSound}

-- The state after a page is taken from the free ones.
abbrev pub taken : ℕ → List ℕ → Memory → Memory
taken q rest m = record m {
  free_pages = rest;
  allocated_pages = insert q m.allocated_pages;
  allocated_bytes = wrapping_add m.allocated_bytes 4096;
}

module _ (m : Memory) (q : ℕ) (rest : List ℕ) (s : IsSound m) (e : m.free_pages ≡ q ∷ rest) where
  first_free : contains q m.free_pages ≡ true
  first_free = rw e (ground arith)

  pub page : IsPage m q
  page = (s.free q first_free).0

  fresh : contains q m.allocated_pages ≡ false
  fresh = (s.free q first_free).1

  pub allocate_lem : allocate_phys_page m ≡ ok (some q) (taken q rest m)
  unfolding allocate_phys_page ◌>>=◌
  allocate_lem = ground (arith, fresh, page.nonzero, page.high, s.ram.fits)

pub allocate_none : (m : Memory) → m.free_pages ≡ [] → allocate_phys_page m ≡ ok none m
unfolding allocate_phys_page ◌>>=◌
allocate_none m e = ground arith

taken-IsRam : (q : ℕ) (rest : List ℕ) (m : Memory) → IsRam m → IsRam (taken q rest m)
taken-IsRam q rest m r = record { aligned = r.aligned; fits = r.fits; words = r.words }

taken-IsPage : (q : ℕ) (rest : List ℕ) (m : Memory) (p : ℕ) → IsPage m p → IsPage (taken q rest m) p
taken-IsPage q rest m p i = record {
  start = i.start;
  low = i.low;
  high = i.high;
  nonzero = i.nonzero;
}

taken-word : (q : ℕ) (rest : List ℕ) (m : Memory) (p j : ℕ) → word (taken q rest m) p j ≡ word m p j
unfolding read_u32 read_u8
taken-word q rest m p j = refl

pub table_page :
    (m : Memory) (x : Position) → IsSound m → InRange x → HasTable m x → IsPage m (table m x)
table_page m (root i) s r h = s.allocated m.l1_pt s.root_table
table_page m (leaf i j) s r h = s.allocated _ (s.owned (root i) r.0 h).0

pub index-lt : (x : Position) → InRange x → index x < 1024
index-lt (root i) r = r
index-lt (leaf i j) r = r.1

-- The state after the new entry is written.
abbrev pub grow : ℕ → List ℕ → Position → ℕ → Memory → Memory
grow q rest x flags m =
    with_word (table m x) (index x) (bit_or ((q >>> 12) <<< 10) flags) (taken q rest m)

module _ (m : Memory) (q : ℕ) (rest : List ℕ) (s : IsSound m) (e : m.free_pages ≡ q ∷ rest)
    (x : Position) (range : InRange x) (h : HasTable m x) (flags : ℕ) (small : flags < 2 ^ 10) where
  pub grow-words :
      (p j : ℕ)
      → IsPage m p
      → j < 1024
      → word (grow q rest x flags m) p j
        ≡ (if table m x == p && index x == j then bit_or ((q >>> 12) <<< 10) flags else word m p j)
  grow-words p j i k =
      word-with_word (taken q rest m) (table m x) p (index x) j _ (taken-IsRam q rest m s.ram)
        (taken-IsPage q rest m _ (table_page m x s range h)) (taken-IsPage q rest m p i)
        (index-lt x range) k (entry-lt m q flags s.ram (page m q rest s e) small)
      ∙ ap
          (λ (w : ℕ).
            if table m x == p && index x == j then bit_or ((q >>> 12) <<< 10) flags else w)
          (taken-word q rest m p j)

  pub grow-Grown : Grown m (grow q rest x flags m) q rest x (bit_or ((q >>> 12) <<< 10) flags)
  grow-Grown =
      let a = wrapping_add (table m x) (index x * 4) in
      let f = write_u32_frame (taken q rest m) a (bit_or ((q >>> 12) <<< 10) flags) in
      let o = write_u32_rest (taken q rest m) a (bit_or ((q >>> 12) <<< 10) flags) in
      record {
        first = e;
        range = range;
        base = f.0;
        page_count = f.1;
        l1_pt = o.0;
        free_pages = o.1;
        allocated_pages = o.2;
        ram =
            write_u32-IsRam (taken q rest m) a _
              (entry-lt m q flags s.ram (page m q rest s e) small) (taken-IsRam q rest m s.ram);
        frame_is = frame-entry m q flags s.ram (page m q rest s e) small;
        words = grow-words;
      }
