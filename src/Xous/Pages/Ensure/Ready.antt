-- ===== src/Xous/Pages/Ensure/Ready.antt =====
-- The states that a new page table entry leaves (src/xous.rs, ensure_page).
use yove.Base.{
  length, update_self, ◌+◌, ◌≤◌, update_ne, ℕ, ◌*◌, ◌/◌, ◌%◌, ◌^◌, ◌<◌, ◌≡◌, ◌≢◌, ◌⊎◌, inl, inr,
  refl, ap, ap₂, sym, ◌∙◌, Bool, true, false, not, ◌&&◌, Option, some, none, List, [], ◌∷◌,
  if◌then◌else◌, ◌==◌, bit_and, bit_or, bit_and_mask, bit_and_shifted, wrapping_add, update, ◌>>>◌,
  ◌<<<◌, arith,
}
use yove.Xous.{Memory}
use yove.Xous.Ram.{read_u8, read_u32}
use yove.Xous.Pages.{frame, is_invalid, pointer_flags, page_flags}
use yove.Xous.Pages.Words.{word, low-entry}
use yove.Xous.Pages.Sound.{
  dec_eq, Position, root, leaf, InRange, table, index, entry, is_live, IsSound, HasTable,
}
use yove.Xous.Ram.Laws.{write_u32_heap, write_u32_satp, write_u32_rest}
use yove.Xous.Pages.Core.{core-IsSound}
pub use yove.Xous.Pages.Later.{vpn1_of, vpn0_of, vpn1-lt, vpn0-lt, position}
use yove.Xous.Pages.Later.{IsCachedPage, Later, Grown-Later}
use yove.Xous.Pages.Grow.{Grown-IsSound}
use yove.Xous.Pages.Ensure.{taken, grow, page, grow-Grown, grow-words, table_page, index-lt}

module _ (m : Memory) (q : ℕ) (rest : List ℕ) (s : IsSound m) (e : m.free_pages ≡ q ∷ rest)
    (x : Position) (range : InRange x) (h : HasTable m x) (flags : ℕ) (small : flags < 2 ^ 10) where
  new_entry :
      table (grow q rest x flags m) x ≡ table m x
      → entry (grow q rest x flags m) x ≡ bit_or ((q >>> 12) <<< 10) flags
  new_entry f =
      ap (λ (p : ℕ). word (grow q rest x flags m) p (index x)) f
      ∙ grow-words m q rest s e x range h flags small (table m x) (index x)
          (table_page m x s range h) (index-lt x range)
      ∙ (let u : (if table m x == table m x && index x == index x
                then bit_or ((q >>> 12) <<< 10) flags
                else word m (table m x) (index x))
              ≡ bit_or ((q >>> 12) <<< 10) flags =
            ground arith in
          u)

  valid_entry : flags % 2 ≡ 1 → is_invalid (bit_or ((q >>> 12) <<< 10) flags) ≡ false
  valid_entry o =
      let w = bit_or ((q >>> 12) <<< 10) flags in
      ground (arith, bit_and_mask 1 w, low-entry m q flags s.ram (page m q rest s e) small)

-- What each part of `ensure_page` gives: a live entry of a sound state, or no page is left.
abbrev pub Ready : Memory → Position → Option (Bool × ℕ) → Memory → Type 0
Ready m x none t = IsSound t × Later m t × (t.free_pages ≡ []) × (m.free_pages ≡ [])
Ready m x (some (allocated, w)) t =
    IsSound t
    × Later m t
    × (is_live t x ≡ true)
    × (w ≡ entry t x)
    × (length m.free_pages ≤ 1 + length t.free_pages)

pub free_cases : (l : List ℕ) → (l ≡ []) ⊎ ((q : ℕ) × (rest : List ℕ) × (l ≡ q ∷ rest))
free_cases [] = inl refl
free_cases (q ∷ rest) = inr (q, rest, refl)

abbrev pub cached : ℕ → ℕ → Memory → Memory
cached virt q m = record m { translation_cache = update m.translation_cache (virt >>> 12) (some q) }

-- A state whose cache has the new page.
cached-Later :
    (m t : Memory) (virt q : ℕ) → IsCachedPage t virt q → Later m t → Later m (cached virt q t)
unfolding read_u32 read_u8
cached-Later m t virt q p' l = record {
  kept = kept;
  heap_size = l.heap_size;
  base = l.base;
  same_root = l.same_root;
  cached = now;
  contents = l.contents;
}
  where
    kept :
        (x : Position)
        → InRange x
        → is_live m x ≡ true
        → (is_live (cached virt q t) x ≡ true) × (entry (cached virt q t) x ≡ entry m x)
    kept (root i) r v = l.kept (root i) r v
    kept (leaf i j) r v = l.kept (leaf i j) r v

    moved : (v : ℕ) → v >>> 12 ≡ virt >>> 12 → position v ≡ position virt
    moved v e =
        ap₂ leaf (omega (arith, bit_and_mask 10 (v >>> 22), bit_and_mask 10 (virt >>> 22)))
          (ap (λ (k : ℕ). bit_and k 0x3ff) e)

    now :
        (v p : ℕ)
        → (cached virt q t).translation_cache (v >>> 12) ≡ some p
        → (m.translation_cache (v >>> 12) ≡ some p) ⊎ IsCachedPage (cached virt q t) v p
    now v p c = elim (dec_eq (v >>> 12) (virt >>> 12)) [
      | inl e ↦
          let u : some q ≡ some p =
            sym (update_self t.translation_cache (virt >>> 12) (some q))
            ∙ ap (cached virt q t).translation_cache (sym e)
            ∙ c in
          let f : q ≡ p = ground arith in
          inr (
            ap (is_live t) (moved v e) ∙ p'.0,
            sym f ∙ p'.1 ∙ ap (λ (x : Position). frame (entry t x)) (sym (moved v e)),
          )
      | inr n ↦ l.cached v p (
          sym (update_ne t.translation_cache (virt >>> 12) (v >>> 12) (some q) (λ e. n (sym e)))
          ∙ c)
    ]

pub cached-Ready :
    (virt q : ℕ) (m t : Memory) (w : Bool × ℕ)
    → frame w.1 ≡ q
    → Ready m (position virt) (some w) t
    → Ready m (position virt) (some w) (cached virt q t)
unfolding read_u32 read_u8
cached-Ready virt q m t w f r = (
  core-IsSound t (cached virt q t) r.0,
  cached-Later m t virt q (r.2, sym f ∙ ap frame r.3) r.1,
  r.2,
  r.3,
  r.4,
)

pub boolean : (b : Bool) → (b ≡ true) ⊎ (b ≡ false)
boolean true = inl refl
boolean false = inr refl

pub valid_cases : (w : ℕ) → (is_invalid w ≡ false) ⊎ (is_invalid w ≡ true)
valid_cases w = ground arith

leaf_is_not_root : {i j k : ℕ} → leaf i j ≢ root k
leaf_is_not_root e = cc

pointer_low : (w : ℕ) → w % 2 ^ 10 ≡ pointer_flags → bit_and w 0xe ≡ 0
pointer_low w h =
    (let u : bit_and w (7 * 2 ^ 1) ≡ bit_and (w / 2 ^ 1) 7 * 2 ^ 1 = bit_and_shifted 1 7 w in
      omega (arith, u, bit_and_mask 3 (w / 2 ^ 1)))

spent : (k l rest : List ℕ) (q : ℕ) → k ≡ q ∷ rest → l ≡ rest → length k ≤ 1 + length l
spent k l rest q e f = omega (arith, ap length e, ap length f)

module _ (m : Memory) (s : IsSound m) (q : ℕ) (rest : List ℕ) (e : m.free_pages ≡ q ∷ rest) where
  pub root-Ready :
      (i : ℕ)
      → i < 1024
      → is_invalid (entry m (root i)) ≡ true
      → Ready m
          (root i)
          (some (true, bit_or ((q >>> 12) <<< 10) pointer_flags))
          (grow q rest (root i) pointer_flags m)
  root-Ready i r d =
      let w = bit_or ((q >>> 12) <<< 10) pointer_flags in
      let t = grow q rest (root i) pointer_flags m in
      let g = grow-Grown m q rest s e (root i) r tt pointer_flags (omega arith) in
      let n : entry t (root i) ≡ w =
        new_entry m q rest s e (root i) r tt pointer_flags (omega arith) g.l1_pt in
      let low = low-entry m q pointer_flags s.ram (page m q rest s e) (omega arith) in
      (
        Grown-IsSound m t q rest w s (root i) g tt (λ _ _. pointer_low w low),
        Grown-Later m t q rest w s (root i) g tt d
            (write_u32_heap (taken q rest m) (wrapping_add m.l1_pt (i * 4)) w)
            (write_u32_rest (taken q rest m) (wrapping_add m.l1_pt (i * 4)) w).3
            (write_u32_satp (taken q rest m) (wrapping_add m.l1_pt (i * 4)) w),
        ap (λ (x : ℕ). not (is_invalid x)) n
            ∙ ap not
                (valid_entry m q rest s e (root i) r tt pointer_flags (omega arith) (omega arith)),
        sym n,
        spent m.free_pages t.free_pages rest q e g.free_pages,
      )

  pub leaf-Ready :
      (i j : ℕ)
      → i < 1024
      → j < 1024
      → is_live m (root i) ≡ true
      → is_invalid (entry m (leaf i j)) ≡ true
      → Ready m
          (leaf i j)
          (some (true, bit_or ((q >>> 12) <<< 10) page_flags))
          (grow q rest (leaf i j) page_flags m)
  leaf-Ready i j r r' l d =
      let w = bit_or ((q >>> 12) <<< 10) page_flags in
      let t = grow q rest (leaf i j) page_flags m in
      let g = grow-Grown m q rest s e (leaf i j) (r, r') l page_flags (omega arith) in
      let apart = (s.owned (root i) r l).1 in
      let o : (if frame (entry m (root i)) == m.l1_pt && j == i then w else word m m.l1_pt i)
          ≡ entry m (root i) =
        ground arith in
      let k : entry t (root i) ≡ entry m (root i) =
        ap (λ (p : ℕ). word t p i) g.l1_pt
        ∙ g.words m.l1_pt i (s.allocated m.l1_pt s.root_table) r
        ∙ o in
      let n : entry t (leaf i j) ≡ w =
        new_entry m q rest s e (leaf i j) (r, r') l page_flags (omega arith) (ap frame k) in
      let v : is_invalid (entry t (leaf i j)) ≡ false =
        ap is_invalid n
        ∙ valid_entry m q rest s e (leaf i j) (r, r') l page_flags (omega arith) (omega arith) in
      let u : not (is_invalid (entry t (root i))) ≡ true =
        ap (λ (x : ℕ). not (is_invalid x)) k ∙ l in
      (
        Grown-IsSound m t q rest w s (leaf i j) g l (λ k f. absurd (leaf_is_not_root f)),
        Grown-Later m t q rest w s (leaf i j) g l d
            (write_u32_heap (taken q rest m) (wrapping_add (table m (leaf i j)) (j * 4)) w)
            (write_u32_rest (taken q rest m) (wrapping_add (table m (leaf i j)) (j * 4)) w).3
            (write_u32_satp (taken q rest m) (wrapping_add (table m (leaf i j)) (j * 4)) w),
        ap₂ ◌&&◌ u (ap not v),
        sym n,
        spent m.free_pages t.free_pages rest q e g.free_pages,
      )
