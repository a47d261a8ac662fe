-- ===== src/Xous/Pages/New.antt =====
-- `Memory::new` (src/xous.rs).
use yove.Base.{
  ℕ, zero, suc, ◌+◌, ◌-◌, ◌*◌, ◌/◌, ◌%◌, ◌^◌, ◌<◌, ◌≤◌, ◌≡◌, inl, inr, refl, subst, ap, sym, ◌∙◌,
  true, false, not, ◌&&◌, ◌==◌, wrapping_add, arith,
}
use yove.Base.OrderedSet.{contains, is_below, is_ascending, contains-remove, is_ascending-remove}
use yove.Xous.{memory_base}
use yove.Xous.Ram.{from_le_bytes, read_u8, read_u32}
use yove.Xous.Ram.Bytes.{IsRam}
use yove.Xous.Pages.{pages_from, new, is_invalid}
use yove.Xous.Pages.Words.{IsPage}
use yove.Xous.Pages.Sound.{Position, root, leaf, is_live, IsSound, true-false, dec_eq}

pages_from-below : (a s n : ℕ) → a < s → is_below a (pages_from s n) ≡ true
unfolding pages_from
pages_from-below a s zero h = refl
pages_from-below a s (suc n) h = ground (arith, pages_from-below a (s + 4096) n (omega arith))

pages_from-ascending : (s n : ℕ) → is_ascending (pages_from s n) ≡ true
unfolding pages_from
pages_from-ascending s zero = refl
pages_from-ascending s (suc n) =
    ground (arith, pages_from-below s (s + 4096) n (omega arith), pages_from-ascending (s + 4096) n)

-- The members are the starts of the pages.
page_start :
    (p s n : ℕ)
    → contains p (pages_from s n) ≡ true
    → (s ≤ p) × (p + 4096 ≤ s + n * 4096) × ((p - s) % 4096 ≡ 0)
unfolding pages_from
page_start p s zero h = absurd (true-false (sym h))
page_start p s (suc n) h = elim (dec_eq s p) [
  | inl e ↦ (omega arith, omega arith, omega arith)
  | inr e ↦
      let i = page_start p (s + 4096) n (ground arith) in
      (omega (arith, i.0), omega (arith, i.1), omega (arith, i.0, i.2))
]

module _ (n : ℕ) (low : 2 * 4096 ≤ n) (high : memory_base + n + 4095 ≤ 2 ^ 32) where
  read_zero : (a : ℕ) → read_u32 (new memory_base n) a ≡ 0
  unfolding new read_u32 read_u8 from_le_bytes
  read_zero a = ground arith

  dead_root : (i : ℕ) → ¬ (is_live (new memory_base n) (root i) ≡ true)
  dead_root i l =
      let z =
        ap (λ (w : ℕ). not (is_invalid w))
          (read_zero (wrapping_add (new memory_base n).l1_pt (i * 4))) in
      true-false (sym l ∙ z)

  dead : (x : Position) → ¬ (is_live (new memory_base n) x ≡ true)
  dead (root i) l = dead_root i l
  dead (leaf i j) l = dead_root i (ground (arith, l))

  fresh_page :
      (p : ℕ)
      → contains p (pages_from memory_base ((n + 4095) / 4096)) ≡ true
      → IsPage (new memory_base n) p
  unfolding new
  fresh_page p c =
      let i = page_start p memory_base ((n + 4095) / 4096) c in
      record { start = omega (arith, i); low = i.0; high = i.1; nonzero = omega (arith, i.0) }

  root_page : IsPage (new memory_base n) (memory_base + 4096)
  unfolding new
  root_page = record {
    start = omega arith;
    low = omega arith;
    high = omega arith;
    nonzero = omega arith;
  }

  free_is :
      (p : ℕ)
      → contains p (new memory_base n).free_pages
        ≡ (not (memory_base + 4096 == p) && contains p (pages_from memory_base ((n + 4095) / 4096)))
  unfolding new
  free_is p =
      contains-remove (memory_base + 4096) p _
        (pages_from-ascending memory_base ((n + 4095) / 4096))

  allocated_is :
      (p : ℕ) → contains p (new memory_base n).allocated_pages ≡ (memory_base + 4096 == p)
  unfolding new
  allocated_is p = ground arith

  new-IsRam : IsRam (new memory_base n)
  unfolding new
  new-IsRam = record { aligned = omega arith; fits = omega arith; words = λ _ _. omega arith }

  new_ascending : is_ascending (new memory_base n).free_pages ≡ true
  unfolding new
  new_ascending =
      is_ascending-remove (memory_base + 4096) (pages_from memory_base ((n + 4095) / 4096))
        (pages_from-ascending memory_base ((n + 4095) / 4096))

  new_root : (new memory_base n).l1_pt ≡ memory_base + 4096
  unfolding new
  new_root = refl

  new_allocated :
      (p : ℕ) → contains p (new memory_base n).allocated_pages ≡ true → IsPage (new memory_base n) p
  new_allocated p c =
      let u : (memory_base + 4096 == p) ≡ true = sym (allocated_is p) ∙ c in
      subst (IsPage (new memory_base n)) (let e : memory_base + 4096 ≡ p = ground arith in e)
        root_page

  new_free :
      (p : ℕ)
      → contains p (new memory_base n).free_pages ≡ true
      → IsPage (new memory_base n) p × (contains p (new memory_base n).allocated_pages ≡ false)
  new_free p c =
      let u : (not (memory_base + 4096 == p)
            && contains p (pages_from memory_base ((n + 4095) / 4096)))
          ≡ true =
        sym (free_is p) ∙ c in
      (fresh_page p (ground arith), allocated_is p ∙ ground arith)

-- The memory that `Memory::new` makes of at least two pages of RAM, up to the end of the address
-- space, is sound.
pub new-IsSound :
    (n : ℕ) → 2 * 4096 ≤ n → memory_base + n + 4095 ≤ 2 ^ 32 → IsSound (new memory_base n)
new-IsSound n low high = record {
  ram = new-IsRam n low high;
  root_table =
      ap (λ (p : ℕ). contains p (new memory_base n).allocated_pages) (new_root n low high)
      ∙ allocated_is n low high (memory_base + 4096);
  allocated = new_allocated n low high;
  free = new_free n low high;
  zeroed = λ p j _ _. read_zero n low high (wrapping_add p (j * 4));
  ascending = new_ascending n low high;
  pointers = λ i _ l. absurd (dead n low high (root i) l);
  owned = λ x _ l. absurd (dead n low high x l);
  unique = λ x y _ _ l _ _. absurd (dead n low high x l);
}
