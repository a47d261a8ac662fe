-- ===== src/Xous/Pages/Bytes.antt =====
-- One byte written at the address of a live page (src/xous.rs, `write_u8` after `virt_to_phys`): what
-- it leaves of the page tables and of the other pages.
use yove.Base.{
  ℕ, ◌+◌, ◌-◌, ◌*◌, ◌^◌, ◌<◌, ◌≤◌, ◌≡◌, ◌⊎◌, refl, subst, ap, ap₂, sym, ◌∙◌, ◌∷◌, if◌then◌else◌,
  ◌==◌, update, wrapping_add, arith,
}
use yove.Xous.{Memory}
use yove.Xous.Ram.{place, replaced, page_of, index_of, pos_of, write_u8, from_le_bytes}
use yove.Xous.Ram.Bytes.{IsRam, size, peek, bytes_from, read_u32-peek, write_u8-poke, peek-poke}
use yove.Xous.Ram.Laws.{write_u8-IsRam}
use yove.Xous.Pages.Words.{IsPage, word, page_place, in_ram}

-- The state after the write, for a place that the RAM has.
abbrev pub stored : Memory → ℕ → ℕ → Memory
stored m p b = record m {
  pages = update m.pages (page_of m p) (
      update (m.pages (page_of m p)) (index_of m p)
        (replaced 0xff (pos_of m p) (m.pages (page_of m p) (index_of m p)) b));
}

pub stored_lem : (m : Memory) (p b : ℕ) → place m p < size m → write_u8 m p b ≡ stored m p b
unfolding write_u8
stored_lem m p b h = ground arith

module _ (m : Memory) (p b : ℕ) (r : IsRam m) (h : place m p < size m) (small : b < 2 ^ 8) where
  pub stored-IsRam : IsRam (stored m p b)
  stored-IsRam = subst IsRam (stored_lem m p b h) (write_u8-IsRam m p b r)

  pub stored-peek : (i : ℕ) → peek (stored m p b) i ≡ (if place m p == i then b else peek m i)
  stored-peek i =
      ap (λ t. peek t i) (sym (stored_lem m p b h) ∙ write_u8-poke m p b)
      ∙ peek-poke (place m p) i b m h small

  -- Four bytes that the place is none of.
  same_bytes :
      (l : ℕ) → (place m p < l) ⊎ (l + 4 ≤ place m p) → bytes_from (stored m p b) l ≡ bytes_from m l
  unfolding bytes_from
  same_bytes l d = ap₂ ◌∷◌ (at l (omega arith) (omega arith)) (
      ap₂ ◌∷◌ (at (l + 1) (omega arith) (omega arith)) (
        ap₂ ◌∷◌ (at (l + 2) (omega arith) (omega arith))
          (ap₂ ◌∷◌ (at (l + 3) (omega arith) (omega arith)) refl)))
    where
      at : (i : ℕ) → l ≤ i → i < l + 4 → peek (stored m p b) i ≡ peek m i
      at i g k = ground (arith, stored-peek i, d)

  -- The words of a page that the place is not in.
  pub stored-word :
      (q j : ℕ)
      → IsPage m q
      → j < 1024
      → (place m p < q - m.base) ⊎ (q - m.base + 2 ^ 12 ≤ place m p)
      → word (stored m p b) q j ≡ word m q j
  stored-word q j g k d =
      let a = wrapping_add q (j * 4) in
      let f = page_place m q j r g k in
      let w = in_ram m q j r g k in
      read_u32-peek (stored m p b) a stored-IsRam (omega arith) w
      ∙ ap from_le_bytes (same_bytes (place m a) (ground (arith, d, f)))
      ∙ sym (read_u32-peek m a r (omega arith) w)
