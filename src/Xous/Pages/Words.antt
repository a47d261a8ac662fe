-- ===== src/Xous/Pages/Words.antt =====
-- The words of pages, and the entries of page tables (src/xous.rs).
use yove.Base.{
  ℕ, ◌+◌, ◌-◌, ◌*◌, ◌/◌, ◌%◌, ◌^◌, ◌<◌, ◌≤◌, ◌≡◌, ◌≢◌, ◌⊎◌, inl, inr, ap, sym, ◌∙◌, ◌&&◌,
  if◌then◌else◌, ◌==◌, bit_or, bit_or_fields, wrapping_add, ◌>>>◌, ◌<<<◌, arith,
}
use yove.Xous.{Memory}
use yove.Xous.Ram.{place, read_u32, write_u32}
use yove.Xous.Ram.Bytes.{IsRam, size}
use yove.Xous.Ram.Laws.{read_u32_same, read_u32_other}
use yove.Xous.Pages.{frame}

-- The address of a page of the RAM.
pub record IsPage (m : Memory) (p : ℕ) : Type 0 where
  pub start : p % 2 ^ 12 ≡ 0
  pub low : m.base ≤ p
  pub high : p + 2 ^ 12 ≤ m.base + size m
  pub nonzero : p ≢ 0

-- Word j of a page.
abbrev pub word : Memory → ℕ → ℕ → ℕ
word m p j = read_u32 m (wrapping_add p (j * 4))

abbrev pub with_word : ℕ → ℕ → ℕ → Memory → Memory
with_word p j v m = write_u32 m (wrapping_add p (j * 4)) v

pub page_place :
    (m : Memory) (p j : ℕ)
    → IsRam m
    → IsPage m p
    → j < 1024
    → place m (wrapping_add p (j * 4)) ≡ p - m.base + j * 4
page_place m p j r s h = omega (arith, r.fits, r.aligned, s.start, s.low, s.high)

apart :
    (m : Memory) (p q i j : ℕ)
    → IsRam m
    → IsPage m p
    → IsPage m q
    → i < 1024
    → j < 1024
    → ((p ≡ q) × (i ≡ j))
      ⊎ ((p - m.base + i * 4 + 4 ≤ q - m.base + j * 4)
          ⊎ (q - m.base + j * 4 + 4 ≤ p - m.base + i * 4))
apart m p q i j r s t h k = omega (arith, r.aligned, s.start, s.low, t.start, t.low)

pub in_ram :
    (m : Memory) (p j : ℕ)
    → IsRam m
    → IsPage m p
    → j < 1024
    → place m (wrapping_add p (j * 4)) + 3 < size m
in_ram m p j r s h = omega (arith, page_place m p j r s h, s.low, s.high, s.start)

pub word-with_word :
    (m : Memory) (p q i j v : ℕ)
    → IsRam m
    → IsPage m p
    → IsPage m q
    → i < 1024
    → j < 1024
    → v < 2 ^ 32
    → word (with_word p i v m) q j ≡ (if p == q && i == j then v else word m q j)
word-with_word m p q i j v r s t h k l =
    let a = wrapping_add p (i * 4) in
    let b = wrapping_add q (j * 4) in
    let pa = page_place m p i r s h in
    let pb = page_place m q j r t k in
    elim (apart m p q i j r s t h k) [
      | inl (e, f) ↦
          let g : a ≡ b = omega arith in
          let same : word (with_word p i v m) q j ≡ v =
            ap (read_u32 (with_word p i v m)) (sym g)
            ∙ read_u32_same m a v r (omega arith) l (in_ram m p i r s h) in
          ground arith
      | inr d ↦
          let other : word (with_word p i v m) q j ≡ word m q j =
            read_u32_other m a v r (omega arith) l (in_ram m p i r s h) b (omega arith)
              (in_ram m q j r t k) (ground (arith, d)) in
          ground (arith, d, s.low, t.low)
    ]

-- An entry that points to a page: its frame is the page, and its flags are in the low bits.
module _ (m : Memory) (p flags : ℕ) (r : IsRam m) (s : IsPage m p) (h : flags < 2 ^ 10) where
  entry_value : bit_or ((p >>> 12) <<< 10) flags ≡ p / 2 ^ 12 * 2 ^ 10 + flags
  entry_value =
      let e : (p >>> 12) <<< 10 ≡ p / 2 ^ 12 * 2 ^ 10 = omega (arith, r.fits, s.high) in
      ap (λ x. bit_or x flags) e ∙ bit_or_fields 10 (p / 2 ^ 12) flags h

  pub entry-lt : bit_or ((p >>> 12) <<< 10) flags < 2 ^ 32
  entry-lt = omega (arith, entry_value, r.fits, s.high)

  pub frame-entry : frame (bit_or ((p >>> 12) <<< 10) flags) ≡ p
  frame-entry = omega (arith, entry_value, r.fits, s.high, s.start)

  pub low-entry : bit_or ((p >>> 12) <<< 10) flags % 2 ^ 10 ≡ flags
  low-entry = omega (arith, entry_value)
