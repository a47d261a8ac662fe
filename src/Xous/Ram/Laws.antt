-- ===== src/Xous/Ram/Laws.antt =====
-- Words of the RAM read back, at every alignment (src/xous.rs, read_u32 and write_u32).
use yove.Base.{
  ℕ, ◌+◌, ◌/◌, ◌%◌, ◌^◌, ◌<◌, ◌≤◌, ◌≡◌, ◌⊎◌, refl, ap, ap₂, sym, ◌∙◌, if◌then◌else◌, ◌==◌, bit_and,
  bit_or-lt, bit_and-le, complement, ◌<<<◌, wrapping_add, wrapping_sub, Bool, true, false, arith,
  ◌∷◌,
}
use yove.Xous.{Memory}
use yove.Xous.Ram.{
  set_word, page_of, index_of, place, replaced, from_le_bytes, write_u8, read_u32, write_u32,
}
use yove.Xous.Ram.Word.{byte}
use yove.Xous.Ram.Bytes.{
  Wrote, byte_of, IsRam, size, peek, bytes_from, four_bytes, read_u32-peek, write_u32-peek,
  same_frame,
}

replaced-lt : (mask pos old v : ℕ) → old < 2 ^ 32 → replaced mask pos old v < 2 ^ 32
replaced-lt mask pos old v h =
    bit_or-lt 32 _ _ (omega (arith, bit_and-le old old (complement (mask <<< pos)) (omega arith)))
      (omega arith)

set_word-IsRam : (p i v : ℕ) (m : Memory) → v < 2 ^ 32 → IsRam m → IsRam (set_word p i v m)
set_word-IsRam p i v m h r = record {
  aligned = ground (arith, r.aligned);
  fits = ground (arith, r.fits);
  words = λ q j. ground (arith, r.words q j);
}

pub write_u8-IsRam : (m : Memory) (a v : ℕ) → IsRam m → IsRam (write_u8 m a v)
unfolding write_u8
write_u8-IsRam m a v r = set_word-IsRam _ _ _ m (replaced-lt 0xff _ _ v (r.words _ _)) r

either : (b : Bool) {m t : Memory} → IsRam m → IsRam t → IsRam (if b then m else t)
either true r s = r
either false r s = s

pub write_u32-IsRam : (m : Memory) (a v : ℕ) → v < 2 ^ 32 → IsRam m → IsRam (write_u32 m a v)
unfolding write_u32
write_u32-IsRam m a v h r =
    let m1 = write_u8-IsRam m a (v % 2 ^ 8) r in
    let m2 = write_u8-IsRam _ (wrapping_add a 1) (v / 2 ^ 8 % 2 ^ 8) m1 in
    let m3 = write_u8-IsRam _ (wrapping_add a 2) (v / 2 ^ 16 % 2 ^ 8) m2 in
    either (bit_and a 3 == 0) (set_word-IsRam (page_of m a) (index_of m a) v m h r)
      (write_u8-IsRam _ (wrapping_add a 3) (v / 2 ^ 24) m3)

same_rest :
    (m : Memory) (a v : ℕ)
    → ((write_u8 m a v).l1_pt ≡ m.l1_pt)
      × ((write_u8 m a v).free_pages ≡ m.free_pages)
      × ((write_u8 m a v).allocated_pages ≡ m.allocated_pages)
      × ((write_u8 m a v).translation_cache ≡ m.translation_cache)
unfolding write_u8
same_rest m a v = ground arith

-- A write to the RAM changes nothing that is kept about its pages.
pub write_u32_rest :
    (m : Memory) (a v : ℕ)
    → ((write_u32 m a v).l1_pt ≡ m.l1_pt)
      × ((write_u32 m a v).free_pages ≡ m.free_pages)
      × ((write_u32 m a v).allocated_pages ≡ m.allocated_pages)
      × ((write_u32 m a v).translation_cache ≡ m.translation_cache)
unfolding write_u32
write_u32_rest m a v =
    let m1 = write_u8 m a (v % 2 ^ 8) in
    let m2 = write_u8 m1 (wrapping_add a 1) (v / 2 ^ 8 % 2 ^ 8) in
    let m3 = write_u8 m2 (wrapping_add a 2) (v / 2 ^ 16 % 2 ^ 8) in
    ground (
      arith,
      same_rest m a (v % 2 ^ 8),
      same_rest m1 (wrapping_add a 1) (v / 2 ^ 8 % 2 ^ 8),
      same_rest m2 (wrapping_add a 2) (v / 2 ^ 16 % 2 ^ 8),
      same_rest m3 (wrapping_add a 3) (v / 2 ^ 24),
    )

same_heap : (m : Memory) (a v : ℕ) → (write_u8 m a v).heap_size ≡ m.heap_size
unfolding write_u8
same_heap m a v = ground arith

-- Nor the size of the heap.
pub write_u32_heap : (m : Memory) (a v : ℕ) → (write_u32 m a v).heap_size ≡ m.heap_size
unfolding write_u32
write_u32_heap m a v =
    let m1 = write_u8 m a (v % 2 ^ 8) in
    let m2 = write_u8 m1 (wrapping_add a 1) (v / 2 ^ 8 % 2 ^ 8) in
    let m3 = write_u8 m2 (wrapping_add a 2) (v / 2 ^ 16 % 2 ^ 8) in
    ground (
      arith,
      same_heap m a (v % 2 ^ 8),
      same_heap m1 (wrapping_add a 1) (v / 2 ^ 8 % 2 ^ 8),
      same_heap m2 (wrapping_add a 2) (v / 2 ^ 16 % 2 ^ 8),
      same_heap m3 (wrapping_add a 3) (v / 2 ^ 24),
    )

same_satp : (m : Memory) (a v : ℕ) → (write_u8 m a v).satp ≡ m.satp
unfolding write_u8
same_satp m a v = ground arith

-- Nor the register for the page tables.
pub write_u32_satp : (m : Memory) (a v : ℕ) → (write_u32 m a v).satp ≡ m.satp
unfolding write_u32
write_u32_satp m a v =
    let m1 = write_u8 m a (v % 2 ^ 8) in
    let m2 = write_u8 m1 (wrapping_add a 1) (v / 2 ^ 8 % 2 ^ 8) in
    let m3 = write_u8 m2 (wrapping_add a 2) (v / 2 ^ 16 % 2 ^ 8) in
    ground (
      arith,
      same_satp m a (v % 2 ^ 8),
      same_satp m1 (wrapping_add a 1) (v / 2 ^ 8 % 2 ^ 8),
      same_satp m2 (wrapping_add a 2) (v / 2 ^ 16 % 2 ^ 8),
      same_satp m3 (wrapping_add a 3) (v / 2 ^ 24),
    )

-- A write changes neither the place nor the size of the RAM.
pub write_u32_frame :
    (m : Memory) (a v : ℕ)
    → ((write_u32 m a v).base ≡ m.base) × ((write_u32 m a v).page_count ≡ m.page_count)
unfolding write_u32
write_u32_frame m a v =
    let m1 = write_u8 m a (v % 2 ^ 8) in
    let m2 = write_u8 m1 (wrapping_add a 1) (v / 2 ^ 8 % 2 ^ 8) in
    let m3 = write_u8 m2 (wrapping_add a 2) (v / 2 ^ 16 % 2 ^ 8) in
    ground (
      arith,
      same_frame m a (v % 2 ^ 8),
      same_frame m1 (wrapping_add a 1) (v / 2 ^ 8 % 2 ^ 8),
      same_frame m2 (wrapping_add a 2) (v / 2 ^ 16 % 2 ^ 8),
      same_frame m3 (wrapping_add a 3) (v / 2 ^ 24),
    )

written_bytes :
    (m t : Memory) (l v : ℕ) → v < 2 ^ 32 → Wrote m l v t → from_le_bytes (bytes_from t l) ≡ v
unfolding bytes_from
written_bytes m t l v h w =
    ap from_le_bytes (
      ap₂ ◌∷◌ (at 0 l (omega arith) (omega arith)) (
        ap₂ ◌∷◌ (at 1 (l + 1) (omega arith) (omega arith)) (
          ap₂ ◌∷◌ (at 2 (l + 2) (omega arith) (omega arith))
            (ap₂ ◌∷◌ (at 3 (l + 3) (omega arith) (omega arith)) refl))))
    ∙ four_bytes v h
  where
    at : (n i : ℕ) → n < 4 → i ≡ l + n → peek t i ≡ byte n v
    at n i h e = ground (arith, w i, byte_of v i l n)

other_bytes :
    (m t : Memory) (l k v : ℕ)
    → (k + 4 ≤ l) ⊎ (l + 4 ≤ k)
    → Wrote m l v t
    → bytes_from t k ≡ bytes_from m k
unfolding bytes_from
other_bytes m t l k v d w = ap₂ ◌∷◌ (at 0 k (omega arith) (omega arith)) (
    ap₂ ◌∷◌ (at 1 (k + 1) (omega arith) (omega arith)) (
      ap₂ ◌∷◌ (at 2 (k + 2) (omega arith) (omega arith))
        (ap₂ ◌∷◌ (at 3 (k + 3) (omega arith) (omega arith)) refl)))
  where
    at : (n i : ℕ) → n < 4 → i ≡ k + n → peek t i ≡ peek m i
    at n i h e = ground (arith, w i)

module _ (m : Memory) (a v : ℕ) (r : IsRam m) (h : a < 2 ^ 32) (l : v < 2 ^ 32)
    (p : place m a + 3 < size m) where
  at : (x : ℕ) → place (write_u32 m a v) x ≡ place m x
  at x = ap (λ (c : ℕ). wrapping_sub x c) (write_u32_frame m a v).0

  within : (x : ℕ) → place m x + 3 < size m → place (write_u32 m a v) x + 3 < size (write_u32 m a v)
  within x y = rw (at x, (write_u32_frame m a v).1) y

  wrote : Wrote m (place m a) v (write_u32 m a v)
  wrote = write_u32-peek m a v r h l p

  pub read_u32_same : read_u32 (write_u32 m a v) a ≡ v
  read_u32_same =
      read_u32-peek (write_u32 m a v) a (write_u32-IsRam m a v l r) h (within a p)
      ∙ ap (λ (x : ℕ). from_le_bytes (bytes_from (write_u32 m a v) x)) (at a)
      ∙ written_bytes m (write_u32 m a v) (place m a) v l wrote

  pub read_u32_other :
      (b : ℕ)
      → b < 2 ^ 32
      → place m b + 3 < size m
      → (place m a + 4 ≤ place m b) ⊎ (place m b + 4 ≤ place m a)
      → read_u32 (write_u32 m a v) b ≡ read_u32 m b
  read_u32_other b k q d =
      read_u32-peek (write_u32 m a v) b (write_u32-IsRam m a v l r) k (within b q)
      ∙ ap (λ (x : ℕ). from_le_bytes (bytes_from (write_u32 m a v) x)) (at b)
      ∙ ap from_le_bytes
          (other_bytes m (write_u32 m a v) (place m a) (place m b) v (ground (arith, d)) wrote)
      ∙ sym (read_u32-peek m b r k q)

-- In a RAM that starts at a page, ends in the address space and holds words of 32 bits, a word that is
-- written anywhere, aligned or not, reads back, and every word of the RAM that shares no byte with
-- it reads as before.
pub read_u32-write_u32 :
    (m : Memory) (a b v : ℕ)
    → IsRam m
    → a < 2 ^ 32
    → b < 2 ^ 32
    → v < 2 ^ 32
    → place m a + 3 < size m
    → place m b + 3 < size m
    → (place m a + 4 ≤ place m b) ⊎ (place m b + 4 ≤ place m a)
    → (read_u32 (write_u32 m a v) a ≡ v) × (read_u32 (write_u32 m a v) b ≡ read_u32 m b)
read_u32-write_u32 m a b v r h k l p q d =
    (read_u32_same m a v r h l p, read_u32_other m a v r h l p b k q d)
