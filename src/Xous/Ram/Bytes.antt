-- ===== src/Xous/Ram/Bytes.antt =====
-- The RAM as bytes in a row: the words that src/xous.rs keeps are those bytes, little end first.
use yove.Base.{
  ℕ, zero, suc, ◌+◌, ◌-◌, ◌*◌, ◌/◌, ◌%◌, ◌^◌, ◌<◌, ◌≤◌, ◌≡◌, ◌≢◌, ◌⊎◌, inl, inr, refl, ap, ap₂, sym,
  ◌∙◌, ◌&&◌, if◌then◌else◌, ◌==◌, ltb, leb, bit_and_mask, wrapping_add, wrapping_sub, arith, List,
  [], ◌∷◌,
}
use yove.Xous.{Memory}
use yove.Xous.Ram.{
  word_at, set_word, place, page_of, index_of, replaced, from_le_bytes, read_u8, read_u32, write_u8,
  write_u32,
}
use yove.Xous.Ram.Word.{byte, byte-replaced}

-- The RAM does not wrap around, starts at a page, and its words have 32 bits.
pub record IsRam (m : Memory) : Type 0 where
  pub aligned : m.base % 2 ^ 12 ≡ 0
  pub fits : m.base + m.page_count * 2 ^ 12 ≤ 2 ^ 32
  pub words : (p i : ℕ) → m.pages p i < 2 ^ 32

abbrev pub size : Memory → ℕ
size m = m.page_count * 2 ^ 12

-- The byte at a place, counted from the base.
abbrev pub peek : Memory → ℕ → ℕ
peek m l = byte (l % 4) (word_at m (l / 2 ^ 12) (l % 2 ^ 12 / 4))

abbrev pub poke : ℕ → ℕ → Memory → Memory
poke l v m =
    set_word (l / 2 ^ 12) (l % 2 ^ 12 / 4)
      (replaced 0xff (l % 4 * 8) (m.pages (l / 2 ^ 12) (l % 2 ^ 12 / 4)) v) m

word_at-set_word :
    (p i v q j : ℕ) (m : Memory)
    → word_at (set_word p i v m) q j
      ≡ (if (p == q && i == j) && ltb p m.page_count then v else word_at m q j)
word_at-set_word p i v q j m = ground arith

lane : (l : ℕ) → l % 2 ^ 12 % 4 ≡ l % 4
lane l = omega arith

pub read_u8-peek : (m : Memory) (a : ℕ) → read_u8 m a ≡ peek m (place m a)
unfolding read_u8
read_u8-peek m a =
    ap (λ (k : ℕ). byte k (word_at m (place m a / 2 ^ 12) (place m a % 2 ^ 12 / 4)))
      (lane (place m a))

pub write_u8-poke : (m : Memory) (a v : ℕ) → write_u8 m a v ≡ poke (place m a) v m
unfolding write_u8
write_u8-poke m a v =
    ap
      (λ (k : ℕ).
        set_word (page_of m a) (index_of m a)
          (replaced 0xff (k * 8) (m.pages (page_of m a) (index_of m a)) v) m)
      (lane (place m a))

pub peek-poke :
    (l i v : ℕ) (m : Memory)
    → l < size m
    → v < 2 ^ 8
    → peek (poke l v m) i ≡ (if l == i then v else peek m i)
peek-poke l i v m h k =
    let old = m.pages (l / 2 ^ 12) (l % 2 ^ 12 / 4) in
    ground (
      arith,
      word_at-set_word (l / 2 ^ 12) (l % 2 ^ 12 / 4) (replaced 0xff (l % 4 * 8) old v) (i / 2 ^ 12)
          (i % 2 ^ 12 / 4) m,
      byte-replaced (l % 4) (i % 4) old v (omega arith) (omega arith) k,
    )

place-lt : (m : Memory) (a : ℕ) → place m a < 2 ^ 32
place-lt m a = omega arith

-- The places of consecutive addresses follow each other.
place-add :
    (m : Memory) (a n : ℕ)
    → IsRam m
    → a < 2 ^ 32
    → n < 4
    → place m a + n < size m
    → place m (wrapping_add a n) ≡ place m a + n
place-add m a n r h k l = omega (arith, r.fits, r.aligned)

place_even : (m : Memory) (a n : ℕ) → IsRam m → a < 2 ^ 32 → a % 4 ≡ n → place m a % 4 ≡ n
place_even m a n r h k = omega (arith, r.fits, r.aligned)

-- A word of 32 bits from its bytes.
pub four_bytes :
    (w : ℕ) → w < 2 ^ 32 → from_le_bytes (byte 0 w ∷ byte 1 w ∷ byte 2 w ∷ byte 3 w ∷ []) ≡ w
unfolding from_le_bytes
four_bytes w h = omega arith

zero_or : (n : ℕ) → (n ≡ 0) ⊎ (n ≢ 0)
zero_or zero = inl refl
zero_or (suc n) = inr (omega arith)

-- The bytes of one word, at places that follow each other.
peek_aligned :
    (m : Memory) (l n : ℕ)
    → l % 4 ≡ 0
    → n < 4
    → peek m (l + n) ≡ byte n (word_at m (l / 2 ^ 12) (l % 2 ^ 12 / 4))
peek_aligned m l n e h =
    let f : (l + n) % 4 ≡ n = omega arith in
    let g : (l + n) / 2 ^ 12 ≡ l / 2 ^ 12 = omega arith in
    let i : (l + n) % 2 ^ 12 / 4 ≡ l % 2 ^ 12 / 4 = omega arith in ap₂ byte f (ap₂ (word_at m) g i)

word_at-lt : (m : Memory) (p i : ℕ) → IsRam m → word_at m p i < 2 ^ 32
word_at-lt m p i r = ground (arith, r.words p i)

unfoldable pub bytes_from : Memory → ℕ → List ℕ
bytes_from m l = peek m l ∷ peek m (l + 1) ∷ peek m (l + 2) ∷ peek m (l + 3) ∷ []

read_u32_aligned :
    (m : Memory) (a : ℕ)
    → IsRam m
    → a % 4 ≡ 0
    → a < 2 ^ 32
    → read_u32 m a ≡ from_le_bytes (bytes_from m (place m a))
unfolding read_u32 bytes_from
read_u32_aligned m a r e h =
    let l = place m a in
    let w = word_at m (l / 2 ^ 12) (l % 2 ^ 12 / 4) in
    let f : l % 4 ≡ 0 = place_even m a 0 r h e in
    let g : read_u32 m a ≡ w = ground (arith, bit_and_mask 2 a) in
    let z : peek m l ≡ byte 0 w = ap (λ k. byte k w) f in
    g
    ∙ sym (four_bytes w (word_at-lt m (l / 2 ^ 12) (l % 2 ^ 12 / 4) r))
    ∙ ap from_le_bytes (
        ap₂ ◌∷◌ (sym z) (
          ap₂ ◌∷◌ (sym (peek_aligned m l 1 f (omega arith))) (
            ap₂ ◌∷◌ (sym (peek_aligned m l 2 f (omega arith)))
              (ap₂ ◌∷◌ (sym (peek_aligned m l 3 f (omega arith))) refl))))

byte_read :
    (m : Memory) (a n : ℕ)
    → IsRam m
    → a < 2 ^ 32
    → n < 4
    → place m a + n < size m
    → read_u8 m (wrapping_add a n) ≡ peek m (place m a + n)
byte_read m a n r h k l = read_u8-peek m (wrapping_add a n) ∙ ap (peek m) (place-add m a n r h k l)

read_u32_unaligned :
    (m : Memory) (a : ℕ)
    → IsRam m
    → a % 4 ≢ 0
    → a < 2 ^ 32
    → place m a + 3 < size m
    → read_u32 m a ≡ from_le_bytes (bytes_from m (place m a))
unfolding read_u32 bytes_from
read_u32_unaligned m a r e h k =
    let g : read_u32 m a
        ≡ from_le_bytes (
            read_u8 m a
            ∷ read_u8 m (wrapping_add a 1)
            ∷ read_u8 m (wrapping_add a 2)
            ∷ read_u8 m (wrapping_add a 3)
            ∷ []) =
      ground (arith, bit_and_mask 2 a) in
    g
    ∙ ap from_le_bytes (
        ap₂ ◌∷◌ (read_u8-peek m a) (
          ap₂ ◌∷◌ (byte_read m a 1 r h (omega arith) (omega arith)) (
            ap₂ ◌∷◌ (byte_read m a 2 r h (omega arith) (omega arith))
              (ap₂ ◌∷◌ (byte_read m a 3 r h (omega arith) (omega arith)) refl))))

pub read_u32-peek :
    (m : Memory) (a : ℕ)
    → IsRam m
    → a < 2 ^ 32
    → place m a + 3 < size m
    → read_u32 m a ≡ from_le_bytes (bytes_from m (place m a))
read_u32-peek m a r h k = elim (zero_or (a % 4)) [
  | inl e ↦ read_u32_aligned m a r e h
  | inr e ↦ read_u32_unaligned m a r e h k
]

-- The bytes after a write of four of them at a place.
abbrev pub Wrote : Memory → ℕ → ℕ → Memory → Type 0
Wrote m l v t = (i : ℕ) → peek t i ≡ (if leb l i && ltb i (l + 4) then byte (i - l) v else peek m i)

write_u32_aligned :
    (m : Memory) (a v : ℕ)
    → IsRam m
    → a % 4 ≡ 0
    → a < 2 ^ 32
    → v < 2 ^ 32
    → place m a + 3 < size m
    → Wrote m (place m a) v (write_u32 m a v)
unfolding write_u32
write_u32_aligned m a v r e h b k i =
    let l = place m a in
    let f : l % 4 ≡ 0 = place_even m a 0 r h e in
    let g : write_u32 m a v ≡ set_word (l / 2 ^ 12) (l % 2 ^ 12 / 4) v m =
      ground (arith, bit_and_mask 2 a) in
    ap (λ t. peek t i) g
    ∙ ground
        (arith, word_at-set_word (l / 2 ^ 12) (l % 2 ^ 12 / 4) v (i / 2 ^ 12) (i % 2 ^ 12 / 4) m)

pub same_frame :
    (m : Memory) (a v : ℕ)
    → ((write_u8 m a v).base ≡ m.base) × ((write_u8 m a v).page_count ≡ m.page_count)
unfolding write_u8
same_frame m a v = ground arith

byte_written :
    (m₀ m : Memory) (a n v i : ℕ)
    → IsRam m₀
    → m.base ≡ m₀.base
    → m.page_count ≡ m₀.page_count
    → a < 2 ^ 32
    → n < 4
    → place m₀ a + n < size m₀
    → v < 2 ^ 8
    → peek (write_u8 m (wrapping_add a n) v) i ≡ (if place m₀ a + n == i then v else peek m i)
byte_written m₀ m a n v i r e f h k l b =
    let g : place m (wrapping_add a n) ≡ place m₀ a + n =
      ap (λ (t : ℕ). wrapping_sub (wrapping_add a n) t) e ∙ place-add m₀ a n r h k l in
    ap (λ t. peek t i) (write_u8-poke m (wrapping_add a n) v)
    ∙ ap (λ (l : ℕ). peek (poke l v m) i) g
    ∙ peek-poke (place m₀ a + n) i v m (rw f l) b

pub byte_of : (v i l n : ℕ) → i ≡ l + n → byte (i - l) v ≡ byte n v
byte_of v i l n e = let f : i - l ≡ n = omega arith in ap (λ (k : ℕ). byte k v) f

merged :
    (v i l p₀ p₁ p₂ p₃ : ℕ)
    → v < 2 ^ 32
    → p₁ ≡ (if l + 0 == i then v % 2 ^ 8 else p₀)
    → p₂ ≡ (if l + 1 == i then v / 2 ^ 8 % 2 ^ 8 else p₁)
    → p₃ ≡ (if l + 2 == i then v / 2 ^ 16 % 2 ^ 8 else p₂)
    → (if l + 3 == i then v / 2 ^ 24 else p₃)
      ≡ (if leb l i && ltb i (l + 4) then byte (i - l) v else p₀)
merged v i l p₀ p₁ p₂ p₃ b e f g =
    ground (arith, byte_of v i l 0, byte_of v i l 1, byte_of v i l 2, byte_of v i l 3)

write_u32_unaligned :
    (m : Memory) (a v : ℕ)
    → IsRam m
    → a % 4 ≢ 0
    → a < 2 ^ 32
    → v < 2 ^ 32
    → place m a + 3 < size m
    → Wrote m (place m a) v (write_u32 m a v)
unfolding write_u32
write_u32_unaligned m a v r e h b k i =
    let l = place m a in
    let m1 = write_u8 m a (v % 2 ^ 8) in
    let m2 = write_u8 m1 (wrapping_add a 1) (v / 2 ^ 8 % 2 ^ 8) in
    let m3 = write_u8 m2 (wrapping_add a 2) (v / 2 ^ 16 % 2 ^ 8) in
    let f1 = same_frame m a (v % 2 ^ 8) in
    let f2 = same_frame m1 (wrapping_add a 1) (v / 2 ^ 8 % 2 ^ 8) in
    let f3 = same_frame m2 (wrapping_add a 2) (v / 2 ^ 16 % 2 ^ 8) in
    let z : a ≡ wrapping_add a 0 = omega arith in
    let p1 : peek m1 i ≡ (if l + 0 == i then v % 2 ^ 8 else peek m i) =
      ap (λ (x : ℕ). peek (write_u8 m x (v % 2 ^ 8)) i) z
      ∙ byte_written m m a 0 (v % 2 ^ 8) i r refl refl h (omega arith) (omega arith)
          (omega arith) in
    let p2 =
      byte_written m m1 a 1 (v / 2 ^ 8 % 2 ^ 8) i r f1.0 f1.1 h (omega arith) (omega arith)
        (omega arith) in
    let p3 =
      byte_written m m2 a 2 (v / 2 ^ 16 % 2 ^ 8) i r (f2.0 ∙ f1.0) (f2.1 ∙ f1.1) h (omega arith)
        (omega arith) (omega arith) in
    let p4 =
      byte_written m m3 a 3 (v / 2 ^ 24) i r (f3.0 ∙ f2.0 ∙ f1.0) (f3.1 ∙ f2.1 ∙ f1.1) h
        (omega arith) k (omega arith) in
    let u : write_u32 m a v ≡ write_u8 m3 (wrapping_add a 3) (v / 2 ^ 24) =
      ground (arith, bit_and_mask 2 a) in
    ap (λ t. peek t i) u
    ∙ p4
    ∙ merged v i l (peek m i) (peek m1 i) (peek m2 i) (peek m3 i) b p1 p2 p3

pub write_u32-peek :
    (m : Memory) (a v : ℕ)
    → IsRam m
    → a < 2 ^ 32
    → v < 2 ^ 32
    → place m a + 3 < size m
    → Wrote m (place m a) v (write_u32 m a v)
write_u32-peek m a v r h b k = elim (zero_or (a % 4)) [
  | inl e ↦ write_u32_aligned m a v r e h b k
  | inr e ↦ write_u32_unaligned m a v r e h b k
]
