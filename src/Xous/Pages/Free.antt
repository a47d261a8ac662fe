-- ===== src/Xous/Pages/Free.antt =====
-- `free_virt_page` (src/xous.rs).
use yove.Base.{
  ℕ, ◌*◌, ◌%◌, ◌^◌, ◌<◌, ◌≡◌, ◌≢◌, inl, inr, refl, subst, ap, ap₂, sym, ◌∙◌, true, false, not, ◌&&◌,
  ◌||◌, some, none, if◌then◌else◌, ◌==◌, bit_and_mask, wrapping_add, wrapping_sub, update, ◌>>>◌,
  arith,
}
use yove.Base.OrderedSet.{contains, insert, remove, contains-insert}
use yove.Base.Exec.{Outcome, ok, ◌>>=◌}
use yove.Base.Exec.Returns.{Returns}
use yove.Xous.{Memory}
use yove.Xous.Ram.{read_u8, read_u32}
use yove.Xous.Ram.Bytes.{IsRam}
use yove.Xous.Ram.Laws.{write_u32_rest}
use yove.Xous.Pages.{frame, virt_to_phys, free_virt_page, l1_address, l0_address}
use yove.Xous.Pages.Words.{IsPage, word, with_word, word-with_word}
use yove.Xous.Pages.Sound.{root, entry, is_live, IsSound, true-false, root_index, dec_eq}
use yove.Xous.Pages.Ensure.Ready.{vpn1_of, vpn0_of, vpn1-lt, vpn0-lt, boolean, valid_cases}
use yove.Xous.Pages.Translate.{position, some_live, frame_parts, phys_of, virt_to_phys_lem}

-- The state after the page of an address is free and out of the cache.
abbrev released : ℕ → Memory → Memory
released p m = record m {
  allocated_bytes = wrapping_sub m.allocated_bytes 4096;
  allocated_pages = remove p m.allocated_pages;
  free_pages = insert p m.free_pages;
  translation_cache = update m.translation_cache (p >>> 12) none;
}

released-read_u32 : (p : ℕ) (m : Memory) (a : ℕ) → read_u32 (released p m) a ≡ read_u32 m a
unfolding read_u32 read_u8
released-read_u32 p m a = refl

abbrev counted : Memory → Memory
counted m = record m { allocated_bytes = wrapping_sub m.allocated_bytes 4096 }

counted-read_u32 : (m : Memory) (a : ℕ) → read_u32 (counted m) a ≡ read_u32 m a
unfolding read_u32 read_u8
counted-read_u32 m a = refl

-- The state after the entry of the address is cleared too.
abbrev unmapped : ℕ → ℕ → Memory → Memory
unmapped virt p m =
    with_word (frame (entry m (root (vpn1_of virt)))) (vpn0_of virt) 0 (released p m)

module _ (virt p : ℕ) (m : Memory) (s : IsSound m) (start : virt % 2 ^ 12 ≡ 0)
    (e : virt_to_phys m virt ≡ some p) (b : p < 0xfffff000) where
  live : is_live m (position virt) ≡ true
  live = (some_live m s virt p e).0

  is_frame : p ≡ frame (entry m (position virt))
  is_frame = omega (
    arith,
    (some_live m s virt p e).1,
    frame_parts (entry m (position virt)) virt,
    bit_and_mask 12 virt,
  )

  p_allocated : contains p m.allocated_pages ≡ true
  p_allocated =
      ap (λ (x : ℕ). contains x m.allocated_pages) is_frame
      ∙ (s.owned (position virt) (vpn1-lt virt, vpn0-lt virt) live).0

  p_not_free : contains p m.free_pages ≡ false
  p_not_free = elim (boolean (contains p m.free_pages)) [
    | inl f ↦ absurd (true-false (sym p_allocated ∙ (s.free p f).1))
    | inr f ↦ f
  ]

  free_lem : free_virt_page virt m ≡ ok tt (unmapped virt p m)
  unfolding free_virt_page ◌>>=◌
  free_lem = ground (
    arith,
    live,
    p_allocated,
    p_not_free,
    e,
    counted-read_u32 m (l1_address m virt),
    released-read_u32 p m (l0_address (read_u32 m (l1_address m virt)) virt),
  )

  root_live : is_live m (root (vpn1_of virt)) ≡ true
  root_live = ground (arith, live)

  table_page : IsPage m (frame (entry m (root (vpn1_of virt))))
  table_page =
      s.allocated (frame (entry m (root (vpn1_of virt))))
        (s.owned (root (vpn1_of virt)) (vpn1-lt virt) root_live).0

  words :
      (q j : ℕ)
      → IsPage m q
      → j < 1024
      → word (unmapped virt p m) q j ≡ (
          if frame (entry m (root (vpn1_of virt))) == q && vpn0_of virt == j then 0 else word m q j)
  words q j i k =
      word-with_word (released p m) (frame (entry m (root (vpn1_of virt)))) q (vpn0_of virt) j 0
        (released_ram s.ram) (released_page _ table_page) (released_page q i) (vpn0-lt virt) k
        (omega arith)
      ∙ ap
          (λ (w : ℕ).
            if frame (entry m (root (vpn1_of virt))) == q && vpn0_of virt == j then 0 else w)
          (released-read_u32 p m (wrapping_add q (j * 4)))
    where
      released_ram : IsRam m → IsRam (released p m)
      released_ram r = record { aligned = r.aligned; fits = r.fits; words = r.words }

      released_page : (q : ℕ) → IsPage m q → IsPage (released p m) q
      released_page q i = record {
        start = i.start;
        low = i.low;
        high = i.high;
        nonzero = i.nonzero;
      }

  rest :
      ((unmapped virt p m).l1_pt ≡ m.l1_pt)
      × ((unmapped virt p m).free_pages ≡ insert p m.free_pages)
      × ((unmapped virt p m).allocated_pages ≡ remove p m.allocated_pages)
      × ((unmapped virt p m).translation_cache ≡ update m.translation_cache (p >>> 12) none)
  rest =
      write_u32_rest (released p m)
        (wrapping_add (frame (entry m (root (vpn1_of virt)))) (vpn0_of virt * 4)) 0

  root_same : (k : ℕ) → k < 1024 → entry (unmapped virt p m) (root k) ≡ entry m (root k)
  root_same k r =
      let n = (s.owned (root (vpn1_of virt)) (vpn1-lt virt) root_live).1 in
      let u : (if frame (entry m (root (vpn1_of virt))) == m.l1_pt && vpn0_of virt == k
            then 0
            else word m m.l1_pt k)
          ≡ word m m.l1_pt k =
        ground arith in
      ap (λ (q : ℕ). word (unmapped virt p m) q k) rest.0
      ∙ words m.l1_pt k (s.allocated m.l1_pt s.root_table) r
      ∙ u

  leaf_same :
      (w : ℕ)
      → is_live m (root (vpn1_of w)) ≡ true
      → entry (unmapped virt p m) (position w) ≡ (
          if frame (entry m (root (vpn1_of virt))) == frame (entry m (root (vpn1_of w)))
            && vpn0_of virt == vpn0_of w
          then 0
          else entry m (position w))
  leaf_same w l =
      let o = s.owned (root (vpn1_of w)) (vpn1-lt w) l in
      ap (λ (x : ℕ). word (unmapped virt p m) (frame x) (vpn0_of w))
        (root_same (vpn1_of w) (vpn1-lt w))
      ∙ words (frame (entry m (root (vpn1_of w)))) (vpn0_of w)
          (s.allocated (frame (entry m (root (vpn1_of w)))) o.0) (vpn0-lt w)

  one_table :
      (w : ℕ)
      → is_live m (root (vpn1_of w)) ≡ true
      → frame (entry m (root (vpn1_of virt))) ≡ frame (entry m (root (vpn1_of w)))
      → vpn1_of virt ≡ vpn1_of w
  one_table w l f =
      ap root_index
        (s.unique (root (vpn1_of virt)) (root (vpn1_of w)) (vpn1-lt virt) (vpn1-lt w) root_live l f)

  -- The entry of the address is cleared, and no other.
  cleared :
      (w : ℕ)
      → is_live m (root (vpn1_of w)) ≡ true
      → w >>> 12 ≡ virt >>> 12
      → entry (unmapped virt p m) (position w) ≡ 0
  cleared w l f =
      let c : vpn1_of virt ≡ vpn1_of w =
        omega (arith, bit_and_mask 10 (virt >>> 22), bit_and_mask 10 (w >>> 22)) in
      let d : vpn0_of virt ≡ vpn0_of w =
        omega (arith, bit_and_mask 10 (virt >>> 12), bit_and_mask 10 (w >>> 12)) in
      let g : frame (entry m (root (vpn1_of virt))) ≡ frame (entry m (root (vpn1_of w))) =
        ap (λ (i : ℕ). frame (entry m (root i))) c in
      let u : (if frame (entry m (root (vpn1_of virt))) == frame (entry m (root (vpn1_of w)))
              && vpn0_of virt == vpn0_of w
            then 0
            else entry m (position w))
          ≡ 0 =
        ground arith in
      leaf_same w l ∙ u

  uncleared :
      (w : ℕ)
      → virt < 2 ^ 32
      → w < 2 ^ 32
      → is_live m (root (vpn1_of w)) ≡ true
      → w >>> 12 ≢ virt >>> 12
      → entry (unmapped virt p m) (position w) ≡ entry m (position w)
  uncleared w h k l n =
      leaf_same w l
      ∙ elim (dec_eq (frame (entry m (root (vpn1_of virt)))) (frame (entry m (root (vpn1_of w))))) [
        | inl f ↦
            let c = one_table w l f in
            let o : vpn0_of virt ≢ vpn0_of w = λ d. n (two_pages c d) in ground arith
        | inr f ↦ ground arith
      ]
    where
      two_pages : vpn1_of virt ≡ vpn1_of w → vpn0_of virt ≡ vpn0_of w → w >>> 12 ≡ virt >>> 12
      two_pages c d = omega (
        arith,
        bit_and_mask 10 (virt >>> 22),
        bit_and_mask 10 (w >>> 22),
        bit_and_mask 10 (virt >>> 12),
        bit_and_mask 10 (w >>> 12),
      )

  phys_after :
      (w f : ℕ)
      → entry (unmapped virt p m) (position w) ≡ f
      → virt_to_phys (unmapped virt p m) w ≡ phys_of (entry m (root (vpn1_of w))) f w
  phys_after w f c =
      virt_to_phys_lem (unmapped virt p m) w
      ∙ ap₂ (λ (x y : ℕ). phys_of x y w) (root_same (vpn1_of w) (vpn1-lt w)) c

  -- The translations afterwards.
  pub after :
      (w : ℕ)
      → virt < 2 ^ 32
      → w < 2 ^ 32
      → virt_to_phys (unmapped virt p m) w
        ≡ (if w >>> 12 == virt >>> 12 then none else virt_to_phys m w)
  after w h k = elim (valid_cases (entry m (root (vpn1_of w)))) [
    | inl v ↦ elim (dec_eq (w >>> 12) (virt >>> 12)) [
      | inl f ↦ let u = phys_after w 0 (cleared w (ap not v) f) in ground arith
      | inr n ↦
          let u = phys_after w (entry m (position w)) (uncleared w h k (ap not v) n) in
          let o = virt_to_phys_lem m w in ground arith
    ]
    | inr d ↦
        let u = phys_after w (entry (unmapped virt p m) (position w)) refl in
        let o = virt_to_phys_lem m w in ground arith
  ]

  freed : contains p (unmapped virt p m).free_pages ≡ true
  freed =
      ap (contains p) rest.1
      ∙ contains-insert p p m.free_pages
      ∙ (let u : (p == p || contains p m.free_pages) ≡ true = ground arith in u)

  pub cache_after :
      (unmapped virt p m).translation_cache ≡ update m.translation_cache (p >>> 12) none
  cache_after = rest.3

-- What `free_virt_page` leaves, for an address `w`.
abbrev pub Freed : ℕ → ℕ → ℕ → Memory → Memory → Type 0
Freed virt p w m t =
    (contains p t.free_pages ≡ true)
    × (virt_to_phys t w ≡ (if w >>> 12 == virt >>> 12 then none else virt_to_phys m w))
    × (t.translation_cache ≡ update m.translation_cache (p >>> 12) none)

-- In a sound state, for the start of a page that is translated to an address that is not in the last
-- page, `free_virt_page` never panics. Its page is free again, no address of the page has a
-- translation, and every other address has the translation that it had. What leaves the cache of
-- translations is the entry at the physical address.
pub free_virt_page-Freed :
    (virt p w : ℕ) (m : Memory)
    → IsSound m
    → virt < 2 ^ 32
    → virt % 2 ^ 12 ≡ 0
    → virt_to_phys m virt ≡ some p
    → p < 0xfffff000
    → w < 2 ^ 32
    → Returns (free_virt_page virt m) (λ r t. Freed virt p w m t)
free_virt_page-Freed virt p w m s h a e b k =
    subst (λ (o : Outcome Memory ⊥ (Unit {0})). Returns o (λ r t. Freed virt p w m t))
      (sym (free_lem virt p m s a e b))
      (freed virt p m s a e b, after virt p m s a e b w h k, cache_after virt p m s a e b)
