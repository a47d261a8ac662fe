-- ===== src/Xous/Pages/Load.antt =====
-- Stores and loads of bytes through the page tables (src/xous.rs, `write_u8` and `read_u8` after
-- `virt_to_phys`).
use yove.Base.{
  ℕ, ◌+◌, ◌-◌, ◌/◌, ◌%◌, ◌^◌, ◌<◌, ◌≤◌, ◌≡◌, ◌≢◌, ◌⊎◌, inl, inr, refl, subst, ap, ap₂, sym, ◌∙◌,
  true, not, ◌&&◌, Option, some, none, if◌then◌else◌, ◌==◌, bit_and, arith,
}
use yove.Base.OrderedSet.{contains}
use yove.Xous.{Memory}
use yove.Xous.Ram.{place, read_u8, write_u8}
use yove.Xous.Ram.Bytes.{size, read_u8-peek}
use yove.Xous.Pages.{frame, is_invalid, virt_to_phys}
use yove.Xous.Pages.Words.{IsPage, word}
use yove.Xous.Pages.Sound.{
  Position, root, leaf, InRange, entry, is_live, IsSound, true-false, root_is_not_leaf, dec_eq,
}
use yove.Xous.Pages.Ensure.Ready.{vpn1_of, vpn0_of, vpn1-lt, vpn0-lt, valid_cases}
use yove.Xous.Pages.Translate.{
  position, some_live, frame_parts, phys_of, virt_to_phys_lem, virt_to_phys-injective,
}
use yove.Xous.Pages.Bytes.{stored, stored_lem, stored-IsRam, stored-peek, stored-word}

-- The page of an address that has a translation.
abbrev pub page_of_address : Memory → ℕ → ℕ
page_of_address m v = frame (entry m (position v))

module _ (m : Memory) (s : IsSound m) (v p : ℕ) (e : virt_to_phys m v ≡ some p) where
  pub mapped_live : is_live m (position v) ≡ true
  mapped_live = (some_live m s v p e).0

  pub mapped_page : IsPage m (page_of_address m v)
  mapped_page =
      s.allocated (page_of_address m v) (s.owned (position v) (vpn1-lt v, vpn0-lt v) mapped_live).0

  pub phys_parts : (p / 2 ^ 12 ≡ page_of_address m v / 2 ^ 12) × (p % 2 ^ 12 ≡ v % 2 ^ 12)
  phys_parts =
      let a = some_live m s v p e in
      let f = frame_parts (entry m (position v)) v in (omega (arith, a.1, f), omega (arith, a.1, f))

  pub place_parts : place m p ≡ page_of_address m v - m.base + v % 2 ^ 12
  place_parts = let g = mapped_page in omega (arith, phys_parts, g.start, g.low, g.high, s.ram.fits)

  pub place_in_ram : place m p < size m
  place_in_ram = let g = mapped_page in omega (arith, place_parts, g.start, g.low, g.high)

module _ (m : Memory) (s : IsSound m) (v p b : ℕ) (e : virt_to_phys m v ≡ some p)
    (small : b < 2 ^ 8) where
  within : place m p < size m
  within = place_in_ram m s v p e

  outside :
      (q : ℕ)
      → IsPage m q
      → q ≢ page_of_address m v
      → (place m p < q - m.base) ⊎ (q - m.base + 2 ^ 12 ≤ place m p)
  outside q g n =
      let f = mapped_page m s v p e in
      omega (arith, place_parts m s v p e, f.start, f.low, g.start, g.low, s.ram.aligned)

  -- The words of every other page are as they were.
  pub other_word :
      (q j : ℕ)
      → IsPage m q
      → q ≢ page_of_address m v
      → j < 1024
      → word (stored m p b) q j ≡ word m q j
  other_word q j g n h = stored-word m p b s.ram within small q j g h (outside q g n)

  live : is_live m (position v) ≡ true
  live = mapped_live m s v p e

  range : InRange (position v)
  range = (vpn1-lt v, vpn0-lt v)

  root_entry : (i : ℕ) → i < 1024 → entry (stored m p b) (root i) ≡ entry m (root i)
  root_entry i h =
      other_word m.l1_pt i (s.allocated m.l1_pt s.root_table)
        (λ f. (s.owned (position v) range live).1 (sym f)) h

  leaf_entry :
      (i j : ℕ)
      → i < 1024
      → j < 1024
      → is_live m (root i) ≡ true
      → entry (stored m p b) (leaf i j) ≡ entry m (leaf i j)
  leaf_entry i j h k l =
      let q = frame (entry m (root i)) in
      ap (λ (w : ℕ). word (stored m p b) (frame w) j) (root_entry i h)
      ∙ other_word q j (s.allocated q (s.owned (root i) h l).0)
          (λ f. root_is_not_leaf (s.unique (root i) (position v) h range l live f)) k

  root_live : (i : ℕ) → i < 1024 → is_live (stored m p b) (root i) ≡ is_live m (root i)
  root_live i h = ap (λ (w : ℕ). not (is_invalid w)) (root_entry i h)

  -- What is live afterwards was live, with the same entry; and the other way round.
  pub back :
      (x : Position)
      → InRange x
      → is_live (stored m p b) x ≡ true
      → (is_live m x ≡ true) × (entry (stored m p b) x ≡ entry m x)
  back (root i) h l = (sym (root_live i h) ∙ l, root_entry i h)
  back (leaf i j) h l =
      let a : is_live (stored m p b) (root i) ≡ true = ground (arith, l) in
      let f = leaf_entry i j h.0 h.1 (sym (root_live i h.0) ∙ a) in
      (
        sym (ap₂ (λ (c d : ℕ). not (is_invalid c) && not (is_invalid d)) (root_entry i h.0) f) ∙ l,
        f,
      )

  pub forth :
      (x : Position)
      → InRange x
      → is_live m x ≡ true
      → (is_live (stored m p b) x ≡ true) × (entry (stored m p b) x ≡ entry m x)
  forth (root i) h l = (root_live i h ∙ l, root_entry i h)
  forth (leaf i j) h l =
      let a : is_live m (root i) ≡ true = ground (arith, l) in
      let f = leaf_entry i j h.0 h.1 a in
      (ap₂ (λ (c d : ℕ). not (is_invalid c) && not (is_invalid d)) (root_entry i h.0) f ∙ l, f)

  page_same : (q : ℕ) → IsPage m q → IsPage (stored m p b) q
  page_same q i = record { start = i.start; low = i.low; high = i.high; nonzero = i.nonzero }

  not_free : (q : ℕ) → contains q m.free_pages ≡ true → q ≢ page_of_address m v
  not_free q f g = true-false (
      sym (s.owned (position v) range live).0
      ∙ ap (λ (x : ℕ). contains x m.allocated_pages) (sym g)
      ∙ (s.free q f).1)

  pub stored-IsSound : IsSound (stored m p b)
  stored-IsSound = record {
    ram = stored-IsRam m p b s.ram within small;
    root_table = s.root_table;
    allocated = λ q c. page_same q (s.allocated q c);
    free = λ q c. (page_same q (s.free q c).0, (s.free q c).1);
    zeroed = λ q j c h. other_word q j (s.free q c).0 (not_free q c) h ∙ s.zeroed q j c h;
    ascending = s.ascending;
    pointers = λ i h l.
        ap (λ (w : ℕ). bit_and w 0xe) (root_entry i h) ∙ s.pointers i h (sym (root_live i h) ∙ l);
    owned = λ x h l.
        (let k = back x h l in
          let o = s.owned x h k.0 in
          (
            ap (λ (w : ℕ). contains (frame w) m.allocated_pages) k.1 ∙ o.0,
            λ f. o.1 (ap frame (sym k.1) ∙ f),
          ));
    unique = λ x y h h' l l' f.
        (let k = back x h l in
          let n = back y h' l' in
          s.unique x y h h' k.0 n.0 (ap frame (sym k.1) ∙ f ∙ ap frame n.1));
  }

  -- Every translation is as it was.
  pub stored-virt_to_phys : (w : ℕ) → virt_to_phys (stored m p b) w ≡ virt_to_phys m w
  stored-virt_to_phys w =
      let f = root_entry (vpn1_of w) (vpn1-lt w) in
      virt_to_phys_lem (stored m p b) w
      ∙ ap (λ (c : ℕ). phys_of c (entry (stored m p b) (position w)) w) f
      ∙ elim (valid_cases (entry m (root (vpn1_of w)))) [
        | inl a ↦
            ap (λ (c : ℕ). phys_of (entry m (root (vpn1_of w))) c w)
              (leaf_entry (vpn1_of w) (vpn0_of w) (vpn1-lt w) (vpn0-lt w) (ground (arith, a)))
        | inr a ↦
            (let u : phys_of (entry m (root (vpn1_of w))) (entry (stored m p b) (position w)) w
                  ≡ phys_of (entry m (root (vpn1_of w))) (entry m (position w)) w =
                ground (arith, a) in
              u)
      ]
      ∙ sym (virt_to_phys_lem m w)

-- The byte that a load of the address gives, if it has a translation.
abbrev pub load : Memory → ℕ → Option ℕ
load m v = elim (virt_to_phys m v) [ none ↦ none | some p ↦ some (read_u8 m p) ]

pub phys_cases : (o : Option ℕ) → (o ≡ none) ⊎ ((p : ℕ) × (o ≡ some p))
phys_cases none = inl refl
phys_cases (some p) = inr (p, refl)

pub load-some : (m : Memory) (v p : ℕ) → virt_to_phys m v ≡ some p → load m v ≡ some (read_u8 m p)
load-some m v p e = ap (λ (o : Option ℕ). elim o [ none ↦ none | some q ↦ some (read_u8 m q) ]) e

pub load_none : (m : Memory) (v : ℕ) → virt_to_phys m v ≡ none → load m v ≡ none
load_none m v e = ap (λ (o : Option ℕ). elim o [ none ↦ none | some q ↦ some (read_u8 m q) ]) e

module _ (m : Memory) (s : IsSound m) (v p b : ℕ) (bound : v < 2 ^ 32)
    (e : virt_to_phys m v ≡ some p) (small : b < 2 ^ 8) where
  read_stored :
      (q : ℕ) → read_u8 (stored m p b) q ≡ (if place m p == place m q then b else read_u8 m q)
  read_stored q =
      let u = stored-peek m p b s.ram (place_in_ram m s v p e) small (place m q) in
      read_u8-peek (stored m p b) q ∙ (rw (read_u8-peek m q) u)

  apart_place : (w q : ℕ) → w < 2 ^ 32 → virt_to_phys m w ≡ some q → w ≢ v → place m p ≢ place m q
  apart_place w q k f n o =
      let g = mapped_page m s v p e in
      let h = mapped_page m s w q f in
      let same : p ≡ q = omega (
        arith,
        place_parts m s v p e,
        place_parts m s w q f,
        phys_parts m s v p e,
        phys_parts m s w q f,
        g.start,
        g.low,
        h.start,
        h.low,
        s.ram.aligned,
      ) in
      n (virt_to_phys-injective m s w v p k bound (f ∙ ap some (sym same)) e)

  pub load-stored :
      (w : ℕ) → w < 2 ^ 32 → load (stored m p b) w ≡ (if w == v then some b else load m w)
  load-stored w k = elim (phys_cases (virt_to_phys m w)) [
    | inl f ↦
        let n : w ≢ v = λ o. absurd (some_is_not_none (sym e ∙ ap (virt_to_phys m) (sym o) ∙ f)) in
        let u : load (stored m p b) w ≡ none =
          load_none (stored m p b) w (stored-virt_to_phys m s v p b e small w ∙ f) in
        ground (arith, load_none m w f, u)
    | inr (q, f) ↦
        let u =
          load-some (stored m p b) w q (stored-virt_to_phys m s v p b e small w ∙ f)
          ∙ ap some (read_stored q) in
        elim (dec_eq w v) [
          | inl o ↦
              let c : p ≡ q = some_injective (sym e ∙ ap (virt_to_phys m) (sym o) ∙ f) in
              let d : place m p ≡ place m q = ap (place m) c in ground (arith, u)
          | inr n ↦ let d = apart_place w q k f n in ground (arith, u, load-some m w q f)
        ]
  ]
    where
      some_is_not_none : {q : ℕ} → ¬ (some q ≡ none)
      some_is_not_none f = cc

      some_injective : {a c : ℕ} → some a ≡ some c → a ≡ c
      some_injective f = ground arith

-- In a sound state, a byte that is written at the translation of an address of 32 bits leaves a sound
-- state with the same translations. A load of that address then gives the byte, and a load of any
-- other address of 32 bits gives what it gave before.
pub write_u8-load :
    (m : Memory) (v p b w : ℕ)
    → IsSound m
    → v < 2 ^ 32
    → virt_to_phys m v ≡ some p
    → b < 2 ^ 8
    → w < 2 ^ 32
    → IsSound (write_u8 m p b)
      × (virt_to_phys (write_u8 m p b) w ≡ virt_to_phys m w)
      × (load (write_u8 m p b) w ≡ (if w == v then some b else load m w))
write_u8-load m v p b w s h e small k =
    subst
      (λ (t : Memory).
        IsSound t
        × (virt_to_phys t w ≡ virt_to_phys m w)
        × (load t w ≡ (if w == v then some b else load m w)))
      (sym (stored_lem m p b (place_in_ram m s v p e)))
      (
        stored-IsSound m s v p b e small,
        stored-virt_to_phys m s v p b e small w,
        load-stored m s v p b h e small w k,
      )
