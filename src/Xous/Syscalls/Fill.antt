-- ===== src/Xous/Syscalls/Fill.antt =====
-- `write_bytes` (src/xous.rs): the bytes are there afterwards.
use yove.Base.{
  length, ◌>>>◌, ℕ, suc, ◌+◌, ◌*◌, ◌%◌, ◌^◌, ◌<◌, ◌≤◌, ◌≡◌, ◌≢◌, ◌⊎◌, inl, inr, refl, subst, ap,
  ap₂, sym, ◌∙◌, Bool, true, Option, some, none, List, ◌∷◌, [], if◌then◌else◌, ◌==◌, bit_and,
  bit_or, bit_and_mask, wrapping_add, arith,
}
use yove.Base.Exec.{Outcome, ok, pure, ◌>>=◌}
use yove.Base.Exec.Returns.{Returns, Returns-map}
use yove.Xous.{Memory}
use yove.Xous.Ram.{read_u8, write_u8}
use yove.Xous.Syscalls.{read_region, stepped}
use yove.Xous.Pages.{frame, virt_to_phys, ensure_page}
use yove.Xous.Pages.Regions.{write_bytes}
use yove.Xous.Pages.Ensure.Page.{returned}
use yove.Xous.Pages.Bytes.{stored, stored_lem}
use yove.Xous.Pages.Sound.{leaf, entry, is_live, IsSound}
use yove.Xous.Pages.Ensure.Ready.{vpn1-lt, vpn0-lt}
use yove.Xous.Pages.Translate.{position, live_some, Later-virt_to_phys}
use yove.Xous.Pages.Load.{
  load, load-some, load_none, stored-IsSound, load-stored, stored-virt_to_phys, forth, phys_cases,
  place_in_ram,
}
use yove.Xous.Syscalls.Backed.{
  Later-load, Enough, Backed, Got, ensure_page-Backed, pages_of, AreBytes,
}

-- The bytes are loaded from a region.
abbrev pub Holds : Memory → ℕ → List ℕ → Type 0
Holds t start [] = Unit
Holds t start (b ∷ rest) = (load t start ≡ some b) × Holds t (suc start) rest

-- The region holds the bytes, what could be loaded elsewhere is loaded as before, and some pages
-- are left.
pub record Filled (m t : Memory) (bytes : List ℕ) (start spare : ℕ) : Type 0 where
  pub sound : IsSound t
  pub left : spare ≤ length t.free_pages
  pub same_root : (t.l1_pt ≡ m.l1_pt) × (t.satp ≡ m.satp)
  pub holds : Holds t start bytes
  pub mapped : (w p : ℕ) → virt_to_phys m w ≡ some p → virt_to_phys t w ≡ some p
  pub there : read_region (stepped start 1 (length bytes)) t ≡ ok bytes t
  pub elsewhere :
      (w p : ℕ)
      → w < 2 ^ 32
      → (w < start) ⊎ (start + length bytes ≤ w)
      → virt_to_phys m w ≡ some p
      → load t w ≡ load m w

write_step :
    (value : ℕ) (rest : List ℕ) (start p : ℕ) (m t : Memory) (r : Option Bool)
    → ensure_page start m ≡ ok r t
    → virt_to_phys t start ≡ some p
    → write_bytes (value ∷ rest) start m
      ≡ write_bytes rest (wrapping_add start 1) (write_u8 t p value)
unfolding write_bytes ◌>>=◌
write_step value rest start p m t r e f = ground (arith, e, f)

pub load_phys :
    (m : Memory) (v b : ℕ)
    → load m v ≡ some b
    → (p : ℕ) × (virt_to_phys m v ≡ some p) × (read_u8 m p ≡ b)
load_phys m v b e = elim (phys_cases (virt_to_phys m v)) [
  | inl f ↦ absurd (none_is_not_some (sym (load_none m v f) ∙ e))
  | inr (p, f) ↦ (p, f, some_injective (sym (load-some m v p f) ∙ e))
]
  where
    none_is_not_some : {q : ℕ} → ¬ (none ≡ some q)
    none_is_not_some f = cc

    some_injective : {a c : ℕ} → some a ≡ some c → a ≡ c
    some_injective f = ground arith

read_step :
    (m : Memory) (v b : ℕ) (rest bytes : List ℕ)
    → load m v ≡ some b
    → read_region rest m ≡ ok bytes m
    → read_region (v ∷ rest) m ≡ ok (b ∷ bytes) m
unfolding read_region ◌>>=◌
read_step m v b rest bytes e f = let k = load_phys m v b e in ground (arith, f, k.1, k.2)

-- With the page of an address live, what is left is enough for the next address.
pub step-Enough :
    (start need spare n : ℕ) (t : Memory)
    → is_live t (position start) ≡ true
    → need ≤ 2 + length t.free_pages
    → need ≡ 2 * pages_of start (suc n) + spare
    → Enough t (suc start) (2 * pages_of (suc start) n + spare)
step-Enough start need spare n t l h f = elim (crossing start) [
  | inl c ↦
      let same : position (suc start) ≡ position start =
        ap₂ leaf (omega (arith, bit_and_mask 10 (suc start >>> 22), bit_and_mask 10 (start >>> 22)))
          (ap (λ (x : ℕ). bit_and x 0x3ff) c.0) in
      inr (ap (is_live t) same ∙ l, omega (arith, c.1), omega (arith, f, c.1))
  | inr c ↦ inl (omega (arith, f))
]
  where
    crossing :
        (a : ℕ)
        → ((suc a >>> 12 ≡ a >>> 12) × (suc a % 2 ^ 12 ≡ suc (a % 2 ^ 12)))
          ⊎ ((a % 2 ^ 12 ≡ 4095) × (suc a % 2 ^ 12 ≡ 0))
    crossing a = omega arith

module _ (m t : Memory) (start need value spare : ℕ) (h : start < 2 ^ 32) (k : value < 2 ^ 8)
    (b : Backed m t start need) (p : ℕ) (e : virt_to_phys t start ≡ some p) where
  -- The write leaves what the next value needs.
  next-Enough :
      (n : ℕ)
      → need ≡ 2 * pages_of start (suc n) + spare
      → Enough (stored t p value) (suc start) (2 * pages_of (suc start) n + spare)
  next-Enough n f =
      step-Enough start need spare n (stored t p value)
        (forth t b.sound start p value e k (position start) (vpn1-lt start, vpn0-lt start) b.live).0
        b.left f

  write_Filled :
      (rest : List ℕ) (u : Memory)
      → Filled (stored t p value) u rest (suc start) spare
      → start + suc (length rest) < 2 ^ 32
      → IsSound m
      → Filled m u (value ∷ rest) start spare
  unfolding stepped
  write_Filled rest u f g s =
      let o = stored t p value in
      let lo : load o start ≡ some value =
        load-stored t b.sound start p value h e k start h ∙ ground arith in
      let eo : virt_to_phys o start ≡ some p =
        stored-virt_to_phys t b.sound start p value e k start ∙ e in
      let w : wrapping_add start 1 ≡ suc start = omega arith in
      record {
        sound = f.sound;
        left = f.left;
        same_root = (f.same_root.0 ∙ b.later.same_root.0, f.same_root.1 ∙ b.later.same_root.1);
        holds = (f.elsewhere start p h (inl (omega arith)) eo ∙ lo, f.holds);
        mapped = λ v q i. f.mapped v q (
            stored-virt_to_phys t b.sound start p value e k v
            ∙ Later-virt_to_phys m t v q s b.sound b.later i);
        there =
            ap (λ (a : ℕ). read_region (start ∷ stepped a 1 (length rest)) u) w
            ∙ read_step u start value (stepped (suc start) 1 (length rest)) rest
                (f.elsewhere start p h (inl (omega arith)) eo ∙ lo) f.there;
        elsewhere = λ v q c d i.
            (let j = Later-virt_to_phys m t v q s b.sound b.later i in
              f.elsewhere v q c (ground (arith, d))
                (stored-virt_to_phys t b.sound start p value e k v ∙ j)
              ∙ load-stored t b.sound start p value h e k v c
              ∙ (let n : (if v == start then some value else load t v) ≡ load t v =
                    ground (arith, d) in
                  n)
              ∙ Later-load m t s b.sound b.later v q i);
      }

-- What is enough for no bytes and some pages more.
pub remaining :
    (start spare : ℕ) (m : Memory)
    → Enough m start (2 * pages_of start 0 + spare)
    → spare ≤ length m.free_pages
remaining start spare m (inl k) = omega arith
remaining start spare m (inr (l, o, k)) = omega (arith, o, k)

-- From a sound state, with two free pages for each page that the bytes are in, `write_bytes` returns, for
-- any start but 0 and any number of bytes that end before the last page. The state it leaves is
-- sound, and has all the free pages that are not counted for the bytes. A read of the region gives
-- the bytes, and an address outside it that had a translation keeps it and loads what it loaded.
pub write_bytes-Filled :
    (bytes : List ℕ) (start spare : ℕ) (m : Memory)
    → IsSound m
    → AreBytes bytes
    → start ≢ 0
    → start + length bytes ≤ 0xfffff000
    → 2 * pages_of start (length bytes) + spare ≤ length m.free_pages
    → Returns (write_bytes bytes start m) (λ r t. Filled m t bytes start spare)
unfolding write_bytes read_region stepped pure
write_bytes-Filled bytes start spare m s a n h k = go bytes start m s a n h (inl k)
  where
    go :
        (bytes : List ℕ) (start : ℕ) (m : Memory)
        → IsSound m
        → AreBytes bytes
        → start ≢ 0
        → start + length bytes ≤ 0xfffff000
        → Enough m start (2 * pages_of start (length bytes) + spare)
        → Returns (write_bytes bytes start m) (λ r t. Filled m t bytes start spare)
    go [] start m s a n h k = record {
      sound = s;
      left = remaining start spare m k;
      same_root = (refl, refl);
      holds = tt;
      mapped = λ _ _ e. e;
      there = refl;
      elsewhere = λ _ _ _ _ _. refl;
    }
    go (value ∷ rest) start m s a n h k =
        let need = 2 * pages_of start (suc (length rest)) + spare in
        let r =
          returned (Got m start need) (ensure_page start m)
            (ensure_page-Backed start need m s n (omega arith) (omega arith) k) in
        let t = r.1 in
        let b = r.3.1 in
        let e = live_some t b.sound start b.live in
        let p = bit_or (frame (entry t (position start))) (bit_and start 0xfff) in
        let w : wrapping_add start 1 ≡ suc start = omega arith in
        let f =
          write_step value rest start p m t r.0 r.2 e
          ∙ ap₂ (λ (c : ℕ) (o : Memory). write_bytes rest c o) w
              (stored_lem t p value (place_in_ram t b.sound start p e)) in
        let o = stored t p value in
        let i =
          go rest (suc start) o (stored-IsSound t b.sound start p value e a.0) a.1 (omega arith)
            (omega arith)
            (next-Enough m t start need value spare (omega arith) a.0 b p e (length rest) refl) in
        subst
          (λ (c : Outcome Memory ⊥ (Unit {0})).
            Returns c (λ r u. Filled m u (value ∷ rest) start spare))
          (sym f)
          (Returns-map (λ r u. Filled o u rest (suc start) spare)
            (λ r u. Filled m u (value ∷ rest) start spare) (write_bytes rest (suc start) o) i
            (λ r u g.
              write_Filled m t start need value spare (omega arith) a.0 b p e rest u g (omega arith)
                s))
