-- ===== src/Xous/Program/Image.antt =====
-- The sections of a program in the memory (src/xous.rs, load_program).
use yove.Base.{
  length, ℕ, zero, suc, ◌+◌, ◌-◌, ◌*◌, ◌^◌, ◌<◌, ◌≤◌, ◌≡◌, ◌≢◌, ◌⊎◌, inl, inr, refl, subst, ap, sym,
  ◌∙◌, Bool, some, List, ◌∷◌, [], if◌then◌else◌, ◌==◌, bit_and, arith,
}
use yove.Base.Exec.{Outcome, ◌>>=◌}
use yove.Base.Exec.Returns.{Returns, Returns-map}
use yove.Xous.{Memory}
use yove.Xous.Pages.{virt_to_phys}
use yove.Xous.Pages.Regions.{write_bytes}
use yove.Xous.Pages.Sound.{IsSound}
use yove.Xous.Pages.Ensure.Ready.{boolean}
use yove.Xous.Pages.Translate.{Later-virt_to_phys}
use yove.Xous.Pages.Load.{load}
use yove.Xous.Services.Buffer.{slice, taken, dropped}
use yove.Xous.Syscalls.Fill.{Holds, Filled, write_bytes-Filled}
use yove.Xous.Syscalls.Backed.{pages_of, AreBytes, Later-load}
use yove.Xous.Program.{Section, ensure_bytes, place_section}
use yove.Xous.Program.Reserve.{Reserved, ensure_bytes-Reserved}

-- The type of a section that has no bytes in the file, in the format ELF.
abbrev pub sht_nobits : ℕ
sht_nobits = 8

-- The bytes that the file has for a section, by the format.
abbrev pub contents : List ℕ → Section → List ℕ
contents program sh =
    if sh.sh_type == sht_nobits then [] else taken sh.sh_size (dropped sh.sh_offset program)

-- What the loader can take: a place in the lower part of the address space, bytes in the file, and a
-- type for which the bit that the code tests says whether the file has bytes.
pub record IsPlaceable (program : List ℕ) (sh : Section) : Type 0 where
  pub nonzero : sh.sh_addr ≢ 0
  pub fits : sh.sh_addr + sh.sh_size ≤ 0xfffff000
  pub in_file : sh.sh_type ≢ sht_nobits → sh.sh_offset + sh.sh_size ≤ length program
  pub kind : (bit_and sh.sh_type 8 ≡ 0) ⊎ (sh.sh_type ≡ sht_nobits)

-- The section is there, and what was elsewhere is as it was.
pub record Placed (m t : Memory) (bytes : List ℕ) (start size spare : ℕ) : Type 0 where
  pub sound : IsSound t
  pub left : spare ≤ length t.free_pages
  pub same_root : (t.l1_pt ≡ m.l1_pt) × (t.satp ≡ m.satp)
  pub holds : Holds t start bytes
  pub mapped : (w p : ℕ) → virt_to_phys m w ≡ some p → virt_to_phys t w ≡ some p
  pub elsewhere :
      (w p : ℕ)
      → w < 2 ^ 32
      → (w < start) ⊎ (start + size ≤ w)
      → virt_to_phys m w ≡ some p
      → load t w ≡ load m w

length-taken : (n : ℕ) (xs : List ℕ) → n ≤ length xs → length (taken n xs) ≡ n
length-taken zero xs h = refl
length-taken (suc n) [] h = absurd (omega arith)
length-taken (suc n) (x ∷ xs) h = ap suc (length-taken n xs (omega arith))

length-dropped : (n : ℕ) (xs : List ℕ) → length (dropped n xs) ≡ length xs - n
length-dropped zero xs = omega arith
length-dropped (suc n) [] = omega arith
length-dropped (suc n) (x ∷ xs) = omega (arith, length-dropped n xs)

taken-AreBytes : (n : ℕ) (xs : List ℕ) → AreBytes xs → AreBytes (taken n xs)
taken-AreBytes zero xs h = tt
taken-AreBytes (suc n) [] h = tt
taken-AreBytes (suc n) (x ∷ xs) h = (h.0, taken-AreBytes n xs h.1)

dropped-AreBytes : (n : ℕ) (xs : List ℕ) → AreBytes xs → AreBytes (dropped n xs)
dropped-AreBytes zero xs h = h
dropped-AreBytes (suc n) [] h = tt
dropped-AreBytes (suc n) (x ∷ xs) h = dropped-AreBytes n xs h.1

-- The two types that the test of the code tells apart.
has_bytes : (n : ℕ) → bit_and n 8 ≡ 0 → n ≢ 8
has_bytes n z e =
    let same : bit_and 8 8 ≡ 0 = ap (λ (x : ℕ). bit_and x 8) (sym e) ∙ z in absurd (eight same)
  where
    eight : bit_and 8 8 ≢ 0
    eight h = omega arith

no_bytes : (n : ℕ) → n ≡ 8 → bit_and n 8 ≢ 0
no_bytes n e z = has_bytes n z e

module _ (program : List ℕ) (sh : Section) (f : IsPlaceable program sh) where
  sliced :
      bit_and sh.sh_type 8 ≡ 0
      → slice program sh.sh_offset (sh.sh_offset + sh.sh_size)
        ≡ some (taken sh.sh_size (dropped sh.sh_offset program))
  unfolding slice
  sliced z =
      let h = f.in_file (has_bytes sh.sh_type z) in
      let e : sh.sh_offset + sh.sh_size - sh.sh_offset ≡ sh.sh_size = omega arith in
      (let u : slice program sh.sh_offset (sh.sh_offset + sh.sh_size)
            ≡ some
                (taken (sh.sh_offset + sh.sh_size - sh.sh_offset) (dropped sh.sh_offset program)) =
          ground (arith, h) in
        u)
      ∙ ap (λ (n : ℕ). some (taken n (dropped sh.sh_offset program))) e

  place_bytes :
      (m : Memory)
      → bit_and sh.sh_type 8 ≡ 0
      → place_section program sh m ≡ write_bytes (contents program sh) sh.sh_addr m
  unfolding place_section ◌>>=◌
  place_bytes m z =
      let l : sh.sh_addr < 2 ^ 32 = omega (arith, f.fits) in
      let n = has_bytes sh.sh_type z in ground (arith, sliced z, z, l, n)

  place_none :
      (m : Memory)
      → bit_and sh.sh_type 8 ≢ 0
      → place_section program sh m ≡ ensure_bytes sh.sh_addr sh.sh_size m
  unfolding place_section
  place_none m z = ground (arith, z)

  length-contents : bit_and sh.sh_type 8 ≡ 0 → length (contents program sh) ≡ sh.sh_size
  length-contents z =
      let h = f.in_file (has_bytes sh.sh_type z) in
      let e =
        length-taken sh.sh_size (dropped sh.sh_offset program)
          (omega (arith, h, length-dropped sh.sh_offset program)) in
      let n = has_bytes sh.sh_type z in ground (arith, n, e)

contents-AreBytes :
    (program : List ℕ) (sh : Section) → AreBytes program → AreBytes (contents program sh)
contents-AreBytes program sh h = elim (boolean (sh.sh_type == sht_nobits)) [
  | inl e ↦
      subst
        (λ (b : Bool). AreBytes (if b then [] else taken sh.sh_size (dropped sh.sh_offset program)))
        (sym e) tt
  | inr e ↦
      subst
        (λ (b : Bool). AreBytes (if b then [] else taken sh.sh_size (dropped sh.sh_offset program)))
        (sym e)
        (taken-AreBytes sh.sh_size (dropped sh.sh_offset program)
          (dropped-AreBytes sh.sh_offset program h))
]

Filled-Placed :
    (m t : Memory) (bytes : List ℕ) (start spare : ℕ)
    → Filled m t bytes start spare
    → Placed m t bytes start (length bytes) spare
Filled-Placed m t bytes start spare f = record {
  sound = f.sound;
  left = f.left;
  same_root = f.same_root;
  holds = f.holds;
  mapped = f.mapped;
  elsewhere = f.elsewhere;
}

Reserved-Placed :
    (m t : Memory) (start size spare : ℕ)
    → IsSound m
    → Reserved m t spare
    → Placed m t [] start size spare
Reserved-Placed m t start size spare s r = record {
  sound = r.sound;
  left = r.left;
  same_root = r.later.same_root;
  holds = tt;
  mapped = λ w p e. Later-virt_to_phys m t w p s r.sound r.later e;
  elsewhere = λ w p _ _ e. Later-load m t s r.sound r.later w p e;
}

pub place_section-Placed :
    (program : List ℕ) (sh : Section) (spare : ℕ) (m : Memory)
    → IsSound m
    → AreBytes program
    → IsPlaceable program sh
    → 2 * pages_of sh.sh_addr sh.sh_size + spare ≤ length m.free_pages
    → Returns
        (place_section program sh m)
        (λ r t. Placed m t (contents program sh) sh.sh_addr sh.sh_size spare)
place_section-Placed program sh spare m s a f k = elim f.kind [
  | inl z ↦
      let bytes = contents program sh in
      let e = length-contents program sh f z in
      subst
        (λ (o : Outcome Memory ⊥ (Unit {0})).
          Returns o (λ r t. Placed m t bytes sh.sh_addr sh.sh_size spare))
        (sym (place_bytes program sh f m z))
        (Returns-map (λ r t. Filled m t bytes sh.sh_addr spare)
          (λ r t. Placed m t bytes sh.sh_addr sh.sh_size spare) (write_bytes bytes sh.sh_addr m)
          (write_bytes-Filled bytes sh.sh_addr spare m s (contents-AreBytes program sh a) f.nonzero
            (omega (arith, e, f.fits)) (omega (arith, e, k)))
          (λ r t g.
            subst (λ (n : ℕ). Placed m t bytes sh.sh_addr n spare) e
              (Filled-Placed m t bytes sh.sh_addr spare g)))
  | inr z ↦
      let none_there : contents program sh ≡ [] = ground (arith, z) in
      let n = no_bytes sh.sh_type z in
      subst
        (λ (o : Outcome Memory ⊥ (Unit {0})).
          Returns o (λ r t. Placed m t (contents program sh) sh.sh_addr sh.sh_size spare))
        (sym (place_none program sh f m n))
        (Returns-map (λ r t. Reserved m t spare)
          (λ r t. Placed m t (contents program sh) sh.sh_addr sh.sh_size spare)
          (ensure_bytes sh.sh_addr sh.sh_size m)
          (ensure_bytes-Reserved sh.sh_size sh.sh_addr spare m s f.nonzero f.fits (inl k))
          (λ r t g.
            subst (λ (b : List ℕ). Placed m t b sh.sh_addr sh.sh_size spare) (sym none_there)
              (Reserved-Placed m t sh.sh_addr sh.sh_size spare s g)))
]
