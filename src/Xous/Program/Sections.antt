-- ===== src/Xous/Program/Sections.antt =====
-- All sections of a program, with the processor that will run it (src/xous.rs, load_program).
use yove.Base.{
  length, ℕ, zero, suc, ◌+◌, ◌*◌, ◌^◌, ◌<◌, ◌≤◌, ◌≡◌, ◌⊎◌, inl, inr, refl, subst, sym, ◌∙◌, Bool,
  true, false, not, some, List, ◌∷◌, [], if◌then◌else◌, ◌==◌, bit_and, u32, update, arith,
}
use yove.Base.Exec.{Outcome, ok, pure, ◌>>=◌}
use yove.Base.Exec.Returns.{Returns, Returns-map}
use yove.Cpu.{Cpu, build}
use yove.Xous.{Memory}
use yove.Xous.Pages.{virt_to_phys}
use yove.Xous.Pages.Sound.{IsSound, true-false}
use yove.Xous.Pages.Ensure.Page.{returned}
use yove.Xous.Pages.Ensure.Ready.{boolean}
use yove.Xous.Pages.Load.{load}
use yove.Xous.Kernel.{Kernel}
use yove.Xous.Services.Buffer.{taken, dropped}
use yove.Xous.Syscalls.Fill.{Holds, load_phys}
use yove.Xous.Syscalls.Backed.{pages_of, AreBytes}
use yove.Xous.Program.{
  LoadError, Section, is_eh_frame, on_memory, place_section, load_section, load_sections,
}
use yove.Xous.Program.Image.{contents, IsPlaceable, Placed, place_section-Placed}

abbrev pub is_loaded : Section → Bool
is_loaded sh = not (bit_and (u32 sh.sh_flags) 2 == 0)

-- The pages that the sections may need.
abbrev pub cost : List Section → ℕ
cost [] = 0
cost (sh ∷ rest) = (if is_loaded sh then 2 * pages_of sh.sh_addr sh.sh_size else 0) + cost rest

-- The sections can be placed; the one that the program unwinds with is in the lower half.
abbrev pub ArePlaceable : List ℕ → List Section → Type 0
ArePlaceable program [] = Unit
ArePlaceable program (sh ∷ rest) =
    (is_loaded sh ≡ true
      → IsPlaceable program sh × (is_eh_frame sh.name ≡ true → sh.sh_addr < 2 ^ 31))
    × ArePlaceable program rest

-- An address that no section has.
abbrev pub Outside : ℕ → List Section → Type 0
Outside w [] = Unit
Outside w (sh ∷ rest) =
    (is_loaded sh ≡ true → (w < sh.sh_addr) ⊎ (sh.sh_addr + sh.sh_size ≤ w)) × Outside w rest

abbrev pub AreDisjoint : List Section → Type 0
AreDisjoint [] = Unit
AreDisjoint (sh ∷ rest) =
    (is_loaded sh ≡ true → (w : ℕ) → sh.sh_addr ≤ w → w < sh.sh_addr + sh.sh_size → Outside w rest)
    × AreDisjoint rest

-- Every section is in the memory.
abbrev pub AllHold : List ℕ → Memory → List Section → Type 0
AllHold program t [] = Unit
AllHold program t (sh ∷ rest) =
    (is_loaded sh ≡ true → Holds t sh.sh_addr (contents program sh)) × AllHold program t rest

-- The sections are there, and what was elsewhere is as it was.
pub record Image (program : List ℕ) (shs : List Section) (m t : Memory) (spare : ℕ) : Type 0 where
  pub sound : IsSound t
  pub left : spare ≤ length t.free_pages
  pub same_root : (t.l1_pt ≡ m.l1_pt) × (t.satp ≡ m.satp)
  pub holds : AllHold program t shs
  pub mapped : (w p : ℕ) → virt_to_phys m w ≡ some p → virt_to_phys t w ≡ some p
  pub elsewhere :
      (w p : ℕ) → w < 2 ^ 32 → Outside w shs → virt_to_phys m w ≡ some p → load t w ≡ load m w

-- Bytes that are loaded still are, if every address of theirs loads as before.
pub kept-Holds :
    (t u : Memory) (start : ℕ) (bytes : List ℕ)
    → ((w p : ℕ)
        → start ≤ w
        → w < start + length bytes
        → virt_to_phys t w ≡ some p
        → load u w ≡ load t w)
    → Holds t start bytes
    → Holds u start bytes
kept-Holds t u start [] k h = tt
kept-Holds t u start (b ∷ rest) k h =
    let e = load_phys t start b h.0 in
    (
      k start e.0 (omega arith) (omega arith) e.1 ∙ h.0,
      kept-Holds t u (suc start) rest (λ w p c d f. k w p (omega arith) (omega arith) f) h.1,
    )

taken-le : (n : ℕ) (xs : List ℕ) → length (taken n xs) ≤ n
taken-le zero xs = omega arith
taken-le (suc n) [] = omega arith
taken-le (suc n) (x ∷ xs) = omega (arith, taken-le n xs)

pub length-contents_le :
    (program : List ℕ) (sh : Section) → length (contents program sh) ≤ sh.sh_size
length-contents_le program sh = ground (arith, taken-le sh.sh_size (dropped sh.sh_offset program))

Placed-first :
    (program : List ℕ) (sh : Section) (rest : List Section) (spare more : ℕ) (m t u : Memory)
    → is_loaded sh ≡ true
    → IsPlaceable program sh
    → AreDisjoint (sh ∷ rest)
    → Placed m t (contents program sh) sh.sh_addr sh.sh_size more
    → Image program rest t u spare
    → Image program (sh ∷ rest) m u spare
Placed-first program sh rest spare more m t u l f d a i = record {
  sound = i.sound;
  left = i.left;
  same_root = (i.same_root.0 ∙ a.same_root.0, i.same_root.1 ∙ a.same_root.1);
  holds = (
    λ _.
        kept-Holds t u sh.sh_addr (contents program sh)
          (λ w p b c e.
            i.elsewhere w p (omega (arith, f.fits, c, length-contents_le program sh))
              (d.0 l w b (omega (arith, c, length-contents_le program sh))) e)
          a.holds,
    i.holds,
  );
  mapped = λ w p e. i.mapped w p (a.mapped w p e);
  elsewhere = λ w p h o e. i.elsewhere w p h o.1 (a.mapped w p e) ∙ a.elsewhere w p h (o.0 l) e;
}

skipped_first :
    (program : List ℕ) (sh : Section) (rest : List Section) (spare : ℕ) (m u : Memory)
    → is_loaded sh ≡ false
    → Image program rest m u spare
    → Image program (sh ∷ rest) m u spare
skipped_first program sh rest spare m u l i = record {
  sound = i.sound;
  left = i.left;
  same_root = i.same_root;
  holds = (λ e. absurd (true-false (sym e ∙ l)), i.holds);
  mapped = i.mapped;
  elsewhere = λ w p h o e. i.elsewhere w p h o.1 e;
}

-- The processor before it enters the program, with its registers and the kernel.
abbrev pub before : {S W : Type 0} → (ℕ → ℕ) → Kernel S W → Cpu (Kernel S W)
before x k = record (build k 0 0) { x = x }

abbrev pub with_memory : {S W : Type 0} → Memory → Kernel S W → Kernel S W
with_memory m k = record k { memory = m }

module _ {S W : Type 0} (program : List ℕ) (sh : Section) (x : ℕ → ℕ) (k : Kernel S W) where
  skip_section : is_loaded sh ≡ false → load_section program sh (before x k) ≡ ok tt (before x k)
  unfolding load_section ◌>>=◌
  skip_section l =
      let e : (bit_and (u32 sh.sh_flags) 2 == 0) ≡ true = ground (arith, l) in
      rw (load_section, e) refl

  -- The registers after a section.
  abbrev marked : ℕ → ℕ
  marked = if is_eh_frame sh.name then update x 10 sh.sh_addr else x

  load_one :
      (t : Memory)
      → is_loaded sh ≡ true
      → (is_eh_frame sh.name ≡ true → sh.sh_addr < 2 ^ 31)
      → place_section program sh k.memory ≡ ok tt t
      → load_section program sh (before x k) ≡ ok tt (before marked (with_memory t k))
  unfolding load_section on_memory ◌>>=◌
  load_one t l h e = elim (boolean (is_eh_frame sh.name)) [
    | inl f ↦ let b = h f in ground (arith, l, f, e, b)
    | inr f ↦ ground (arith, l, f, e)
  ]

load_step :
    {S W : Type 0} (program : List ℕ) (sh : Section) (rest : List Section) (c d : Cpu (Kernel S W))
    → load_section program sh c ≡ ok tt d
    → load_sections program (sh ∷ rest) c ≡ load_sections program rest d
unfolding load_sections ◌>>=◌
load_step program sh rest c d e = ground (arith, e)

-- What the loop over the sections leaves: some registers, and the image in the memory.
abbrev pub Loaded :
    {S W : Type 0} → List ℕ → List Section → Kernel S W → ℕ → Cpu (Kernel S W) → Type 0
Loaded program shs k spare t =
    (x : ℕ → ℕ) × (m : Memory) × (t ≡ before x (with_memory m k))
    × Image program shs k.memory m spare

pub load_sections-Loaded :
    {S W : Type 0} (program : List ℕ) (shs : List Section) (spare : ℕ) (x : ℕ → ℕ) (k : Kernel S W)
    → IsSound k.memory
    → AreBytes program
    → ArePlaceable program shs
    → AreDisjoint shs
    → cost shs + spare ≤ length k.memory.free_pages
    → Returns (load_sections program shs (before x k)) (λ r t. Loaded program shs k spare t)
unfolding load_sections pure
load_sections-Loaded program [] spare x k s a f d h = (
  x,
  k.memory,
  refl,
  record {
    sound = s;
    left = omega arith;
    same_root = (refl, refl);
    holds = tt;
    mapped = λ w p e. e;
    elsewhere = λ w p _ _ _. refl;
  },
)
load_sections-Loaded {S} {W} program (sh ∷ rest) spare x k s a f d h =
    elim (boolean (is_loaded sh)) [
      | inl l ↦
          let g = f.0 l in
          let more = cost rest + spare in
          let r =
            returned (λ r t. Placed k.memory t (contents program sh) sh.sh_addr sh.sh_size more)
              (place_section program sh k.memory)
              (place_section-Placed program sh more k.memory s a g.0
                (omega (arith, h, counted l))) in
          let t = r.1 in
          let e = load_one program sh x k t l g.1 r.2 in
          let y = marked program sh x k in
          subst
            (λ (o : Outcome (Cpu (Kernel S W)) LoadError (Unit {0})).
              Returns o (λ r t. Loaded program (sh ∷ rest) k spare t))
            (sym (load_step program sh rest (before x k) (before y (with_memory t k)) e))
            (Returns-map (λ r u. Loaded program rest (with_memory t k) spare u)
              (λ r u. Loaded program (sh ∷ rest) k spare u)
              (load_sections program rest (before y (with_memory t k)))
              (load_sections-Loaded program rest spare y (with_memory t k) r.3.sound a f.1 d.1
                r.3.left)
              (λ r' u i. (
                i.0,
                i.1,
                i.2,
                Placed-first program sh rest spare more k.memory t i.1 l g.0 d r.3 i.3,
              )))
      | inr l ↦
          subst
            (λ (o : Outcome (Cpu (Kernel S W)) LoadError (Unit {0})).
              Returns o (λ r t. Loaded program (sh ∷ rest) k spare t))
            (sym
              (load_step program sh rest (before x k) (before x k) (skip_section program sh x k l)))
            (Returns-map (λ r u. Loaded program rest k spare u)
              (λ r u. Loaded program (sh ∷ rest) k spare u)
              (load_sections program rest (before x k))
              (load_sections-Loaded program rest spare x k s a f.1 d.1
                (omega (arith, h, uncounted l)))
              (λ r u i. (i.0, i.1, i.2, skipped_first program sh rest spare k.memory i.1 l i.3)))
    ]
  where
    counted :
        is_loaded sh ≡ true → cost (sh ∷ rest) ≡ 2 * pages_of sh.sh_addr sh.sh_size + cost rest
    counted l = ground (arith, l)

    uncounted : is_loaded sh ≡ false → cost (sh ∷ rest) ≡ cost rest
    uncounted l = ground (arith, l)
