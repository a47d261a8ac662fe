-- ===== src/Xous/Program/Entry.antt =====
-- The state in which a program starts (src/xous.rs, load_program).
use yove.Base.{
  length, ℕ, ◌+◌, ◌-◌, ◌*◌, ◌<◌, ◌≤◌, ◌≡◌, inl, subst, ap, sym, ◌∙◌, true, some, List, ◌∷◌, [], u32,
  update, wrapping_sub, arith,
}
use yove.Base.Exec.{Outcome, ok}
use yove.Base.Exec.Returns.{Returns}
use yove.Bus
use yove.Cpu.{Cpu}
use yove.Xous.{Memory, stack_start, stack_end}
use yove.Xous.Pages.{virt_to_phys, page_range}
use yove.Xous.Pages.Regions.{write_bytes}
use yove.Xous.Pages.Sound.{IsSound}
use yove.Xous.Pages.Ensure.Page.{returned}
use yove.Xous.Pages.Load.{load}
use yove.Xous.Pages.Starts.{all_mapped}
use yove.Xous.Kernel.{Kernel}
use yove.Xous.Syscalls.Fill.{Holds, Filled, write_bytes-Filled}
use yove.Xous.Syscalls.Backed.{pages_of, AreBytes, Later-load}
use yove.Xous.Program.{LoadError, Section, Elf, ensure_stack, load_sections, load_elf, enter}
use yove.Xous.Program.Image.{contents}
use yove.Xous.Program.Reserve.{Stacked, ensure_stack-Stacked}
use yove.Xous.Program.Sections.{
  is_loaded, cost, ArePlaceable, AreDisjoint, AllHold, Image, kept-Holds, before, with_memory,
  Loaded, load_sections-Loaded, length-contents_le,
}
use yove.Xous.Program.Enter.{Entered, stack_below, enter-Entered, load_elf_step}

-- All sections end before an address.
abbrev pub AreBelow : ℕ → List Section → Type 0
AreBelow bound [] = Unit
AreBelow bound (sh ∷ rest) =
    (is_loaded sh ≡ true → sh.sh_addr + sh.sh_size ≤ bound) × AreBelow bound rest

kept-AllHold :
    (program : List ℕ) (t u : Memory) (bound : ℕ) (shs : List Section)
    → AreBelow bound shs
    → ((w p : ℕ) → w < bound → virt_to_phys t w ≡ some p → load u w ≡ load t w)
    → AllHold program t shs
    → AllHold program u shs
kept-AllHold program t u bound [] b k h = tt
kept-AllHold program t u bound (sh ∷ rest) b k h = (
  λ l.
      kept-Holds t u sh.sh_addr (contents program sh)
        (λ w p c d e. k w p (omega (arith, b.0 l, d, length-contents_le program sh)) e) (h.0 l),
  kept-AllHold program t u bound rest b.1 k h.1,
)

-- Where the block of arguments starts.
abbrev pub params_start : List ℕ → ℕ
params_start params = stack_end - length params

-- What the loader leaves: the processor has entered the program, with the place of its arguments in
-- register 11, and the memory holds the sections, the arguments and the stack.
abbrev pub Prepared :
    {S W : Type 0} → List ℕ → List ℕ → Elf → Kernel S W → ℕ → Cpu (Kernel S W) → Type 0
Prepared program params elf k satp t =
    (x : ℕ → ℕ) × (m : Memory) × Entered satp (u32 elf.entry) (stack_below (length params))
      (update x 11 (params_start params)) (with_memory m k) t
    × (satp ≡ k.memory.satp)
    × IsSound m
    × (m.l1_pt ≡ k.memory.l1_pt)
    × AllHold program m elf.section_headers
    × Holds m (params_start params) params
    × (all_mapped m (page_range stack_start stack_end) ≡ true)

module _ {S W : Type 0} (bus : Bus.Memory (Kernel S W)) (program params : List ℕ) (elf : Elf)
    (x : ℕ → ℕ) (k : Kernel S W) (small : length params ≤ stack_end - stack_start)
    (low : AreBelow (params_start params) elf.section_headers) where
  abbrev first : ℕ
  first = params_start params

  at_first : wrapping_sub stack_end (u32 (length params)) ≡ first
  at_first = omega arith

  -- The four steps, one after the other.
  module _ (y : ℕ → ℕ) (m₁ m₂ m₃ : Memory) (t : Cpu (Kernel S W))
      (i : Image program elf.section_headers k.memory m₁ (2 * pages_of first (length params) + 64))
      (j : Filled m₁ m₂ params first 64) (n : Stacked m₂ m₃ (page_range stack_start stack_end) 0)
      (r : Entered m₁.satp
        (u32 elf.entry)
        (stack_below (length params))
        (update y 11 first)
        (with_memory m₃ k)
        t) where
    steps :
        load_sections program elf.section_headers (before x k) ≡ ok tt (before y (with_memory m₁ k))
        → write_bytes params first m₁ ≡ ok tt m₂
        → ensure_stack (page_range stack_start stack_end) m₂ ≡ ok tt m₃
        → enter bus m₁.satp
            (u32 elf.entry)
            (length params)
            (before (update y 11 first) (with_memory m₃ k))
          ≡ ok tt t
        → load_elf bus program params elf (before x k) ≡ ok m₁.satp t
    steps e f g h =
        load_elf_step bus program params elf (before x k) y k m₁ m₂ m₃ t e
          (ap (λ (w : ℕ). write_bytes params w m₁) at_first ∙ f) g
          (ap
              (λ (w : ℕ).
                enter bus m₁.satp (u32 elf.entry) (length params)
                  (before (update y 11 w) (with_memory m₃ k)))
              at_first
            ∙ h)

    sections_there : AllHold program m₃ elf.section_headers
    sections_there =
        kept-AllHold program m₁ m₃ first elf.section_headers low
          (λ w p c v.
            Later-load m₂ m₃ j.sound n.0.sound n.0.later w p (j.mapped w p v)
            ∙ j.elsewhere w p (omega arith) (inl c) v)
          i.holds

    params_there : Holds m₃ first params
    params_there =
        kept-Holds m₂ m₃ first params
          (λ w p _ _ v. Later-load m₂ m₃ j.sound n.0.sound n.0.later w p v) j.holds

    prepared : Prepared program params elf k m₁.satp t
    prepared = (
      y,
      m₃,
      r,
      i.same_root.1,
      n.0.sound,
      n.0.later.same_root.0 ∙ j.same_root.0 ∙ i.same_root.0,
      sections_there,
      params_there,
      n.1,
    )

  -- After the sections and the arguments.
  with_params :
      (y : ℕ → ℕ) (m₁ m₂ : Memory)
      → Image program elf.section_headers k.memory m₁ (2 * pages_of first (length params) + 64)
      → Filled m₁ m₂ params first 64
      → load_sections program elf.section_headers (before x k) ≡ ok tt (before y (with_memory m₁ k))
      → write_bytes params first m₁ ≡ ok tt m₂
      → Returns
          (load_elf bus program params elf (before x k))
          (λ satp t. Prepared program params elf k satp t)
  with_params y m₁ m₂ i j e f =
      let r₃ =
        returned (λ r t. Stacked m₂ t (page_range stack_start stack_end) 0)
          (ensure_stack (page_range stack_start stack_end) m₂)
          (ensure_stack-Stacked 32 stack_start 0 m₂ j.sound (omega arith) (omega arith)
            (omega (arith, j.left))) in
      let z = update y 11 first in
      let r₄ =
        returned
          (λ _ t.
            Entered m₁.satp (u32 elf.entry) (stack_below (length params)) z (with_memory r₃.1 k) t)
          (enter bus m₁.satp (u32 elf.entry) (length params) (before z (with_memory r₃.1 k)))
          (enter-Entered bus m₁.satp (u32 elf.entry) (length params) z (with_memory r₃.1 k)) in
      subst
        (λ (o : Outcome (Cpu (Kernel S W)) LoadError ℕ).
          Returns o (λ satp t. Prepared program params elf k satp t))
        (sym (steps y m₁ m₂ r₃.1 r₄.1 i j r₃.3 r₄.3 e f r₃.2 r₄.2))
        (prepared y m₁ m₂ r₃.1 r₄.1 i j r₃.3 r₄.3)

module _ {S W : Type 0} (bus : Bus.Memory (Kernel S W)) where
  -- The loader after the parser.
  pub load_elf-Prepared :
      (program params : List ℕ) (elf : Elf) (x : ℕ → ℕ) (k : Kernel S W)
      → IsSound k.memory
      → AreBytes program
      → AreBytes params
      → length params ≤ stack_end - stack_start
      → ArePlaceable program elf.section_headers
      → AreDisjoint elf.section_headers
      → AreBelow (params_start params) elf.section_headers
      → cost elf.section_headers + (2 * pages_of (params_start params) (length params) + 64)
        ≤ length k.memory.free_pages
      → Returns
          (load_elf bus program params elf (before x k))
          (λ satp t. Prepared program params elf k satp t)
  load_elf-Prepared program params elf x k s a b l f d g h =
      let shs = elf.section_headers in
      let start = params_start params in
      let size = 2 * pages_of start (length params) + 64 in
      let r₁ =
        returned (λ r t. Loaded program shs k size t) (load_sections program shs (before x k))
          (load_sections-Loaded program shs size x k s a f d h) in
      let m₁ = r₁.3.1 in
      let i = r₁.3.3 in
      let r₂ =
        returned (λ r t. Filled m₁ t params start 64) (write_bytes params start m₁)
          (write_bytes-Filled params start 64 m₁ i.sound b (omega arith) (omega arith) i.left) in
      with_params bus program params elf x k l g r₁.3.0 m₁ r₂.1 i r₂.3
        (r₁.2 ∙ ap (λ c. ok tt c) r₁.3.2) r₂.2
