-- ===== src/Mmu/Walk/Reference.antt =====
-- The page walk against a description of Sv32 (crates/riscv-cpu/src/mmu.rs, traverse_page).
use yove.Base.{
  ℕ, ◌+◌, ◌*◌, ◌/◌, ◌^◌, ◌%◌, ◌≡◌, refl, subst, ap, ap₂, sym, ◌∙◌, Bool, true, false, not, ◌&&◌,
  ◌||◌, Option, some, none, List, [], ◌∷◌, if◌then◌else◌, ◌==◌, bit_and, bit_and_mask, ◌>>>◌,
  get_or, u32, arith,
}
use yove.Base.Exec.{Outcome, Exec, ok, err, panic, raise, pure, modify, ◌>>=◌, ◌>>◌}
use yove.Bus.{Memory}
use yove.Mmu.{
  sv32, MemoryAccessType, execute, read, write, dont_care, Mmu, load_word_raw, store_word_raw,
}
use yove.Mmu.Walk.{
  flag, is_refused, needs_touch, touched, leaf_address, leaf, traverse_level, traverse_page,
  translate_paged,
}
use yove.Mmu.Walk.Sv32.{is_valid, is_pointer, allows, page, sv32_walk, small_page, superpage}

-- The result of a walk, whatever it does to the memory: `some none` is a page fault.
abbrev pub value : {S E A : Type 0} → Outcome S E A → Option (Option A)
value (ok a t) = some (some a)
value (err e t) = some none
value panic = none

last_level :
    (valid pointer allowed : Bool) (x : Option ℕ)
    → (if not valid
        then some none
        else if pointer
        then some none
        else some (if allowed then x else none))
      ≡ some (if valid && not pointer && allowed then x else none)
last_level valid pointer allowed x = ground arith

first_level :
    (valid pointer : Bool) (x y : Option ℕ)
    → (if not valid then some none else if pointer then some x else some y)
      ≡ some (if not valid then none else if pointer then x else y)
first_level valid pointer x y = ground arith

vpns_of : ℕ → List ℕ
vpns_of v = bit_and (v >>> 12) 0x3ff ∷ bit_and (v >>> 22) 0x3ff ∷ []

module _ {M : Type 0} (bus : Memory M) where
  -- Whether the entry is written back first does not change the result.
  after_touch :
      {A : Type 0} (b : Bool) (f : Mmu M → Mmu M) (g : Exec (Mmu M) (Unit {0}) A) (m : Mmu M)
      (r : Option (Option A))
      → ((s : Mmu M) → value (g s) ≡ r)
      → value (((if b then modify f else pure tt) >> g) m) ≡ r
  unfolding ◌>>=◌
  after_touch true f g m r h = h (f m)
  after_touch false f g m r h = h m

  refused : (t : MemoryAccessType) (pte : ℕ) → is_refused t pte ≡ not (allows t pte)
  refused execute pte = ground (arith, bit_and_mask 1 (pte >>> 3))
  refused read pte = ground (arith, bit_and_mask 1 (pte >>> 1))
  refused write pte = ground (arith, bit_and_mask 1 (pte >>> 2))
  refused dont_care pte = refl

  leaf_value :
      (t : MemoryAccessType) (a v pte : ℕ) (m : Mmu M)
      → value (leaf bus 0 v (vpns_of v) t a pte m)
        ≡ some (if allows t pte then some (u32 (page pte * 2 ^ 12) + v % 2 ^ 12) else none)
  unfolding leaf leaf_address ◌>>=◌
  leaf_value t a v pte m =
      after_touch (needs_touch t pte) (store_word_raw bus a (touched t pte))
        (if is_refused t pte then raise tt else leaf_address bus 0 v (vpns_of v) pte) m _
        λ s. ground (arith, refused t pte, small_page pte v)

  superleaf_value :
      (t : MemoryAccessType) (a v pte : ℕ) (m : Mmu M)
      → value (leaf bus 1 v (vpns_of v) t a pte m)
        ≡ some (
            if allows t pte && page pte % 2 ^ 10 == 0
            then some (page pte / 2 ^ 10 * 2 ^ 22 % 2 ^ 32 + v % 2 ^ 22)
            else none)
  unfolding leaf leaf_address vpns_of ◌>>=◌
  superleaf_value t a v pte m =
      after_touch (needs_touch t pte) (store_word_raw bus a (touched t pte))
        (if is_refused t pte then raise tt else leaf_address bus 1 v (vpns_of v) pte) m _
        λ s. ground (arith, refused t pte, superpage pte v, bit_and_mask 10 (pte >>> 10))

  -- The tests of the code on an entry.
  invalid :
      (pte : ℕ) → (flag pte 0 == 0 || (flag pte 1 == 0 && flag pte 2 == 1)) ≡ not (is_valid pte)
  invalid pte =
      ground
        (arith, bit_and_mask 1 (pte >>> 0), bit_and_mask 1 (pte >>> 1), bit_and_mask 1 (pte >>> 2))

  pointer : (pte : ℕ) → (flag pte 1 == 0 && flag pte 3 == 0) ≡ is_pointer pte
  pointer pte = ground (arith, bit_and_mask 1 (pte >>> 1), bit_and_mask 1 (pte >>> 3))

  index0 : (v : ℕ) → get_or (vpns_of v) 0 0 ≡ v / 2 ^ 12 % 2 ^ 10
  unfolding vpns_of
  index0 v = bit_and_mask 10 (v >>> 12)

  index1 : (v : ℕ) → get_or (vpns_of v) 1 0 ≡ v / 2 ^ 22 % 2 ^ 10
  unfolding vpns_of
  index1 v = bit_and_mask 10 (v >>> 22)

  -- What the code does on a level, with the entry at an address.
  abbrev Level : ℕ → (ℕ → Exec (Mmu M) (Unit {0}) ℕ) → ℕ → ℕ → MemoryAccessType → Mmu M → ℕ → Type 0
  Level level below v parent t m a =
      let pte = load_word_raw bus m a in
      value (traverse_level bus level below v parent (vpns_of v) t m) ≡ (
        if not (is_valid pte)
        then some none
        else if is_pointer pte
        then value (below (bit_and (pte >>> 10) 0x3fffff) m)
        else value (leaf bus level v (vpns_of v) t a pte m))

  traverse_level_lem :
      (level : ℕ) (below : ℕ → Exec (Mmu M) (Unit {0}) ℕ) (v parent : ℕ) (t : MemoryAccessType)
      (m : Mmu M)
      → m.addressing_mode ≡ sv32
      → Level level below v parent t m (u32 (parent * 2 ^ 12 + get_or (vpns_of v) level 0 * 4))
  unfolding traverse_level ◌>>=◌
  traverse_level_lem level below v parent t m e =
      let pte = load_word_raw bus m (u32 (parent * 2 ^ 12 + get_or (vpns_of v) level 0 * 4)) in
      ground (arith, invalid pte, pointer pte)

  -- The second table of the reference.
  abbrev second : (ℕ → ℕ) → ℕ → ℕ → MemoryAccessType → Option ℕ
  second word_at ppn v t =
      let pte0 = word_at (u32 (ppn * 2 ^ 12 + v / 2 ^ 12 % 2 ^ 10 * 4)) in
      if is_valid pte0 && not (is_pointer pte0) && allows t pte0
      then some (u32 (page pte0 * 2 ^ 12) + v % 2 ^ 12)
      else none

  second_value :
      (ppn v : ℕ) (t : MemoryAccessType) (m : Mmu M)
      → m.addressing_mode ≡ sv32
      → value (traverse_page bus 0 v ppn (vpns_of v) t m)
        ≡ some (second (load_word_raw bus m) ppn v t)
  unfolding traverse_page ◌>>=◌
  second_value ppn v t m e =
      let a = u32 (ppn * 2 ^ 12 + v / 2 ^ 12 % 2 ^ 10 * 4) in
      let pte = load_word_raw bus m a in
      subst (λ (i : ℕ). Level 0 (λ ppn. raise tt) v ppn t m (u32 (ppn * 2 ^ 12 + i * 4))) (index0 v)
        (traverse_level_lem 0 (λ ppn. raise tt) v ppn t m e)
      ∙ ap (λ r. if not (is_valid pte) then some none else if is_pointer pte then some none else r)
          (leaf_value t a v pte m)
      ∙ last_level (is_valid pte) (is_pointer pte) (allows t pte) _

  -- With the addressing mode SV32, the translation for the user and the supervisor mode always
  -- returns, without a panic, the address or the page fault that the description of Sv32 without the
  -- flag U, SUM and MXR gives for the memory before it, for every kind of access.
  pub translate_paged-sv32_walk :
      (v : ℕ) (t : MemoryAccessType) (m : Mmu M)
      → m.addressing_mode ≡ sv32
      → value (translate_paged bus v t m) ≡ some (sv32_walk (load_word_raw bus m) m.ppn v t)
  unfolding translate_paged traverse_page vpns_of ◌>>=◌
  translate_paged-sv32_walk v t m e =
      let a = u32 (m.ppn * 2 ^ 12 + v / 2 ^ 22 % 2 ^ 10 * 4) in
      let pte = load_word_raw bus m a in
      let below : ℕ → Exec (Mmu M) (Unit {0}) ℕ = λ ppn. traverse_page bus 0 v ppn (vpns_of v) t in
      subst (λ (i : ℕ). Level 1 below v m.ppn t m (u32 (m.ppn * 2 ^ 12 + i * 4))) (index1 v)
        (traverse_level_lem 1 below v m.ppn t m e)
      ∙ ap₂ (λ r s. if not (is_valid pte) then some none else if is_pointer pte then r else s)
          (pointed pte) (superleaf_value t a v pte m)
      ∙ first_level (is_valid pte) (is_pointer pte) _ _
    where
      pointed :
          (pte : ℕ)
          → value (traverse_page bus 0 v (bit_and (pte >>> 10) 0x3fffff) (vpns_of v) t m)
            ≡ some (second (load_word_raw bus m) (page pte) v t)
      pointed pte =
          subst
            (λ (ppn : ℕ).
              value (traverse_page bus 0 v ppn (vpns_of v) t m)
              ≡ some (second (load_word_raw bus m) (page pte) v t))
            (sym (bit_and_mask 22 (pte >>> 10))) (second_value (page pte) v t m e)
