-- ===== src/Mmu/Walk/Protection.antt =====
-- The page walk (crates/riscv-cpu/src/mmu.rs, traverse_page) against the rules of Sv32 on protection.
use yove.Base.{
  ℕ, ◌+◌, ◌*◌, ◌/◌, ◌^◌, ◌%◌, ◌≡◌, refl, ap, sym, ◌∙◌, Bool, true, false, not, ◌&&◌, ◌||◌, Option,
  some, none, if◌then◌else◌, ◌==◌, bit, u32, arith,
}
use yove.Trap.{PrivilegeMode, user, supervisor}
use yove.Bus.{Memory}
use yove.Mmu.{sv32, MemoryAccessType, execute, read, write, dont_care, Mmu, load_word_raw}
use yove.Mmu.Walk.{translate_paged, translate_as}
use yove.Mmu.Walk.Sv32.{is_valid, is_pointer, allows, page, sv32_walk}
use yove.Mmu.Walk.Reference.{value, translate_paged-sv32_walk}

-- The flags R, W and X of a leaf grant the access; with MXR a page that can be executed can be read.
abbrev pub flags_grant : Bool → MemoryAccessType → ℕ → Bool
flags_grant mxr execute pte = bit 3 pte == 1
flags_grant mxr read pte = bit 1 pte == 1 || (mxr && bit 3 pte == 1)
flags_grant mxr write pte = bit 2 pte == 1
flags_grant mxr dont_care pte = true

-- A page with the flag U is for the user mode. The supervisor mode reaches it only with SUM, and never to
-- execute. A translation without an access is not refused.
abbrev pub mode_grants : (is_user sum : Bool) → MemoryAccessType → ℕ → Bool
mode_grants is_user sum dont_care pte = true
mode_grants true sum t pte = bit 4 pte == 1
mode_grants false sum execute pte = bit 4 pte == 0
mode_grants false sum t pte = bit 4 pte == 0 || sum

abbrev pub grants : (is_user sum mxr : Bool) → MemoryAccessType → ℕ → Bool
grants is_user sum mxr t pte = flags_grant mxr t pte && mode_grants is_user sum t pte

-- Sv32 with its protection, on addresses of 32 bits.
abbrev pub sv32_translation :
    (is_user sum mxr : Bool) → (ℕ → ℕ) → ℕ → ℕ → MemoryAccessType → Option ℕ
sv32_translation is_user sum mxr word_at root v t =
    let pte1 = word_at (u32 (root * 2 ^ 12 + v / 2 ^ 22 % 2 ^ 10 * 4)) in
    let pte0 = word_at (u32 (page pte1 * 2 ^ 12 + v / 2 ^ 12 % 2 ^ 10 * 4)) in
    if not (is_valid pte1)
    then none
    else if is_pointer pte1
    then if is_valid pte0 && not (is_pointer pte0) && grants is_user sum mxr t pte0
      then some (u32 (page pte0 * 2 ^ 12) + v % 2 ^ 12)
      else none
    else if grants is_user sum mxr t pte1 && page pte1 % 2 ^ 10 == 0
    then some (page pte1 / 2 ^ 10 * 2 ^ 22 % 2 ^ 32 + v % 2 ^ 22)
    else none

-- The leaf that the tables have for an address.
abbrev pub leaf_at : (ℕ → ℕ) → ℕ → ℕ → Option ℕ
leaf_at word_at root v =
    let pte1 = word_at (u32 (root * 2 ^ 12 + v / 2 ^ 22 % 2 ^ 10 * 4)) in
    let pte0 = word_at (u32 (page pte1 * 2 ^ 12 + v / 2 ^ 12 % 2 ^ 10 * 4)) in
    if not (is_valid pte1)
    then none
    else if not (is_pointer pte1)
    then some pte1
    else if is_valid pte0 && not (is_pointer pte0)
    then some pte0
    else none

-- The mode may use the page, and MXR does not come into it.
abbrev pub needs_mxr : Bool → MemoryAccessType → ℕ → Bool
needs_mxr mxr read pte = mxr && bit 1 pte == 0 && bit 3 pte == 1
needs_mxr mxr t pte = false

abbrev pub is_open : (is_user sum mxr : Bool) → MemoryAccessType → Option ℕ → Bool
is_open is_user sum mxr t none = true
is_open is_user sum mxr t (some pte) = mode_grants is_user sum t pte && not (needs_mxr mxr t pte)

flags_lem :
    (mxr : Bool) (t : MemoryAccessType) (pte : ℕ)
    → needs_mxr mxr t pte ≡ false
    → flags_grant mxr t pte ≡ allows t pte
flags_lem mxr execute pte h = refl
flags_lem mxr read pte h = ground (arith, h)
flags_lem mxr write pte h = refl
flags_lem mxr dont_care pte h = refl

open_grants :
    (is_user sum mxr : Bool) (t : MemoryAccessType) (pte : ℕ)
    → is_open is_user sum mxr t (some pte) ≡ true
    → grants is_user sum mxr t pte ≡ allows t pte
open_grants is_user sum mxr t pte h =
    let e = flags_lem mxr t pte (ground (arith, h)) in ground (arith, e, h)

same_walk :
    (valid1 pointer1 valid0 pointer0 allowed1 granted1 allowed0 granted0 aligned : Bool)
    (x y : Option ℕ)
    → (valid1 ≡ true → pointer1 ≡ false → granted1 ≡ allowed1)
    → (valid1 ≡ true → pointer1 ≡ true → valid0 ≡ true → pointer0 ≡ false → granted0 ≡ allowed0)
    → (if not valid1
        then none
        else if pointer1
        then if valid0 && not pointer0 && allowed0 then x else none
        else if allowed1 && aligned
        then y
        else none)
      ≡ (if not valid1
          then none
          else if pointer1
          then if valid0 && not pointer0 && granted0 then x else none
          else if granted1 && aligned
          then y
          else none)
same_walk false _ _ _ _ _ _ _ _ x y h k = refl
same_walk true false _ _ _ _ _ _ aligned x y h k =
    ap (λ (b : Bool). if b && aligned then y else none) (sym (h refl refl))
same_walk true true false _ _ _ _ _ _ x y h k = refl
same_walk true true true true _ _ _ _ _ x y h k = refl
same_walk true true true false _ _ _ _ _ x y h k =
    ap (λ (b : Bool). if b then x else none) (sym (k refl refl refl refl))

module _ (is_user sum mxr : Bool) (word_at : ℕ → ℕ) (root v : ℕ) (t : MemoryAccessType) where
  abbrev pte1 : ℕ
  pte1 = word_at (u32 (root * 2 ^ 12 + v / 2 ^ 22 % 2 ^ 10 * 4))

  abbrev pte0 : ℕ
  pte0 = word_at (u32 (page pte1 * 2 ^ 12 + v / 2 ^ 12 % 2 ^ 10 * 4))

  superleaf : is_valid pte1 ≡ true → is_pointer pte1 ≡ false → leaf_at word_at root v ≡ some pte1
  superleaf a b = rw (a, b) refl

  small_leaf :
      is_valid pte1 ≡ true
      → is_pointer pte1 ≡ true
      → is_valid pte0 ≡ true
      → is_pointer pte0 ≡ false
      → leaf_at word_at root v ≡ some pte0
  small_leaf a b c d = rw (a, b, c, d) refl

  open_walk :
      is_open is_user sum mxr t (leaf_at word_at root v) ≡ true
      → sv32_walk word_at root v t ≡ sv32_translation is_user sum mxr word_at root v t
  open_walk h =
      same_walk (is_valid pte1) (is_pointer pte1) (is_valid pte0) (is_pointer pte0) (allows t pte1)
        (grants is_user sum mxr t pte1) (allows t pte0) (grants is_user sum mxr t pte0)
        (page pte1 % 2 ^ 10 == 0) (some (u32 (page pte0 * 2 ^ 12) + v % 2 ^ 12))
        (some (page pte1 / 2 ^ 10 * 2 ^ 22 % 2 ^ 32 + v % 2 ^ 22))
        (λ a b.
          open_grants is_user sum mxr t pte1
            (ap (is_open is_user sum mxr t) (sym (superleaf a b)) ∙ h))
        (λ a b c d.
          open_grants is_user sum mxr t pte0
            (ap (is_open is_user sum mxr t) (sym (small_leaf a b c d)) ∙ h))

abbrev pub mode_of : Bool → PrivilegeMode
mode_of true = user
mode_of false = supervisor

module _ {M : Type 0} (bus : Memory M) where
  translate_as_lem :
      (is_user : Bool) (v : ℕ) (t : MemoryAccessType) (m : Mmu M)
      → translate_as bus (mode_of is_user) v t m ≡ translate_paged bus v t m
  unfolding translate_as
  translate_as_lem true v t m = refl
  translate_as_lem false v t m = refl

  -- With the addressing mode SV32, the translation for the user or the supervisor mode, with any SUM
  -- and MXR, always returns without a panic. Where the tables have no leaf for the address, or a
  -- leaf that the mode may use by its flag U and by SUM and that is not read by MXR alone, it gives
  -- for every kind of access the address or the page fault of Sv32 with its protection. Where the
  -- leaf is closed to the mode, or only MXR makes it readable, it gives what the walk without U, SUM
  -- and MXR gives, which the code does not look at.
  pub translate_as-sv32_translation :
      (is_user sum mxr : Bool) (v : ℕ) (t : MemoryAccessType) (m : Mmu M)
      → m.addressing_mode ≡ sv32
      → value (translate_as bus (mode_of is_user) v t m)
        ≡ some (
            if is_open is_user sum mxr t (leaf_at (load_word_raw bus m) m.ppn v)
            then sv32_translation is_user sum mxr (load_word_raw bus m) m.ppn v t
            else sv32_walk (load_word_raw bus m) m.ppn v t)
  translate_as-sv32_translation is_user sum mxr v t m e =
      ap value (translate_as_lem is_user v t m)
      ∙ translate_paged-sv32_walk bus v t m e
      ∙ ap some (
          by_leaf (is_open is_user sum mxr t (leaf_at (load_word_raw bus m) m.ppn v))
            (sv32_walk (load_word_raw bus m) m.ppn v t)
            (sv32_translation is_user sum mxr (load_word_raw bus m) m.ppn v t)
            (open_walk is_user sum mxr (load_word_raw bus m) m.ppn v t))
    where
      by_leaf : (b : Bool) (x y : Option ℕ) → (b ≡ true → x ≡ y) → x ≡ (if b then y else x)
      by_leaf true x y h = h refl
      by_leaf false x y h = refl
