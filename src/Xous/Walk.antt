-- ===== src/Xous/Walk.antt =====
-- The MMU of the emulator on the page tables of src/xous.rs.
pub mod Address
use yove.Base.{
  ℕ, ◌+◌, ◌*◌, ◌/◌, ◌%◌, ◌^◌, ◌≡◌, inl, inr, List, refl, ap, ap₂, sym, ◌∙◌, Bool, true, false, not,
  ◌&&◌, Option, some, none, if◌then◌else◌, ◌==◌, bit_and, bit_or, bit_and_mask, bit_and_shifted,
  u32, ◌>>>◌, arith,
}
use yove.Base.Exec.{Exec}
use yove.Mmu.{Mmu, sv32, MemoryAccessType}
use yove.Mmu.Walk.{translate_paged}
use yove.Mmu.Walk.Sv32.{is_valid, is_pointer, allows, page, sv32_walk}
use yove.Mmu.Walk.Reference.{value, translate_paged-sv32_walk}
use yove.Xous.{Memory}
use yove.Xous.Ram.{read_u32}
use yove.Xous.Pages.{frame, is_invalid, virt_to_phys, l1_address, l0_address}
use yove.Xous.Pages.Words.{IsPage}
use yove.Xous.Pages.Sound.{IsSound}
use yove.Xous.Pages.Translate.{frame_parts, phys_of}
use yove.Xous.Pages.Ensure.Ready.{vpn1_of, vpn1-lt, valid_cases}
use yove.Xous.Services.{Service}
use yove.Xous.Kernel.{Kernel, bus}

-- The entry of the page of an address.
abbrev pub leaf_entry : Memory → ℕ → ℕ
leaf_entry m v = read_u32 m (l0_address (read_u32 m (l1_address m v)) v)

-- The translation that the flags of the page allow.
abbrev pub permitted : Memory → ℕ → MemoryAccessType → Option ℕ
permitted m v t =
    if is_valid (leaf_entry m v) && not (is_pointer (leaf_entry m v)) && allows t (leaf_entry m v)
    then virt_to_phys m v
    else none

root_address :
    (m : Memory) (v : ℕ)
    → IsPage m m.l1_pt
    → u32 (m.l1_pt / 2 ^ 12 * 2 ^ 12 + v / 2 ^ 22 % 2 ^ 10 * 4) ≡ l1_address m v
root_address m v i = omega (arith, i.start, bit_and_mask 10 (v >>> 22))

leaf_address : (e v : ℕ) → u32 (page e * 2 ^ 12 + v / 2 ^ 12 % 2 ^ 10 * 4) ≡ l0_address e v
leaf_address e v = omega (arith, bit_and_mask 10 (v >>> 12))

-- The walk by the two entries that it reads.
abbrev walk_of : ℕ → ℕ → ℕ → MemoryAccessType → Option ℕ
walk_of e f v t =
    if not (is_valid e)
    then none
    else if is_pointer e
    then if is_valid f && not (is_pointer f) && allows t f
      then some (u32 (page f * 2 ^ 12) + v % 2 ^ 12)
      else none
    else if allows t e && page e % 2 ^ 10 == 0
    then some (page e / 2 ^ 10 * 2 ^ 22 % 2 ^ 32 + v % 2 ^ 22)
    else none

same_page : (f v : ℕ) → bit_or (frame f) (bit_and v 0xfff) ≡ u32 (page f * 2 ^ 12) + v % 2 ^ 12
same_page f v = omega (arith, frame_parts f v)

pointer_bits : (e : ℕ) → bit_and e 0xe ≡ e / 2 % 8 * 2
pointer_bits e =
    (let u : bit_and e (7 * 2 ^ 1) ≡ bit_and (e / 2 ^ 1) 7 * 2 ^ 1 = bit_and_shifted 1 7 e in
      omega (arith, u, bit_and_mask 3 (e / 2 ^ 1)))

invalid_bit : (e : ℕ) → is_invalid e ≡ (e % 2 == 0)
invalid_bit e = ground (arith, bit_and_mask 1 e)

dead_walk : (e f v : ℕ) (t : MemoryAccessType) → is_invalid e ≡ true → walk_of e f v t ≡ none
dead_walk e f v t d = ground (arith, invalid_bit e)

live_walk :
    (e f v : ℕ) (t : MemoryAccessType)
    → is_invalid e ≡ false
    → bit_and e 0xe ≡ 0
    → walk_of e f v t ≡ (
        if is_valid f && not (is_pointer f) && allows t f
        then some (u32 (page f * 2 ^ 12) + v % 2 ^ 12)
        else none)
live_walk e f v t d p = ground (arith, invalid_bit e, pointer_bits e)

guarded :
    (b c d : Bool) (x y : Option ℕ)
    → (b ≡ true → x ≡ y)
    → (if b && c && d then x else none) ≡ (if b && c && d then y else none)
guarded true c d x y h = ap (λ (z : Option ℕ). if c && d then z else none) (h refl)
guarded false c d x y h = refl

same_leaf :
    (e f v : ℕ)
    → is_invalid e ≡ false
    → bit_and e 0xe ≡ 0
    → is_valid f ≡ true
    → some (u32 (page f * 2 ^ 12) + v % 2 ^ 12) ≡ phys_of e f v
same_leaf e f v d p h = ground (arith, same_page f v, invalid_bit f)

by_entries :
    (e f v : ℕ) (t : MemoryAccessType)
    → (is_invalid e ≡ false → bit_and e 0xe ≡ 0)
    → walk_of e f v t
      ≡ (if is_valid f && not (is_pointer f) && allows t f then phys_of e f v else none)
by_entries e f v t p = elim (valid_cases e) [
  | inl d ↦
      live_walk e f v t d (p d)
      ∙ guarded (is_valid f) (not (is_pointer f)) (allows t f)
          (some (u32 (page f * 2 ^ 12) + v % 2 ^ 12)) (phys_of e f v) (same_leaf e f v d (p d))
  | inr d ↦
      dead_walk e f v t d
      ∙ nothing (is_valid f && not (is_pointer f) && allows t f) (phys_of e f v) (gone e f v d)
]
  where
    nothing : (b : Bool) (x : Option ℕ) → x ≡ none → none ≡ (if b then x else none)
    nothing true x h = sym h
    nothing false x h = refl

    gone : (e f v : ℕ) → is_invalid e ≡ true → phys_of e f v ≡ none
    gone e f v d = ground (arith, d)

sound_walk :
    (m : Memory) (v : ℕ) (t : MemoryAccessType)
    → IsSound m
    → sv32_walk (read_u32 m) (m.l1_pt / 2 ^ 12) v t ≡ permitted m v t
unfolding virt_to_phys
sound_walk m v t s =
    let a = root_address m v (s.allocated m.l1_pt s.root_table) in
    let e = read_u32 m (l1_address m v) in
    let low : is_invalid e ≡ false → bit_and e 0xe ≡ 0 =
      λ d. s.pointers (vpn1_of v) (vpn1-lt v) (ap not d) in
    ap₂
      (λ (x y : ℕ).
        walk_of (read_u32 m x)
          (read_u32 m (u32 (page (read_u32 m y) * 2 ^ 12 + v / 2 ^ 12 % 2 ^ 10 * 4))) v t)
      a a
    ∙ ap (λ (x : ℕ). walk_of e (read_u32 m x) v t) (leaf_address e v)
    ∙ by_entries e (leaf_entry m v) v t low

module _ {S W : Type 0} (services : Service S (Kernel S W))
    (threads : ℕ → ℕ → ℕ → List ℕ → Exec (Kernel S W) ℕ (ℕ × ℕ)) where
  -- With SV32, and the root table of the memory in satp, the page walk of the MMU on a sound state of
  -- the memory always returns: the address that `virt_to_phys` gives, where the
  -- entry of the page is a leaf that allows the access, and else the page fault.
  pub translate_paged-permitted :
      (v : ℕ) (t : MemoryAccessType) (mmu : Mmu (Kernel S W))
      → mmu.addressing_mode ≡ sv32
      → mmu.ppn ≡ mmu.memory.memory.l1_pt / 2 ^ 12
      → IsSound mmu.memory.memory
      → value (translate_paged (bus services threads) v t mmu)
        ≡ some (permitted mmu.memory.memory v t)
  translate_paged-permitted v t mmu a p s =
      translate_paged-sv32_walk (bus services threads) v t mmu a
      ∙ ap (λ (x : ℕ). some (sv32_walk (read_u32 mmu.memory.memory) x v t)) p
      ∙ ap some (sound_walk mmu.memory.memory v t s)
