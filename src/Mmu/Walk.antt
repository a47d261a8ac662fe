-- ===== src/Mmu/Walk.antt =====
-- crates/riscv-cpu/src/mmu.rs: the translation of a virtual address, `translate_address`,
-- `translate_address_with_privilege_mode` and the page walk `traverse_page`. The error is `()`.
pub mod Sv32
pub mod Reference
pub mod Protection
use yove.Base.{
  ℕ, zero, suc, ◌+◌, ◌*◌, ◌/◌, ◌^◌, ◌%◌, bit_and, bit_or, Bool, true, false, not, ◌&&◌, ◌||◌,
  Option, List, [], ◌∷◌, if◌then◌else◌, ◌==◌, u32, ◌>>>◌, ◌<<<◌, get_or,
}
use yove.Base.Exec.{
  Exec, ok, err, panic, pure, raise, abort, gets, modify, unwrap, assert, ◌>>=◌, ◌>>◌,
}
use yove.Trap.{PrivilegeMode, user, supervisor, reserved, machine, decode_privilege_mode}
use yove.Bus.{Memory}
use yove.Mmu.{
  AddressingMode, none, sv32, MemoryAccessType, execute, read, write, dont_care, Mmu, load_word_raw,
  store_word_raw,
}

abbrev pub is_sv32 : AddressingMode → Bool
is_sv32 none = false
is_sv32 sv32 = true

abbrev pub is_write : MemoryAccessType → Bool
is_write write = true
is_write _ = false

-- One flag of a page table entry.
abbrev pub flag : ℕ → ℕ → ℕ
flag pte k = bit_and (pte >>> k) 1

-- The match that refuses an access which the leaf's flags do not allow.
abbrev pub is_refused : MemoryAccessType → ℕ → Bool
is_refused execute pte = flag pte 3 == 0
is_refused read pte = flag pte 1 == 0
is_refused write pte = flag pte 2 == 0
is_refused dont_care pte = false

-- The entry with the accessed bit set, and for a write the dirty bit too.
abbrev pub touched : MemoryAccessType → ℕ → ℕ
touched access_type pte = bit_or (bit_or pte 0x40) (if is_write access_type then 0x80 else 0)

abbrev pub needs_touch : MemoryAccessType → ℕ → Bool
needs_touch access_type pte = flag pte 6 == 0 || (is_write access_type && flag pte 7 == 0)

module _ {M : Type 0} (bus : Memory M) where
  abbrev Translation : Type 0
  Translation = Exec (Mmu M) (Unit {0}) ℕ

  -- The physical address from a leaf entry.
  unfoldable pub leaf_address : ℕ → ℕ → List ℕ → ℕ → Translation
  leaf_address zero v_address vpns pte =
      pure (bit_or (bit_and (pte >>> 10) 0x3fffff <<< 12) (bit_and v_address 0xfff))
  leaf_address (suc zero) v_address vpns pte =
      if bit_and (pte >>> 10) 0x3ff == 0
      then pure (
          bit_or (bit_or (bit_and (pte >>> 20) 0xfff <<< 22) (get_or vpns 0 0 <<< 12))
            (bit_and v_address 0xfff))
      else raise tt
  leaf_address (suc (suc level)) v_address vpns pte = abort

  -- What follows once the entry is known to be a leaf.
  unfoldable pub leaf : ℕ → ℕ → List ℕ → MemoryAccessType → ℕ → ℕ → Translation
  leaf level v_address vpns access_type pte_address pte = do
    if needs_touch access_type pte
        then modify (store_word_raw bus pte_address (touched access_type pte))
        else pure tt
    if is_refused access_type pte then raise tt else leaf_address level v_address vpns pte

  -- The body of `traverse_page`; `below` is the walk on the next level.
  unfoldable pub traverse_level :
      ℕ → (ℕ → Translation) → ℕ → ℕ → List ℕ → MemoryAccessType → Translation
  traverse_level level below v_address parent_ppn vpns access_type = do
    mode ← gets (λ m. m.addressing_mode)
    assert (is_sv32 mode)
    let pte_address = u32 (parent_ppn * 4096 + get_or vpns level 0 * 4)
    pte ← gets (λ m. load_word_raw bus m pte_address)
    if flag pte 0 == 0 || (flag pte 1 == 0 && flag pte 2 == 1)
        then raise tt
        else if flag pte 1 == 0 && flag pte 3 == 0
        then below (bit_and (pte >>> 10) 0x3fffff)
        else leaf level v_address vpns access_type pte_address pte

  unfoldable pub traverse_page : ℕ → ℕ → ℕ → List ℕ → MemoryAccessType → Translation
  traverse_page zero v_address parent_ppn vpns access_type =
      traverse_level zero (λ ppn. raise tt) v_address parent_ppn vpns access_type
  traverse_page (suc level) v_address parent_ppn vpns access_type =
      traverse_level (suc level) (λ ppn. traverse_page level v_address ppn vpns access_type)
        v_address parent_ppn vpns access_type

  -- The branch of the user and the supervisor mode.
  unfoldable pub translate_paged : ℕ → MemoryAccessType → Translation
  translate_paged address access_type = do
    ppn ← gets (λ m. m.ppn)
    traverse_page 1 address ppn
        (bit_and (address >>> 12) 0x3ff ∷ bit_and (address >>> 22) 0x3ff ∷ []) access_type

  -- The call for the mode that mstatus names, which is not the machine mode when it is made.
  unfoldable pub translate_as : PrivilegeMode → ℕ → MemoryAccessType → Translation
  translate_as user address access_type = translate_paged address access_type
  translate_as supervisor address access_type = translate_paged address access_type
  translate_as reserved address access_type = pure address
  translate_as machine address access_type = pure address

  abbrev is_execute : MemoryAccessType → Bool
  is_execute execute = true
  is_execute _ = false

  unfoldable pub translate_machine : ℕ → MemoryAccessType → Translation
  translate_machine address access_type = do
    mstatus ← gets (λ m. m.mstatus)
    if is_execute access_type || bit_and (mstatus >>> 17) 1 == 0 then pure address else do
      mode ← unwrap (decode_privilege_mode (bit_and (mstatus >>> 9) 3))
      translate_as mode address access_type

  unfoldable pub translate_sv32 : PrivilegeMode → ℕ → MemoryAccessType → Translation
  translate_sv32 machine address access_type = translate_machine address access_type
  translate_sv32 mode address access_type = translate_as mode address access_type

  unfoldable pub translate_address_with_privilege_mode :
      ℕ → MemoryAccessType → PrivilegeMode → Translation
  translate_address_with_privilege_mode v_address access_type privilege_mode = do
    mode ← gets (λ m. m.addressing_mode)
    if is_sv32 mode then translate_sv32 privilege_mode v_address access_type else pure v_address

  unfoldable pub translate_address : ℕ → MemoryAccessType → Translation
  translate_address v_address access_type = do
    cached ← gets (λ m. bus.translate m.memory v_address)
    known ← unwrap cached
    elim known [
      | Option.some address ↦ pure address
      | Option.none ↦ do
        mode ← gets (λ m. m.addressing_mode)
        privilege_mode ← gets (λ m. m.privilege_mode)
        if is_sv32 mode
            then translate_address_with_privilege_mode v_address access_type privilege_mode
            else pure v_address
    ]
