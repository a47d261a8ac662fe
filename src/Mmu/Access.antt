-- ===== src/Mmu/Access.antt =====
-- crates/riscv-cpu/src/mmu.rs: fetches, loads and stores by virtual address. What stays within a
-- page is translated once; what crosses a page is done byte by byte.
use yove.Base.{
  ℕ, zero, suc, ◌+◌, ◌-◌, ◌*◌, bit_and, bit_or, Bool, Option, some, none, if◌then◌else◌, ◌==◌, leb,
  wrapping_add, ◌>>>◌, ◌<<<◌, u8, u16,
}
use yove.Base.Exec.{Exec, ok, err, panic, pure, abort, gets, modify, ◌>>=◌, ◌>>◌}
use yove.Trap.{TrapType, Trap, instruction_page_fault, load_page_fault, store_page_fault}
use yove.Bus.{Memory}
use yove.Mmu.{
  MemoryAccessType, execute, read, write, dont_care, Mmu, load_raw, load_halfword_raw,
  load_word_raw, store_raw, store_halfword_raw, store_word_raw,
}
use yove.Mmu.Walk.{translate_address}

-- `(v_address & 0xfff) <= (0x1000 - width)`
abbrev pub is_within_page : ℕ → ℕ → Bool
is_within_page v_address width = leb (bit_and v_address 0xfff) (0x1000 - width)

module _ {M : Type 0} (bus : Memory M) where
  -- `translate_address` with its error `()` made a page fault at the address.
  unfoldable pub translate_or_fault : TrapType → MemoryAccessType → ℕ → Exec (Mmu M) Trap ℕ
  translate_or_fault fault access_type v_address m =
      elim (translate_address bus v_address access_type m) [
        | ok p_address t ↦ ok p_address t
        | err _ t ↦ err (record { trap_type = fault; value = v_address }) t
        | panic ↦ panic
      ]

  unfoldable pub fetch : ℕ → Exec (Mmu M) Trap ℕ
  fetch v_address = do
    p_address ← translate_or_fault instruction_page_fault execute v_address
    gets (λ m. load_raw bus m p_address)

  unfoldable pub load : ℕ → Exec (Mmu M) Trap ℕ
  load v_address = do
    p_address ← translate_or_fault load_page_fault read v_address
    gets (λ m. load_raw bus m p_address)

  unfoldable pub store : ℕ → ℕ → Exec (Mmu M) Trap (Unit {0})
  store v_address value = do
    p_address ← translate_or_fault store_page_fault write v_address
    modify (store_raw bus p_address value)

  -- `for i in 0..width { data |= (byte at v_address + i) << (i * 8) }`, with `left` rounds to go.
  unfoldable pub gather : (ℕ → Exec (Mmu M) Trap ℕ) → ℕ → ℕ → ℕ → ℕ → Exec (Mmu M) Trap ℕ
  gather byte_at zero i v_address word = pure word
  gather byte_at (suc left) i v_address word = do
    byte ← byte_at (wrapping_add v_address i)
    gather byte_at left (i + 1) v_address (bit_or word (byte <<< (i * 8)))

  -- `for i in 0..width { self.store(v_address + i, ((value >> (i * 8)) & 0xff) as u8)? }`
  unfoldable pub scatter : ℕ → ℕ → ℕ → ℕ → Exec (Mmu M) Trap (Unit {0})
  scatter zero i v_address value = pure tt
  scatter (suc left) i v_address value = do
    store (wrapping_add v_address i) (u8 (bit_and (value >>> (i * 8)) 0xff))
    scatter left (i + 1) v_address value

  unfoldable pub fetch_word : ℕ → Exec (Mmu M) Trap ℕ
  fetch_word v_address =
      if is_within_page v_address 4
      then (do
        p_address ← translate_or_fault instruction_page_fault execute v_address
        gets (λ m. load_word_raw bus m p_address))
      else gather fetch 4 0 v_address 0

  -- `match width { 1 => …, 2 => …, 4 => …, _ => panic!() }`
  unfoldable pub load_width : ℕ → ℕ → Exec (Mmu M) Trap ℕ
  load_width width p_address =
      if width == 1
      then gets (λ m. load_raw bus m p_address)
      else if width == 2
      then gets (λ m. load_halfword_raw bus m p_address)
      else if width == 4
      then gets (λ m. load_word_raw bus m p_address)
      else abort

  unfoldable pub load_bytes : ℕ → ℕ → Exec (Mmu M) Trap ℕ
  load_bytes v_address width =
      if is_within_page v_address width
      then (do
        p_address ← translate_or_fault load_page_fault read v_address
        load_width width p_address)
      else gather load width 0 v_address 0

  unfoldable pub load_halfword : ℕ → Exec (Mmu M) Trap ℕ
  load_halfword v_address = do word ← load_bytes v_address 2; pure (u16 word)

  unfoldable pub load_word : ℕ → Exec (Mmu M) Trap ℕ
  load_word v_address = load_bytes v_address 4

  unfoldable pub store_width : ℕ → ℕ → ℕ → Exec (Mmu M) Trap (Unit {0})
  store_width width p_address value =
      if width == 1
      then modify (store_raw bus p_address (u8 value))
      else if width == 2
      then modify (store_halfword_raw bus p_address (u16 value))
      else if width == 4
      then modify (store_word_raw bus p_address value)
      else abort

  unfoldable pub store_bytes : ℕ → ℕ → ℕ → Exec (Mmu M) Trap (Unit {0})
  store_bytes v_address value width =
      if is_within_page v_address width
      then (do
        p_address ← translate_or_fault store_page_fault write v_address
        store_width width p_address value)
      else scatter width 0 v_address value

  unfoldable pub store_halfword : ℕ → ℕ → Exec (Mmu M) Trap (Unit {0})
  store_halfword v_address value = store_bytes v_address value 2

  unfoldable pub store_word : ℕ → ℕ → Exec (Mmu M) Trap (Unit {0})
  store_word v_address value = store_bytes v_address value 4

  -- The outer `none` is a page fault, which this method does not report as a trap.
  unfoldable pub validate_address : ℕ → Exec (Mmu M) (Unit {0}) (Option Bool)
  validate_address v_address m = elim (translate_address bus v_address dont_care m) [
    | ok p_address t ↦ ok (some (bus.validate_address t.memory p_address)) t
    | err _ t ↦ ok none t
    | panic ↦ panic
  ]
