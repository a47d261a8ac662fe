-- ===== src/Xous/Ram.antt =====
-- src/xous.rs, `impl riscv_cpu::cpu::Memory for Memory`: the words of the RAM by physical address.
pub mod Laws
pub mod Word
pub mod Bytes
use yove.Base.{
  ℕ, ◌+◌, ◌-◌, ◌*◌, ◌/◌, ◌^◌, ◌%◌, ◌<◌, Bool, true, false, Option, some, none, List, [], ◌∷◌,
  if◌then◌else◌, ◌==◌, ltb, leb, bit_and, bit_or, update, complement, u8, u16, u32, wrapping_add,
  wrapping_sub, ◌>>>◌, ◌<<<◌,
}
use yove.Xous.{Memory}

-- `self.data.get(page >> 12).map(|page| page[index]).unwrap_or(0)`
abbrev pub word_at : Memory → ℕ → ℕ → ℕ
word_at m page index = if ltb page m.page_count then m.pages page index else 0

-- `if let Some(page) = self.data.get(page >> 12) { page[index] = value }`
abbrev pub set_word : ℕ → ℕ → ℕ → Memory → Memory
set_word page index value m =
    if ltb page m.page_count
    then record m { pages = update m.pages page (update (m.pages page) index value) }
    else m

-- `address - self.base`, the page in its high bits, and the word and the first bit in its offset.
abbrev pub place : Memory → ℕ → ℕ
place m address = wrapping_sub address m.base

abbrev pub page_of : Memory → ℕ → ℕ
page_of m address = place m address >>> 12

abbrev pub index_of : Memory → ℕ → ℕ
index_of m address = place m address % 2 ^ 12 / 4

abbrev pub pos_of : Memory → ℕ → ℕ
pos_of m address = place m address % 2 ^ 12 % 4 * 8

unfoldable pub from_le_bytes : List ℕ → ℕ
from_le_bytes [] = 0
from_le_bytes (b ∷ rest) = b + 2 ^ 8 * from_le_bytes rest

-- The bits of a word that a write of `mask` at bit `pos` replaces.
abbrev pub replaced : ℕ → ℕ → ℕ → ℕ → ℕ
replaced mask pos old value = bit_or (bit_and old (complement (mask <<< pos))) (value <<< pos)

unfoldable pub read_u8 : Memory → ℕ → ℕ
read_u8 m address = u8 (word_at m (page_of m address) (index_of m address) >>> pos_of m address)

unfoldable pub read_u16 : Memory → ℕ → ℕ
read_u16 m address =
    if bit_and address 1 == 0
    then u16 (word_at m (page_of m address) (index_of m address) >>> pos_of m address)
    else from_le_bytes (read_u8 m address ∷ read_u8 m (wrapping_add address 1) ∷ [])

unfoldable pub read_u32 : Memory → ℕ → ℕ
read_u32 m address =
    if bit_and address 3 == 0
    then word_at m (page_of m address) (index_of m address)
    else from_le_bytes (
        read_u8 m address
        ∷ read_u8 m (wrapping_add address 1)
        ∷ read_u8 m (wrapping_add address 2)
        ∷ read_u8 m (wrapping_add address 3)
        ∷ [])

unfoldable pub write_u8 : Memory → ℕ → ℕ → Memory
write_u8 m address value =
    let page = page_of m address in
    let index = index_of m address in
    set_word page index (replaced 0xff (pos_of m address) (m.pages page index) value) m

unfoldable pub write_u16 : Memory → ℕ → ℕ → Memory
write_u16 m address value =
    if bit_and address 1 == 0
    then (let page = page_of m address in
        let index = index_of m address in
        set_word page index (replaced 0xffff (pos_of m address) (m.pages page index) value) m)
    else write_u8 (write_u8 m address (value % 2 ^ 8)) (wrapping_add address 1) (value / 2 ^ 8)

unfoldable pub write_u32 : Memory → ℕ → ℕ → Memory
write_u32 m address value =
    if bit_and address 3 == 0
    then set_word (page_of m address) (index_of m address) value m
    else (let m1 = write_u8 m address (value % 2 ^ 8) in
        let m2 = write_u8 m1 (wrapping_add address 1) (value / 2 ^ 8 % 2 ^ 8) in
        let m3 = write_u8 m2 (wrapping_add address 2) (value / 2 ^ 16 % 2 ^ 8) in
        write_u8 m3 (wrapping_add address 3) (value / 2 ^ 24))

unfoldable pub validate_address : Memory → ℕ → Bool
validate_address m address =
    if ltb address m.base then false else ltb (address - m.base) m.page_count

-- The cache has 0xfffff entries: the outer `none` is the panic past its end.
unfoldable pub translate : Memory → ℕ → Option (Option ℕ)
translate m v_address =
    if ltb (v_address >>> 12) 0xfffff
    then some (elim (m.translation_cache (v_address >>> 12)) [
      | none ↦ none
      | some phys ↦ some (bit_or phys (bit_and v_address 0xfff))
    ])
    else none

unfoldable pub reserve : Memory → ℕ → ℕ → Memory
reserve m core p_address = record m { reservations = update m.reservations p_address (some core) }

abbrev pub is_some_of : Option ℕ → ℕ → Bool
is_some_of none core = false
is_some_of (some holder) core = holder == core

unfoldable pub clear_reservation : Memory → ℕ → ℕ → Bool × Memory
clear_reservation m core p_address = (
  is_some_of (m.reservations p_address) core,
  record m { reservations = update m.reservations p_address none },
)
