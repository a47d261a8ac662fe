-- ===== src/Mmu/Walk/Sv32.antt =====
-- A description of the translation Sv32, and the addresses that the code puts together for it
-- (crates/riscv-cpu/src/mmu.rs, traverse_page).
use yove.Base.{
  ℕ, ◌+◌, ◌*◌, ◌/◌, ◌^◌, ◌%◌, ◌≡◌, ap₂, ◌∙◌, Bool, true, not, ◌&&◌, ◌||◌, Option, some, none,
  if◌then◌else◌, ◌==◌, bit, bit_and, bit_or, bit_and_mask, bit_or_fields, ◌>>>◌, ◌<<<◌, u32, arith,
}
use yove.Mmu.{MemoryAccessType, execute, read, write, dont_care}

-- The entry is valid; it points to the next table; it allows the access.
abbrev pub is_valid : ℕ → Bool
is_valid pte = bit 0 pte == 1 && (bit 1 pte == 1 || bit 2 pte == 0)

abbrev pub is_pointer : ℕ → Bool
is_pointer pte = bit 1 pte == 0 && bit 3 pte == 0

abbrev pub allows : MemoryAccessType → ℕ → Bool
allows execute pte = bit 3 pte == 1
allows read pte = bit 1 pte == 1
allows write pte = bit 2 pte == 1
allows dont_care pte = true

-- The page number in an entry.
abbrev pub page : ℕ → ℕ
page pte = pte / 2 ^ 10 % 2 ^ 22

-- Sv32: two levels of tables of 1024 words, pages of 4 KiB, and superpages of 4 MiB that are
-- aligned, on addresses of 32 bits. `word_at` gives a word of the memory. The flag U, SUM and MXR are
-- left out here; Protection adds them.
abbrev pub sv32_walk : (ℕ → ℕ) → ℕ → ℕ → MemoryAccessType → Option ℕ
sv32_walk word_at root v t =
    let pte1 = word_at (u32 (root * 2 ^ 12 + v / 2 ^ 22 % 2 ^ 10 * 4)) in
    let pte0 = word_at (u32 (page pte1 * 2 ^ 12 + v / 2 ^ 12 % 2 ^ 10 * 4)) in
    if not (is_valid pte1)
    then none
    else if is_pointer pte1
    then if is_valid pte0 && not (is_pointer pte0) && allows t pte0
      then some (u32 (page pte0 * 2 ^ 12) + v % 2 ^ 12)
      else none
    else if allows t pte1 && page pte1 % 2 ^ 10 == 0
    then some (page pte1 / 2 ^ 10 * 2 ^ 22 % 2 ^ 32 + v % 2 ^ 22)
    else none

pub small_page :
    (pte v : ℕ)
    → bit_or (bit_and (pte >>> 10) 0x3fffff <<< 12) (bit_and v 0xfff)
      ≡ u32 (page pte * 2 ^ 12) + v % 2 ^ 12
small_page pte v =
    ap₂ bit_or above (bit_and_mask 12 v)
    ∙ bit_or_fields 12 (page pte % 2 ^ 20) (v % 2 ^ 12) (omega arith)
    ∙ omega arith
  where
    above : bit_and (pte >>> 10) 0x3fffff <<< 12 ≡ page pte % 2 ^ 20 * 2 ^ 12
    above = omega (arith, bit_and_mask 22 (pte >>> 10))

pub superpage :
    (pte v : ℕ)
    → bit_or
        (bit_or (bit_and (pte >>> 20) 0xfff <<< 22) (bit_and (v >>> 12) 0x3ff <<< 12))
        (bit_and v 0xfff)
      ≡ page pte / 2 ^ 10 * 2 ^ 22 % 2 ^ 32 + v % 2 ^ 22
superpage pte v =
    ap₂ bit_or (ap₂ bit_or high middle ∙ bit_or_fields 22 _ _ (omega arith) ∙ joined)
      (bit_and_mask 12 v)
    ∙ bit_or_fields 12 (pte / 2 ^ 20 % 2 ^ 10 * 2 ^ 10 + v / 2 ^ 12 % 2 ^ 10) (v % 2 ^ 12)
        (omega arith)
    ∙ omega arith
  where
    high : bit_and (pte >>> 20) 0xfff <<< 22 ≡ pte / 2 ^ 20 % 2 ^ 10 * 2 ^ 22
    high = omega (arith, bit_and_mask 12 (pte >>> 20))

    middle : bit_and (v >>> 12) 0x3ff <<< 12 ≡ v / 2 ^ 12 % 2 ^ 10 * 2 ^ 12
    middle = omega (arith, bit_and_mask 10 (v >>> 12))

    joined :
        pte / 2 ^ 20 % 2 ^ 10 * 2 ^ 22 + v / 2 ^ 12 % 2 ^ 10 * 2 ^ 12
        ≡ (pte / 2 ^ 20 % 2 ^ 10 * 2 ^ 10 + v / 2 ^ 12 % 2 ^ 10) * 2 ^ 12
    joined = omega arith
