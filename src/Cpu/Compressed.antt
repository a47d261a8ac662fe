-- ===== src/Cpu/Compressed.antt =====
-- crates/riscv-cpu/src/cpu.rs, `uncompress_inner`: the 32-bit instruction that a compressed one
-- stands for, by quadrant (bits 1 and 0) and funct3. What the code falls through to is invalid.
pub mod Quadrant1
pub mod Quadrant2
use yove.Base.{
  ℕ, ◌+◌, ◌*◌, ◌/◌, ◌^◌, ◌%◌, if◌then◌else◌, ◌==◌, bit_and, bit_or, ◌>>>◌, ◌<<<◌, List, [], ◌∷◌,
}

abbrev pub invalid : ℕ
invalid = 0xffffffff

-- `(halfword >> k) & mask` and `(halfword << k) & mask`
abbrev pub right : ℕ → ℕ → ℕ → ℕ
right halfword k mask = bit_and (halfword >>> k) mask

abbrev pub left : ℕ → ℕ → ℕ → ℕ
left halfword k mask = bit_and (halfword <<< k) mask

-- The `|` of several fields.
abbrev pub any : List ℕ → ℕ
any [] = 0
any (x ∷ []) = x
any (x ∷ y ∷ rest) = bit_or x (any (y ∷ rest))

-- `match halfword & 0x1000 { 0x1000 => extension, _ => 0 }`
abbrev pub sign_bits : ℕ → ℕ → ℕ
sign_bits halfword extension = if bit_and halfword 0x1000 == 0x1000 then extension else 0

-- C.ADDI4SPN: addi rd+8, x2, nzuimm
addi4spn : ℕ → ℕ
addi4spn halfword =
    let rd = right halfword 2 0x7 in
    let nzuimm = any (
      right halfword 7 0x30
      ∷ right halfword 1 0x3c0
      ∷ right halfword 4 0x4
      ∷ right halfword 2 0x8
      ∷ []) in
    if nzuimm == 0 then invalid else any (nzuimm <<< 20 ∷ 2 <<< 15 ∷ (rd + 8) <<< 7 ∷ 0x13 ∷ [])

-- C.FLD, C.LW and C.LD: the load `opcode` with `width` in funct3
load_pair : ℕ → ℕ → ℕ → ℕ → ℕ
load_pair opcode width offset halfword =
    let rs1 = right halfword 7 0x7 in
    let rd = right halfword 2 0x7 in
    any (offset <<< 20 ∷ (rs1 + 8) <<< 15 ∷ width <<< 12 ∷ (rd + 8) <<< 7 ∷ opcode ∷ [])

-- C.FSD, C.SW and C.SD
store_pair : ℕ → ℕ → ℕ → ℕ → ℕ
store_pair opcode width offset halfword =
    let rs1 = right halfword 7 0x7 in
    let rs2 = right halfword 2 0x7 in
    let imm11_5 = bit_and (offset >>> 5) 0x7f in
    let imm4_0 = bit_and offset 0x1f in
    any (
      imm11_5 <<< 25
      ∷ (rs2 + 8) <<< 20
      ∷ (rs1 + 8) <<< 15
      ∷ width <<< 12
      ∷ imm4_0 <<< 7
      ∷ opcode
      ∷ [])

abbrev word_offset : ℕ → ℕ
word_offset halfword =
    any (right halfword 7 0x38 ∷ right halfword 4 0x4 ∷ left halfword 1 0x40 ∷ [])

abbrev double_offset : ℕ → ℕ
double_offset halfword = any (right halfword 7 0x38 ∷ left halfword 1 0xc0 ∷ [])

unfoldable pub quadrant0 : ℕ → ℕ → ℕ
unfolding addi4spn load_pair store_pair
quadrant0 funct3 halfword =
    if funct3 == 0
    then addi4spn halfword
    else if funct3 == 1
    then load_pair 0x7 3 (double_offset halfword) halfword
    else if funct3 == 2
    then load_pair 0x3 2 (word_offset halfword) halfword
    else if funct3 == 3
    then load_pair 0x3 3 (double_offset halfword) halfword
    else if funct3 == 5
    then store_pair 0x27 3 (double_offset halfword) halfword
    else if funct3 == 6
    then store_pair 0x23 2 (word_offset halfword) halfword
    else if funct3 == 7
    then store_pair 0x23 3 (double_offset halfword) halfword
    else invalid
