-- ===== src/Cpu/Compressed/Quadrant2.antt =====
-- crates/riscv-cpu/src/cpu.rs, `uncompress_inner`: the compressed instructions whose low bits are 2.
use yove.Base.{ℕ, not, ◌&&◌, if◌then◌else◌, ◌==◌, bit_and, ◌>>>◌, ◌<<<◌, [], ◌∷◌}
use yove.Cpu.Compressed.{invalid, right, left, any}

-- C.SLLI: slli r, r, shamt
unfoldable pub slli : ℕ → ℕ
slli halfword =
    let r = right halfword 7 0x1f in
    let shamt = any (right halfword 7 0x20 ∷ right halfword 2 0x1f ∷ []) in
    if r == 0 then invalid else any (shamt <<< 20 ∷ r <<< 15 ∷ 1 <<< 12 ∷ r <<< 7 ∷ 0x13 ∷ [])

-- C.FLDSP, C.LWSP and C.LDSP: a load relative to x2
load_stack : ℕ → ℕ → ℕ → ℕ → ℕ
load_stack opcode width offset halfword =
    let r = right halfword 7 0x1f in
    if r == 0
    then invalid
    else any (offset <<< 20 ∷ 2 <<< 15 ∷ width <<< 12 ∷ r <<< 7 ∷ opcode ∷ [])

abbrev word_offset : ℕ → ℕ
word_offset halfword =
    any (right halfword 7 0x20 ∷ right halfword 2 0x1c ∷ left halfword 4 0xc0 ∷ [])

abbrev double_offset : ℕ → ℕ
double_offset halfword =
    any (right halfword 7 0x20 ∷ right halfword 2 0x18 ∷ left halfword 4 0x1c0 ∷ [])

-- C.JR, C.MV, C.EBREAK, C.JALR and C.ADD
unfoldable pub jump_register : ℕ → ℕ
jump_register halfword =
    let funct1 = right halfword 12 1 in
    let rs1 = right halfword 7 0x1f in
    let rs2 = right halfword 2 0x1f in
    if funct1 == 0
    then (if not (rs1 == 0) && rs2 == 0
        then any (rs1 <<< 15 ∷ 0x67 ∷ [])
        else if not (rs1 == 0) && not (rs2 == 0)
        then any (rs2 <<< 20 ∷ rs1 <<< 7 ∷ 0x33 ∷ [])
        else invalid)
    else if rs1 == 0 && rs2 == 0
    then 0x00100073
    else if not (rs1 == 0) && rs2 == 0
    then any (rs1 <<< 15 ∷ 1 <<< 7 ∷ 0x67 ∷ [])
    else if not (rs1 == 0) && not (rs2 == 0)
    then any (rs2 <<< 20 ∷ rs1 <<< 15 ∷ rs1 <<< 7 ∷ 0x33 ∷ [])
    else invalid

-- C.FSDSP, C.SWSP and C.SDSP: a store relative to x2
store_stack : ℕ → ℕ → ℕ → ℕ → ℕ
store_stack opcode width offset halfword =
    let rs2 = right halfword 2 0x1f in
    let imm11_5 = bit_and (offset >>> 5) 0x3f in
    let imm4_0 = bit_and offset 0x1f in
    any (imm11_5 <<< 25 ∷ rs2 <<< 20 ∷ 2 <<< 15 ∷ width <<< 12 ∷ imm4_0 <<< 7 ∷ opcode ∷ [])

abbrev double_store_offset : ℕ → ℕ
double_store_offset halfword = any (right halfword 7 0x38 ∷ right halfword 1 0x1c0 ∷ [])

unfoldable pub quadrant2 : ℕ → ℕ → ℕ
unfolding slli load_stack jump_register store_stack
quadrant2 funct3 halfword =
    if funct3 == 0
    then slli halfword
    else if funct3 == 1
    then load_stack 0x7 3 (double_offset halfword) halfword
    else if funct3 == 2
    then load_stack 0x3 2 (word_offset halfword) halfword
    else if funct3 == 3
    then load_stack 0x3 3 (double_offset halfword) halfword
    else if funct3 == 4
    then jump_register halfword
    else if funct3 == 5
    then store_stack 0x27 3 (double_store_offset halfword) halfword
    else if funct3 == 6
    then store_stack 0x23 2 (any (right halfword 7 0x3c ∷ right halfword 1 0xc0 ∷ [])) halfword
    else store_stack 0x23 3 (double_store_offset halfword) halfword
