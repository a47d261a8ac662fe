-- ===== src/Cpu/Compressed/Quadrant1.antt =====
-- crates/riscv-cpu/src/cpu.rs, `uncompress_inner`: the compressed instructions whose low bits are 1.
use yove.Base.{ℕ, ◌+◌, not, ◌&&◌, if◌then◌else◌, ◌==◌, bit_and, bit_or, ◌>>>◌, ◌<<<◌, [], ◌∷◌}
use yove.Cpu.Compressed.{invalid, right, left, any, sign_bits}

-- imm[31:6] <= [12], imm[5] <= [12], imm[4:0] <= [6:2]
abbrev immediate6 : ℕ → ℕ
immediate6 halfword =
    any (sign_bits halfword 0xffffffc0 ∷ right halfword 7 0x20 ∷ right halfword 2 0x1f ∷ [])

-- C.NOP and C.ADDI
unfoldable pub addi : ℕ → ℕ
addi halfword =
    let r = right halfword 7 0x1f in
    let imm = immediate6 halfword in
    if r == 0 && imm == 0
    then 0x13
    else if not (r == 0)
    then any (imm <<< 20 ∷ r <<< 15 ∷ r <<< 7 ∷ 0x13 ∷ [])
    else invalid

-- C.JAL: jal x1, offset
unfoldable pub jal : ℕ → ℕ
jal halfword =
    let bits = halfword >>> 2 in
    let imm = any (
      bit_and bits 0x40 <<< 4
      ∷ bit_and bits 0x1a0 <<< 1
      ∷ bit_and bits 0x10 <<< 3
      ∷ bit_and bits 0x1 <<< 5
      ∷ bit_and bits 0x200 >>> 5
      ∷ bit_and bits 0xe
      ∷ []) in
    let placed =
      if bit_and halfword 0x1000 == 0 then imm <<< 20 else bit_or (imm <<< 20) 0x801ff000 in
    any (placed ∷ 1 <<< 7 ∷ 0x6f ∷ [])

-- C.LI: addi rd, x0, imm
unfoldable pub li : ℕ → ℕ
li halfword =
    let r = right halfword 7 0x1f in
    if r == 0 then invalid else any (immediate6 halfword <<< 20 ∷ r <<< 7 ∷ 0x13 ∷ [])

-- C.ADDI16SP and C.LUI
unfoldable pub lui : ℕ → ℕ
lui halfword =
    let r = right halfword 7 0x1f in
    let imm = any (
      sign_bits halfword 0xfffffc00
      ∷ right halfword 3 0x200
      ∷ right halfword 2 0x10
      ∷ left halfword 1 0x40
      ∷ left halfword 4 0x180
      ∷ left halfword 3 0x20
      ∷ []) in
    let nzimm =
      any
        (sign_bits halfword 0xfffc0000 ∷ left halfword 5 0x20000 ∷ left halfword 10 0x1f000 ∷ []) in
    if r == 2 && not (imm == 0)
    then any (imm <<< 20 ∷ r <<< 15 ∷ r <<< 7 ∷ 0x13 ∷ [])
    else if not (r == 0) && not (r == 2) && not (nzimm == 0)
    then any (nzimm ∷ r <<< 7 ∷ 0x37 ∷ [])
    else invalid

-- C.SRLI, C.SRAI and C.ANDI, and the operations on two registers
abbrev shamt : ℕ → ℕ
shamt halfword = any (right halfword 7 0x20 ∷ right halfword 2 0x1f ∷ [])

abbrev two_registers : ℕ → ℕ → ℕ → ℕ → ℕ
two_registers top funct3 opcode halfword =
    let rs1 = right halfword 7 0x7 in
    let rs2 = right halfword 2 0x7 in
    any (top ∷ (rs2 + 8) <<< 20 ∷ (rs1 + 8) <<< 15 ∷ funct3 <<< 12 ∷ (rs1 + 8) <<< 7 ∷ opcode ∷ [])

unfoldable pub arithmetic : ℕ → ℕ
arithmetic halfword =
    let funct2 = right halfword 10 0x3 in
    let rs1 = right halfword 7 0x7 in
    let funct1 = right halfword 12 1 in
    let funct2_2 = right halfword 5 0x3 in
    if funct2 == 0
    then any (shamt halfword <<< 20 ∷ (rs1 + 8) <<< 15 ∷ 5 <<< 12 ∷ (rs1 + 8) <<< 7 ∷ 0x13 ∷ [])
    else if funct2 == 1
    then any (
        0x20 <<< 25
        ∷ shamt halfword <<< 20
        ∷ (rs1 + 8) <<< 15
        ∷ 5 <<< 12
        ∷ (rs1 + 8) <<< 7
        ∷ 0x13
        ∷ [])
    else if funct2 == 2
    then any
        (immediate6 halfword <<< 20 ∷ (rs1 + 8) <<< 15 ∷ 7 <<< 12 ∷ (rs1 + 8) <<< 7 ∷ 0x13 ∷ [])
    else if funct1 == 0
    then (if funct2_2 == 0
        then two_registers (0x20 <<< 25) 0 0x33 halfword
        else if funct2_2 == 1
        then two_registers 0 4 0x33 halfword
        else if funct2_2 == 2
        then two_registers 0 6 0x33 halfword
        else two_registers 0 7 0x33 halfword)
    else if funct2_2 == 0
    then two_registers (0x20 <<< 25) 0 0x3b halfword
    else if funct2_2 == 1
    then two_registers 0 0 0x3b halfword
    else invalid

-- C.J: jal x0, offset
unfoldable pub j : ℕ → ℕ
j halfword =
    let offset = any (
      sign_bits halfword 0xfffff000
      ∷ right halfword 1 0x800
      ∷ right halfword 7 0x10
      ∷ right halfword 1 0x300
      ∷ left halfword 2 0x400
      ∷ right halfword 1 0x40
      ∷ left halfword 1 0x80
      ∷ right halfword 2 0xe
      ∷ left halfword 3 0x20
      ∷ []) in
    let imm = any (
      right offset 1 0x80000
      ∷ left offset 8 0x7fe00
      ∷ right offset 3 0x100
      ∷ right offset 12 0xff
      ∷ []) in
    any (imm <<< 12 ∷ 0x6f ∷ [])

-- C.BEQZ (funct3 0) and C.BNEZ (funct3 1): a branch of r+8 against x0
unfoldable pub branch_zero : ℕ → ℕ → ℕ
branch_zero funct3 halfword =
    let r = right halfword 7 0x7 in
    let offset = any (
      sign_bits halfword 0xfffffe00
      ∷ right halfword 4 0x100
      ∷ right halfword 7 0x18
      ∷ left halfword 1 0xc0
      ∷ right halfword 2 0x6
      ∷ left halfword 3 0x20
      ∷ []) in
    let imm2 = any (right offset 6 0x40 ∷ right offset 5 0x3f ∷ []) in
    let imm1 = any (bit_and offset 0x1e ∷ right offset 11 0x1 ∷ []) in
    any (imm2 <<< 25 ∷ (r + 8) <<< 20 ∷ funct3 <<< 12 ∷ imm1 <<< 7 ∷ 0x63 ∷ [])

unfoldable pub quadrant1 : ℕ → ℕ → ℕ
unfolding addi jal li lui arithmetic j branch_zero
quadrant1 funct3 halfword =
    if funct3 == 0
    then addi halfword
    else if funct3 == 1
    then jal halfword
    else if funct3 == 2
    then li halfword
    else if funct3 == 3
    then lui halfword
    else if funct3 == 4
    then arithmetic halfword
    else if funct3 == 5
    then j halfword
    else if funct3 == 6
    then branch_zero 0 halfword
    else branch_zero 1 halfword
