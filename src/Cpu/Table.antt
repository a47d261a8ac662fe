-- ===== src/Cpu/Table.antt =====
-- crates/riscv-cpu/src/cpu/instructions.rs and cpu.rs: the table of the instructions, in the order
-- of the code, and the search for the first entry that fits a word.
pub mod Order
use yove.Base.{
  ℕ, zero, suc, ◌+◌, Option, some, none, List, [], ◌∷◌, map, if◌then◌else◌, ◌==◌, bit_and,
  wrapping_sub,
}
use yove.Base.Exec.{Exec, ok, err}
use yove.Trap.{Trap, illegal_instruction}
use yove.Bus.{Memory}
use yove.Cpu.{Cpu}
use yove.Cpu.Ops.{Operation, nothing}
use yove.Cpu.Ops.Arith
use yove.Cpu.Ops.Branch
use yove.Cpu.Ops.Transfer
use yove.Cpu.Ops.Atomic
use yove.Cpu.Ops.Status
use yove.Cpu.Ops.MulDiv
use yove.Cpu.Ops.System

pub record Pattern : Type 0 where
  pub mask : ℕ
  pub data_bits : ℕ

pub record Instruction (M : Type 0) : Type 0 where
  pub pattern_bits : Pattern
  pub operation : Operation M

abbrev pub entry : {M : Type 0} → ℕ → ℕ → Operation M → Instruction M
entry mask data_bits operation = record {
  pattern_bits = record { mask = mask; data_bits = data_bits };
  operation = operation;
}

-- `(word & inst.mask) == inst.data`; the index of the first entry that fits.
unfoldable pub first_match : List Pattern → ℕ → Option ℕ
first_match [] word = none
first_match (p ∷ rest) word =
    if bit_and word p.mask == p.data_bits
    then some 0
    else elim (first_match rest word) [ none ↦ none | some i ↦ some (suc i) ]

module _ {M : Type 0} (bus : Memory M) where
  unfoldable pub get_instructions : List (Instruction M)
  get_instructions =
      entry 0x0000707f 0x00000013 Arith.addi
      ∷ entry 0x0000707f 0x00002023 (Transfer.sw bus)
      ∷ entry 0x0000707f 0x00002003 (Transfer.lw bus)
      ∷ entry 0xfe00707f 0x00000033 Arith.add
      ∷ entry 0x0000707f 0x00006063 Branch.bltu
      ∷ entry 0x0000707f 0x00000067 Branch.jalr
      ∷ entry 0x0000707f 0x00004003 (Transfer.lbu bus)
      ∷ entry 0x0000007f 0x00000017 Arith.auipc
      ∷ entry 0x0000707f 0x00000023 (Transfer.sb bus)
      ∷ entry 0x0000707f 0x00000063 Branch.beq
      ∷ entry 0x0000707f 0x00007013 Arith.andi
      ∷ entry 0x0000707f 0x00001063 Branch.bne
      ∷ entry 0xfe00707f 0x00006033 Arith.or
      ∷ entry 0xfe00707f 0x40000033 Arith.sub
      ∷ entry 0xfc00707f 0x00001013 Arith.slli
      ∷ entry 0x0000007f 0x00000037 Arith.lui
      ∷ entry 0x0000707f 0x00004013 Arith.xori
      ∷ entry 0x0000007f 0x0000006f Branch.jal
      ∷ entry 0xfc00707f 0x00005013 Arith.srli
      ∷ entry 0x0000707f 0x00007063 Branch.bgeu
      ∷ entry 0x0000707f 0x00005063 Branch.bge
      ∷ entry 0xfe00707f 0x00003033 Arith.sltu
      ∷ entry 0xfe00707f 0x00005033 Arith.srl
      ∷ entry 0xfe00707f 0x00007033 Arith.and
      ∷ entry 0xfc00707f 0x40005013 Arith.srai
      ∷ entry 0xfe00707f 0x00001033 Arith.sll
      ∷ entry 0x0000707f 0x00004063 Branch.blt
      ∷ entry 0x0000707f 0x00001023 (Transfer.sh bus)
      ∷ entry 0x0000707f 0x00003013 Arith.sltiu
      ∷ entry 0x0000707f 0x00005003 (Transfer.lhu bus)
      ∷ entry 0x0000707f 0x00001003 (Transfer.lh bus)
      ∷ entry 0x0000707f 0x00002013 Arith.slti
      ∷ entry 0xfe00707f 0x02000033 MulDiv.mul
      ∷ entry 0xfe00707f 0x00004033 Arith.xor
      ∷ entry 0xfe00707f 0x02003033 MulDiv.mulhu
      ∷ entry 0x0000707f 0x00000003 (Transfer.lb bus)
      ∷ entry 0x0000707f 0x0000000f nothing
      ∷ entry 0x0000707f 0x00006013 Arith.ori
      ∷ entry 0xf800707f 0x0800202f (Atomic.amoswap_w bus)
      ∷ entry 0xf800707f 0x0000202f (Atomic.amoadd_w bus)
      ∷ entry 0xf9f0707f 0x1000202f (Atomic.lr_w bus)
      ∷ entry 0xf800707f 0x1800202f (Atomic.sc_w bus)
      ∷ entry 0xfe00707f 0x00002033 Arith.slt
      ∷ entry 0x0000707f 0x0000001b Arith.addiw
      ∷ entry 0xfe00707f 0x0000003b Arith.addw
      ∷ entry 0xf800707f 0x2000202f (Atomic.amoxor_w bus)
      ∷ entry 0xf800707f 0x6000202f (Atomic.amoand_w bus)
      ∷ entry 0xf800707f 0xc000202f (Atomic.amominu_w bus)
      ∷ entry 0xf800707f 0x8000202f (Atomic.amomin_w bus)
      ∷ entry 0xf800707f 0xe000202f (Atomic.amomaxu_w bus)
      ∷ entry 0xf800707f 0xa000202f (Atomic.amomax_w bus)
      ∷ entry 0xf800707f 0x4000202f (Atomic.amoor_w bus)
      ∷ entry 0x0000707f 0x00003073 Status.csrrc
      ∷ entry 0x0000707f 0x00007073 Status.csrrci
      ∷ entry 0x0000707f 0x00002073 Status.csrrs
      ∷ entry 0x0000707f 0x00006073 Status.csrrsi
      ∷ entry 0x0000707f 0x00001073 Status.csrrw
      ∷ entry 0x0000707f 0x00005073 Status.csrrwi
      ∷ entry 0xfe00707f 0x02004033 MulDiv.div
      ∷ entry 0xfe00707f 0x02005033 MulDiv.divu
      ∷ entry 0xfe00707f 0x0200503b MulDiv.divuw
      ∷ entry 0xfe00707f 0x0200403b MulDiv.divw
      ∷ entry 0xffffffff 0x00100073 nothing
      ∷ entry 0xffffffff 0x00000073 (System.ecall bus)
      ∷ entry 0x0000707f 0x0000100f nothing
      ∷ entry 0x0000707f 0x00006003 (Transfer.lwu bus)
      ∷ entry 0xfe00707f 0x02001033 MulDiv.mulh
      ∷ entry 0xfe00707f 0x02002033 MulDiv.mulhsu
      ∷ entry 0xfe00707f 0x0200003b MulDiv.mulw
      ∷ entry 0xffffffff 0x30200073 (System.mret bus)
      ∷ entry 0xfe00707f 0x02006033 MulDiv.rem
      ∷ entry 0xfe00707f 0x02007033 MulDiv.remu
      ∷ entry 0xfe00707f 0x0200703b MulDiv.remuw
      ∷ entry 0xfe00707f 0x0200603b MulDiv.remw
      ∷ entry 0xfe007fff 0x12000073 nothing
      ∷ entry 0xfe00707f 0x0000101b Arith.slliw
      ∷ entry 0xfe00707f 0x0000103b Arith.sllw
      ∷ entry 0xfe00707f 0x40005033 Arith.sra
      ∷ entry 0xfc00707f 0x4000501b Arith.sraiw
      ∷ entry 0xfe00707f 0x4000503b Arith.sraw
      ∷ entry 0xffffffff 0x10200073 (System.sret bus)
      ∷ entry 0xfc00707f 0x0000501b Arith.srliw
      ∷ entry 0xfe00707f 0x0000503b Arith.srlw
      ∷ entry 0xfe00707f 0x4000003b Arith.subw
      ∷ entry 0xffffffff 0x00200073 (System.uret bus)
      ∷ entry 0xffffffff 0x10500073 (System.wfi bus)
      ∷ []

  -- `self.instructions[index].operation`, for an index that the search gave
  unfoldable pub operation_at : List (Instruction M) → ℕ → Option (Operation M)
  operation_at [] i = none
  operation_at (e ∷ rest) zero = some e.operation
  operation_at (e ∷ rest) (suc i) = operation_at rest i

  unfoldable pub decode_and_get_instruction_index : ℕ → Option ℕ
  decode_and_get_instruction_index word =
      first_match (map (λ (e : Instruction M). e.pattern_bits) get_instructions) word

  unfoldable pub found : Option ℕ → Option (Operation M)
  found none = none
  found (some i) = operation_at get_instructions i

  unfoldable pub or_illegal : Option (Operation M) → Exec (Cpu M) Trap (Operation M)
  or_illegal none c =
      err (record { trap_type = illegal_instruction; value = wrapping_sub c.pc 4 }) c
  or_illegal (some operation) c = ok operation c

  unfoldable pub decode : ℕ → Exec (Cpu M) Trap (Operation M)
  decode word = or_illegal (found (decode_and_get_instruction_index word))
