-- ===== src/Tests.antt =====
-- The theorems at concrete states: a memory of words that is written as a whole, and cores with
-- few registers set (crates/riscv-cpu/src).
mod Xous
mod Program
use yove.Base.{
  ◌/◌, ◌*◌, ◌+◌, ℕ, ◌^◌, ◌%◌, ◌<◌, ◌≡◌, refl, true, false, some, none, update, complement, ◌↔◌, bit,
  bit_and, if◌then◌else◌, ◌==◌, arith,
}
use yove.Base.Exec.{ok, ◌>>=◌}
use yove.Base.Exec.Keeps.{Holds}
use yove.Base.Exec.Returns.{Returns}
use yove.Base.Int.{div_ℤ, rem_ℤ, abs, ◌+ℤ◌, ◌*ℤ◌, signed32}
use yove.Trap.{
  user, machine, Trap, breakpoint, get_privilege_encoding, decode_privilege_mode, get_trap_cause,
}
use yove.Trap.Codes.{decode-encoding_iff}
use yove.Bus.{Memory, continue}
use yove.Mmu.{sv32, read, write, Mmu, load_word_raw}
use yove.Mmu.Walk.{translate_as}
use yove.Mmu.Walk.Sv32.{sv32_walk}
use yove.Mmu.Walk.Reference.{value}
use yove.Mmu.Walk.Protection.{
  is_open, leaf_at, sv32_translation, mode_of, translate_as-sv32_translation,
}
use yove.Cpu.{Cpu, init}
use yove.Cpu.Address.{
  csr_mstatus_address, csr_mie_address, csr_mip_address, csr_sstatus_address, csr_sie_address,
  csr_sip_address, csr_medeleg_address,
}
use yove.Cpu.Csr.{read_csr_raw, write_csr_raw}
use yove.Cpu.Csr.Windows.{
  kept, read_csr_raw-write_csr_raw, write_csr_raw_other, write_csr_raw_behind,
}
use yove.Cpu.TrapEntry.{handle_trap, target_mode}
use yove.Cpu.TrapEntry.Machine.{Entered, handle_trap-Entered, handle_trap-mret}
use yove.Cpu.Ops.System.{mret}
use yove.Cpu.Ops.MulDiv.{quotient, remainder}
use yove.Cpu.Ops.MulDiv.Identity.{quotient-remainder}
use yove.Cpu.Format.{parse_format_b, parse_format_i, parse_format_j, parse_format_s}
use yove.Cpu.Format.Immediates.{sign_extended, parse_format-sign_extended}
use yove.Cpu.Interrupt.{handle_interrupt}
use yove.Cpu.Interrupt.Disabled.{handle_interrupt_disabled}
use yove.Cpu.Table.{decode_and_get_instruction_index}
use yove.Cpu.Table.Order.{FitsAt, patterns, decode_and_get_instruction_index_iff}
use yove.Cpu.Uncompress.{remember, uncompress, uncompress_inner}
use yove.Cpu.Sync.{InSync, init-InSync}
use yove.Cpu.Invariants.{
  IsZeroed, IsTrue, tick-InSync, tick-IsZeroed, tick-IsTrue, uncompress-uncompress_inner,
}
use yove.Cpu.Tick.{tick}

-- A memory of words at their addresses, with no translation of its own and no system calls.
abbrev words : Memory (ℕ → ℕ)
words = record {
  read_u8 = λ m a. m a % 2 ^ 8;
  read_u16 = λ m a. m a % 2 ^ 16;
  read_u32 = λ m a. m a;
  write_u8 = λ m a v. update m a v;
  write_u16 = λ m a v. update m a v;
  write_u32 = λ m a v. update m a v;
  validate_address = λ m a. true;
  syscall = λ m args. some (continue, m);
  translate = λ m v. some none;
  reserve = λ m core a. m;
  clear_reservation = λ m core a. (true, m);
}

-- ADDI x0, x1, 1 at every address, and a core that is to execute it.
abbrev addi_x0 : ℕ → ℕ
addi_x0 a = 0x00108013

abbrev core : Cpu (ℕ → ℕ)
core = init addi_x0

tick-InSync_example : Holds InSync (tick words core)
tick-InSync_example = tick-InSync words core (init-InSync addi_x0)

tick-IsZeroed_example : Holds IsZeroed (tick words core)
tick-IsZeroed_example = tick-IsZeroed words core refl

no_cache : IsTrue (λ _. none)
no_cache halfword v e = cc

tick-IsTrue_example : Holds (λ c. IsTrue c.c_cache) (tick words core)
tick-IsTrue_example = tick-IsTrue words core no_cache

-- C.ADDI x1, 1
uncompress_example :
    uncompress 0x0085 core
    ≡ ok (uncompress_inner 0x0085) (remember 0x0085 (uncompress_inner 0x0085) core)
uncompress_example = uncompress-uncompress_inner 0x0085 core (omega arith) no_cache

-- A page table whose root entry points to a table that maps the page 1 read only.
abbrev page_table : ℕ → ℕ
page_table a = if a == 0x1000 then 0x801 else if a == 0x2004 then 0x4043 else 0

abbrev paged : Mmu (ℕ → ℕ)
paged = record (init page_table).mmu { addressing_mode = sv32; ppn = 1 }

walk_example :
    value (translate_as words (mode_of false) 0x1234 read paged)
    ≡ some (
        if is_open false false false read (leaf_at (load_word_raw words paged) 1 0x1234)
        then sv32_translation false false false (load_word_raw words paged) 1 0x1234 read
        else sv32_walk (load_word_raw words paged) 1 0x1234 read)
walk_example = translate_as-sv32_translation words false false false 0x1234 read paged refl

-- The supervisor mode may use the page 0x10, which is open for a read, and faults for a write.
walk_open : is_open false false false read (leaf_at (load_word_raw words paged) 1 0x1234) ≡ true
walk_open = refl

walk_read :
    sv32_translation false false false (load_word_raw words paged) 1 0x1234 read ≡ some 0x10234
walk_read = refl

walk_write : sv32_translation false false false (load_word_raw words paged) 1 0x1234 write ≡ none
walk_write = refl

-- For the user mode it is closed, and the code reaches it all the same.
user_walk : sv32_translation true false false (load_word_raw words paged) 1 0x1234 read ≡ none
user_walk = refl

user_reaches : value (translate_as words (mode_of true) 0x1234 read paged) ≡ some (some 0x10234)
user_reaches = translate_as-sv32_translation words true false false 0x1234 read paged refl

-- A core in the user mode with MIE set.
abbrev user_core : Cpu (ℕ → ℕ)
user_core = record core { privilege_mode = user; csr = update core.csr csr_mstatus_address 8 }

abbrev break_trap : Trap
break_trap = record { trap_type = breakpoint; value = 0x80 }

user_encoding : get_privilege_encoding user ≡ some 0
unfolding get_privilege_encoding
user_encoding = refl

not_delegated : target_mode user_core (get_trap_cause breakpoint) false ≡ machine
unfolding target_mode read_csr_raw get_trap_cause
not_delegated = refl

handle_trap-Entered_example :
    Returns
      (handle_trap break_trap 0x80 false user_core)
      λ taken t. (taken ≡ true) × Entered break_trap 0x80 0 user_core t
handle_trap-Entered_example =
    handle_trap-Entered break_trap 0x80 0 user_core user_encoding not_delegated

handle_trap-mret_example :
    Returns
      ((handle_trap break_trap 0x80 false >>= λ _. mret words 0x30200073 0x1000) user_core)
      λ _ t.
        (t.pc ≡ 0x80)
        × (t.privilege_mode ≡ user)
        × (bit 3 (t.csr csr_mstatus_address) ≡ 1)
        × (t.x ≡ user_core.x)
handle_trap-mret_example =
    handle_trap-mret words break_trap 0x80 0 0x30200073 0x1000 user_core user_encoding not_delegated

-- The machine's timer interrupt is pending and enabled.
abbrev pending : Cpu (ℕ → ℕ)
pending = record core { csr = update (update core.csr csr_mie_address 0x80) csr_mip_address 0x80 }

handle_interrupt_disabled_example : handle_interrupt 0x40 pending ≡ ok tt pending
handle_interrupt_disabled_example = handle_interrupt_disabled 0x40 pending refl refl

decode_index_example :
    (decode_and_get_instruction_index words 0x00108013 ≡ some 0)
    ↔ FitsAt (patterns words) 0 0x00108013
decode_index_example = decode_and_get_instruction_index_iff words 0x00108013 0

read_back_example :
    read_csr_raw (write_csr_raw csr_sstatus_address 0xffffffff core) csr_sstatus_address
    ≡ kept csr_sstatus_address 0xffffffff
read_back_example = read_csr_raw-write_csr_raw csr_sstatus_address 0xffffffff core

write_other_example :
    read_csr_raw (write_csr_raw csr_sstatus_address 0xffffffff core) csr_medeleg_address
    ≡ read_csr_raw core csr_medeleg_address
write_other_example =
    write_csr_raw_other csr_sstatus_address csr_medeleg_address 0xffffffff core (omega arith)

write_behind_example :
    let rest = λ (mask : ℕ) (word : ℕ). bit_and word (complement mask) in
    (rest 0x800de162
        (read_csr_raw (write_csr_raw csr_sstatus_address 0xffffffff user_core) csr_mstatus_address)
      ≡ rest 0x800de162 (read_csr_raw user_core csr_mstatus_address))
    × (rest 0x222
          (read_csr_raw (write_csr_raw csr_sie_address 0xffffffff user_core) csr_mie_address)
        ≡ rest 0x222 (read_csr_raw user_core csr_mie_address))
    × (rest 0x222
          (read_csr_raw (write_csr_raw csr_sip_address 0xffffffff user_core) csr_mip_address)
        ≡ rest 0x222 (read_csr_raw user_core csr_mip_address))
write_behind_example = write_csr_raw_behind 0xffffffff user_core

-- -7 divided by 2: the quotient is -3 and the remainder -1.
division_example :
    (signed32 (quotient 0xfffffff9 2) *ℤ signed32 2 +ℤ signed32 (remainder 0xfffffff9 2)
      ≡ signed32 0xfffffff9)
    × (abs (signed32 (remainder 0xfffffff9 2)) < abs (signed32 2))
division_example =
    quotient-remainder 0xfffffff9 2 (omega arith) (omega arith) (omega arith) (ground arith)

quotient_cut : (quotient 0xfffffff9 2 ≡ 0xfffffffd) × (remainder 0xfffffff9 2 ≡ 0xffffffff)
unfolding quotient remainder div_ℤ rem_ℤ
quotient_cut = (refl, refl)

decode_example :
    (decode_privilege_mode 3 ≡ some machine) ↔ (get_privilege_encoding machine ≡ some 3)
decode_example = decode-encoding_iff machine 3

-- ADDI x0, x1, -1
immediates_example :
    let w : ℕ = 0xfff08013 in
    ((parse_format_i w).imm ≡ sign_extended 12 (w / 2 ^ 20))
    × ((parse_format_s w).imm ≡ sign_extended 12 (w / 2 ^ 25 * 2 ^ 5 + w / 2 ^ 7 % 2 ^ 5))
    × ((parse_format_b w).imm
        ≡ sign_extended 13 (
            w / 2 ^ 31 * 2 ^ 12
            + w / 2 ^ 7 % 2 * 2 ^ 11
            + w / 2 ^ 25 % 2 ^ 6 * 2 ^ 5
            + w / 2 ^ 8 % 2 ^ 4 * 2))
    × ((parse_format_j w).imm
        ≡ sign_extended 21 (
            w / 2 ^ 31 * 2 ^ 20
            + w / 2 ^ 12 % 2 ^ 8 * 2 ^ 12
            + w / 2 ^ 20 % 2 * 2 ^ 11
            + w / 2 ^ 21 % 2 ^ 10 * 2))
immediates_example = parse_format-sign_extended 0xfff08013 (omega arith)

addi_minus_one : (parse_format_i 0xfff08013).imm ≡ 0xffffffff
unfolding parse_format_i
addi_minus_one = refl
