-- ===== src/Xous/Program/Enter.antt =====
-- The steps of the loader (src/xous.rs, load_program), and the processor after the last of them.
use yove.Base.{
  length, ℕ, ◌≡◌, refl, ◌∙◌, List, if◌then◌else◌, ◌==◌, bit_and, complement, u32, update,
  wrapping_sub, arith,
}
use yove.Base.Exec.{ok, pure, gets, modify, ◌>>=◌}
use yove.Base.Exec.Returns.{then_ok, Returns}
use yove.Bus
use yove.Trap.{user, get_privilege_encoding, decode_privilege_mode}
use yove.Mmu.{AddressingMode, sv32}
use yove.Cpu.{Cpu, write_register}
use yove.Cpu.Csr.{
  write_csr, write_csr_raw, read_csr_raw, read_csr, has_csr_access_privilege, sync_mstatus,
  update_addressing_mode,
}
use yove.Cpu.Ops.System.{sret, supervisor_return_status}
use yove.Cpu.Table.{
  decode, or_illegal, found, decode_and_get_instruction_index, first_match, get_instructions,
  operation_at,
}
use yove.Cpu.Tick.{execute_opcode}
use yove.Xous.{Memory, Action, stack_start, stack_end}
use yove.Xous.Pages.{page_range}
use yove.Xous.Pages.Regions.{write_bytes}
use yove.Xous.Kernel.{Kernel}
use yove.Xous.Program.{LoadError, Elf, on_memory, ensure_stack, load_sections, load_elf, enter}
use yove.Xous.Program.Sections.{before, with_memory}

-- What the program finds in the processor.
pub record Entered {S W : Type 0} (satp entry stack : ℕ) (x : ℕ → ℕ) (k : Kernel S W)
    (t : Cpu (Kernel S W)) : Type 0 where
  pub mode : t.privilege_mode ≡ user
  pub pc : t.pc ≡ entry
  pub registers : t.x ≡ update x 2 stack
  pub mmu_mode : t.mmu.privilege_mode ≡ user
  pub paging :
      t.mmu.addressing_mode ≡ (if bit_and satp 0x80000000 == 0 then AddressingMode.none else sv32)
  pub ppn : t.mmu.ppn ≡ bit_and satp 0x3fffff
  pub same_memory : t.mmu.memory ≡ k

-- The stack pointer below so many bytes.
abbrev pub stack_below : ℕ → ℕ
stack_below size = bit_and (wrapping_sub (wrapping_sub stack_end 16) (u32 size)) (complement 0xf)

module _ {S W : Type 0} (bus : Bus.Memory (Kernel S W)) where
  pub enter-Entered :
      (satp entry size : ℕ) (x : ℕ → ℕ) (k : Kernel S W)
      → Returns
          (enter bus satp entry size (before x k))
          (λ _ t. Entered satp entry (stack_below size) x k t)
  unfolding enter write_csr write_csr_raw read_csr_raw read_csr has_csr_access_privilege
      get_privilege_encoding decode_privilege_mode sync_mstatus update_addressing_mode
      execute_opcode sret supervisor_return_status decode ◌>>=◌ or_illegal found
      decode_and_get_instruction_index first_match get_instructions operation_at
  enter-Entered satp entry size x k = record {
    mode = refl;
    pc = refl;
    registers = refl;
    mmu_mode = refl;
    paging = refl;
    ppn = refl;
    same_memory = refl;
  }

  satp_read :
      (c : Cpu (Kernel S W))
      → gets {E = LoadError} (λ (d : Cpu (Kernel S W)). d.mmu.memory.memory.satp) c
        ≡ ok c.mmu.memory.memory.satp c
  unfolding gets
  satp_read c = refl

  stored_in :
      (x : ℕ → ℕ) (k : Kernel S W) (f : Action (Unit {0})) (m : Memory)
      → f k.memory ≡ ok tt m
      → on_memory f (before x k) ≡ ok tt (before x (with_memory m k))
  unfolding on_memory
  stored_in x k f m e = ground (arith, e)

  pub load_elf_step :
      (program params : List ℕ) (elf : Elf) (c : Cpu (Kernel S W)) (x : ℕ → ℕ) (k : Kernel S W)
      (m₁ m₂ m₃ : Memory) (t : Cpu (Kernel S W))
      → load_sections program elf.section_headers c ≡ ok tt (before x (with_memory m₁ k))
      → write_bytes params (wrapping_sub stack_end (u32 (length params))) m₁ ≡ ok tt m₂
      → ensure_stack (page_range stack_start stack_end) m₂ ≡ ok tt m₃
      → enter bus m₁.satp
          (u32 elf.entry)
          (length params)
          (before (update x 11 (wrapping_sub stack_end (u32 (length params)))) (with_memory m₃ k))
        ≡ ok tt t
      → load_elf bus program params elf c ≡ ok m₁.satp t
  unfolding load_elf modify pure
  load_elf_step program params elf c x k m₁ m₂ m₃ t e f g h =
      let start = wrapping_sub stack_end (u32 (length params)) in
      let y = update x 11 start in
      then_ok (load_sections program elf.section_headers) _ c (before x (with_memory m₁ k)) tt e
      ∙ then_ok (gets (λ d. d.mmu.memory.memory.satp)) _ (before x (with_memory m₁ k))
          (before x (with_memory m₁ k)) m₁.satp (satp_read (before x (with_memory m₁ k)))
      ∙ then_ok (on_memory (write_bytes params start)) _ (before x (with_memory m₁ k))
          (before x (with_memory m₂ k)) tt
          (stored_in x (with_memory m₁ k) (write_bytes params start) m₂ f)
      ∙ then_ok (modify (write_register 11 start)) _ (before x (with_memory m₂ k))
          (before y (with_memory m₂ k)) tt refl
      ∙ then_ok (on_memory (ensure_stack (page_range stack_start stack_end))) _
          (before y (with_memory m₂ k)) (before y (with_memory m₃ k)) tt
          (stored_in y (with_memory m₂ k) (ensure_stack (page_range stack_start stack_end)) m₃ g)
      ∙ then_ok (enter bus m₁.satp (u32 elf.entry) (length params)) _ (before y (with_memory m₃ k))
          t tt h
