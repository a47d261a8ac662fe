-- ===== src/Xous/Program.antt =====
-- src/xous.rs, `Machine::create_params`, `Machine::load_program` and `Machine::new`: the arguments and the
-- image of a program, and the processor that starts it. What the parser of ELF files gives, the
-- environment and the arguments of the host are parameters.
pub mod Params
pub mod Reserve
pub mod Image
pub mod Sections
pub mod Enter
pub mod Entry
use yove.Base.{
  length, ℕ, zero, suc, ◌+◌, ◌-◌, ◌*◌, ◌/◌, ◌^◌, ◌%◌, Bool, true, false, Option, some, none, List,
  [], ◌∷◌, ◌++◌, if◌then◌else◌, ◌==◌, ◌||◌, ltb, bit_and, complement, u32, wrapping_add,
  wrapping_sub,
}
use yove.Base.Exec.{
  Outcome, Exec, ok, err, panic, pure, raise, abort, gets, modify, unwrap, ◌>>=◌, ◌>>◌,
}
use yove.Trap.{Trap}
use yove.Bus
use yove.Cpu.{Cpu, build, update_pc, write_register}
use yove.Cpu.Address.{csr_satp_address, csr_mstatus_address, csr_sepc_address}
use yove.Cpu.Csr.{write_csr}
use yove.Cpu.Tick.{execute_opcode}
use yove.Xous.{Memory, Action, memory_base, stack_start, stack_end}
use yove.Xous.Pages
use yove.Xous.Pages.{ensure_page, page_range}
use yove.Xous.Pages.Regions.{write_bytes}
use yove.Xous.Services.{same_words}
use yove.Xous.Services.Buffer.{codes, slice, to_le_bytes}
use yove.Xous.Kernel.{Kernel}

pub data LoadError : Type 0 where
  incorrect_format : LoadError
  bit_size_error : LoadError
  satp_write_error : LoadError
  mstatus_write_error : LoadError
  cpu_trap : Trap → LoadError

-- A text with its length before it.
unfoldable pub text : List ℕ → List ℕ
text bytes = to_le_bytes 2 (length bytes) ++ bytes

unfoldable pub pairs : List (List ℕ × List ℕ) → List ℕ
pairs [] = []
pairs ((key, value) ∷ rest) = text key ++ (text value ++ pairs rest)

unfoldable pub texts : List (List ℕ) → List ℕ
texts [] = []
texts (entry ∷ rest) = text entry ++ texts rest

-- The environment, in the order in which the map gives it.
abbrev pub env_data : List (List ℕ × List ℕ) → List ℕ
env_data env_map = to_le_bytes 2 (length env_map) ++ pairs env_map

abbrev pub env_tag : List (List ℕ × List ℕ) → List ℕ
env_tag env_map = codes "EnvB" ++ (to_le_bytes 4 (length (env_data env_map)) ++ env_data env_map)

abbrev pub is_separator : List ℕ → Bool
is_separator arg = same_words arg (codes "--")

abbrev pub has_separator : List (List ℕ) → Bool
has_separator [] = false
has_separator (arg ∷ rest) = is_separator arg || has_separator rest

-- What follows the first `--`.
abbrev pub after_separator : List (List ℕ) → List (List ℕ)
after_separator [] = []
after_separator (arg ∷ rest) =
    let later = after_separator rest in if is_separator arg then rest else later

unfoldable pub arg_data : List (List ℕ) → List (List ℕ)
arg_data our_args = if has_separator our_args then after_separator our_args else our_args

abbrev pub args_size : List (List ℕ) → ℕ
args_size [] = 0
args_size (entry ∷ rest) = length entry + 2 + args_size rest

abbrev pub arg_tag : List (List ℕ) → List ℕ
arg_tag entries =
    codes "ArgL"
    ++ (to_le_bytes 4 (args_size entries + 2) ++ (to_le_bytes 2 (length entries) ++ texts entries))

abbrev pub params_tag : ℕ → List ℕ
params_tag size =
    codes "AppP" ++ (to_le_bytes 4 8 ++ (to_le_bytes 4 (size + 16) ++ to_le_bytes 4 3))

-- `create_params`; `our_args` are the arguments of the host without the first.
unfoldable pub create_params : List (List ℕ × List ℕ) → List (List ℕ) → List ℕ
create_params env_map our_args =
    let env = env_tag env_map in
    let args = arg_tag (arg_data our_args) in params_tag (length env + length args) ++ (env ++ args)

-- What the program reads of an ELF file; the name of a section is `none` if the file has no text for it.
pub record Section : Type 0 where
  pub name : Option (List ℕ)
  pub sh_flags : ℕ
  pub sh_type : ℕ
  pub sh_addr : ℕ
  pub sh_offset : ℕ
  pub sh_size : ℕ

pub record Elf : Type 0 where
  pub is_64 : Bool
  pub entry : ℕ
  pub section_headers : List Section

-- `u32::try_from(x).unwrap()` and `i32::try_from(x).unwrap()` of a `u64`
abbrev pub below : ℕ → ℕ → Option ℕ
below bound x = if ltb x bound then some x else none

-- `ensure_page(addr).expect("out of memory")`, for each address of a range
unfoldable pub ensure_bytes : ℕ → ℕ → Action (Unit {0})
ensure_bytes addr zero = pure tt
ensure_bytes addr (suc size) = do
  virt ← unwrap (below (2 ^ 32) addr)
  ensured ← ensure_page virt
  unwrap ensured
  ensure_bytes (addr + 1) size

unfoldable pub ensure_stack : List ℕ → Action (Unit {0})
ensure_stack [] = pure tt
ensure_stack (page ∷ rest) = do ensured ← ensure_page page; unwrap ensured; ensure_stack rest

-- A section in the memory: zeroed pages, or the bytes that the file has for it.
unfoldable pub place_section : List ℕ → Section → Action (Unit {0})
place_section program sh =
    if bit_and sh.sh_type 8 == 0
    then (do
      bytes ← unwrap (slice program sh.sh_offset (sh.sh_offset + sh.sh_size))
      start ← unwrap (below (2 ^ 32) sh.sh_addr)
      write_bytes bytes start)
    else ensure_bytes sh.sh_addr sh.sh_size

abbrev pub is_eh_frame : Option (List ℕ) → Bool
is_eh_frame none = false
is_eh_frame (some name) = same_words name (codes ".eh_frame")

-- The errors of the processor's methods, under another name.
abbrev pub map_err : {S E F A : Type 0} → (E → F) → Exec S E A → Exec S F A
map_err f m s = elim (m s) [ ok a t ↦ ok a t | err e t ↦ err (f e) t | panic ↦ panic ]

abbrev pub or_panic : {S E F A : Type 0} → Exec S E A → Exec S F A
or_panic m s = elim (m s) [ ok a t ↦ ok a t | err e t ↦ panic | panic ↦ panic ]

module _ {S W : Type 0} where
  -- A method of the memory, which the machine and its processor share.
  unfoldable pub on_memory : {A : Type 0} → Action A → Exec (Cpu (Kernel S W)) LoadError A
  on_memory f c = elim (f c.mmu.memory.memory) [
    | ok a m ↦
        ok a (record c { mmu = record c.mmu { memory = record c.mmu.memory { memory = m } } })
    | err e m ↦ panic
    | panic ↦ panic
  ]

  unfoldable pub load_section : List ℕ → Section → Exec (Cpu (Kernel S W)) LoadError (Unit {0})
  load_section program sh = if bit_and (u32 sh.sh_flags) 2 == 0 then pure tt else (do
    (if is_eh_frame sh.name
        then (do address ← unwrap (below (2 ^ 31) sh.sh_addr); modify (write_register 10 address))
        else pure tt)
    on_memory (place_section program sh))

  unfoldable pub load_sections :
      List ℕ → List Section → Exec (Cpu (Kernel S W)) LoadError (Unit {0})
  load_sections program [] = pure tt
  load_sections program (sh ∷ rest) = do load_section program sh; load_sections program rest

  module _ (bus : Bus.Memory (Kernel S W)) where
    -- The processor enters the program in user mode, below its arguments on the stack.
    unfoldable pub enter : ℕ → ℕ → ℕ → Exec (Cpu (Kernel S W)) LoadError (Unit {0})
    enter satp entry params_length = do
      map_err (λ _. satp_write_error) (write_csr csr_satp_address satp)
      modify (update_pc entry)
      map_err (λ _. mstatus_write_error) (write_csr csr_mstatus_address 0x20)
      or_panic (write_csr csr_sepc_address entry)
      map_err cpu_trap (execute_opcode bus 0x10200073)
      modify (
          write_register 2 (
            bit_and (wrapping_sub (wrapping_sub stack_end 16) (u32 params_length))
              (complement 0xf)))

    unfoldable pub load_elf : List ℕ → List ℕ → Elf → Exec (Cpu (Kernel S W)) LoadError ℕ
    load_elf program param_block elf = do
      load_sections program elf.section_headers
      satp ← gets λ c. c.mmu.memory.memory.satp
      let param_block_start = wrapping_sub stack_end (u32 (length param_block))
      on_memory (write_bytes param_block param_block_start)
      modify (write_register 11 param_block_start)
      on_memory (ensure_stack (page_range stack_start stack_end))
      enter satp (u32 elf.entry) (length param_block)
      pure satp

    -- `load_program`, up to the spawn of the worker; the parser gives `none` for what is no ELF file. What
    -- it returns is the machine's `satp`.
    unfoldable pub load_program :
        (List ℕ → Option Elf)
        → List (List ℕ × List ℕ)
        → List (List ℕ)
        → List ℕ
        → Exec (Cpu (Kernel S W)) LoadError ℕ
    load_program parse env_map our_args program = elim (parse program) [
      | none ↦ raise incorrect_format
      | some elf ↦
          if elf.is_64
          then raise bit_size_error
          else load_elf program (create_params env_map our_args) elf
    ]

    -- `Machine::new`: 16 MB at the base; the rest of the kernel's state is what it starts with.
    unfoldable pub new :
        (List ℕ → Option Elf)
        → List (List ℕ × List ℕ)
        → List (List ℕ)
        → List ℕ
        → W
        → Outcome (Cpu (Kernel S W)) LoadError ℕ
    new parse env_map our_args program world = load_program parse env_map our_args program (
        build
          (record {
            memory = Pages.new memory_base (16 * 1024 * 1024);
            connections = λ _. none;
            connection_index = 1;
            named_connections_index = [];
            world = world;
          })
          0 0)
