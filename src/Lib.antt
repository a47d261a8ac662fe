-- ===== src/Lib.antt =====
-- Verification of yove, an emulator that runs the programs of the Xous operating system on a
-- 32-bit RISC-V core of its own.
--
-- The program has two parts. The crate crates/riscv-cpu is the core: it fetches instructions through
-- an MMU, decodes them with a table, executes them, and takes traps and interrupts. The program in
-- src/xous.rs and below gives the core its memory and answers its system calls. The core sees that
-- program only through the trait `Memory`. This library models the core with the trait as a parameter,
-- and the memory, its page tables and its system calls, which give the trait's operations.
--
-- Files and the code that they model:
-- Base: machine words, bits, signed integers, and the monad `Exec` of the methods: they return, fail
--   with an error and keep what was written before, or panic (crates/riscv-cpu/src as a whole).
-- Trap: `PrivilegeMode`, `TrapType`, `Trap` and their numbers (crates/riscv-cpu/src/cpu.rs).
-- Bus: the trait `Memory` and `SyscallResult` (crates/riscv-cpu/src/mmu.rs).
-- Mmu, Mmu.Walk, Mmu.Access: the struct `Mmu`, translation with the page walk, and fetches, loads and
--   stores (mmu.rs). Mmu.Walk.Sv32 describes the walk of Sv32 apart from the code, and Mmu.Walk.Protection
--   the rules on U, SUM and MXR, which the code does not look at. Mmu.Footprint: accesses
--   change nothing but the memory.
-- Cpu, Cpu.Address, Cpu.Csr: the struct `Cpu`, and its control and status registers (cpu.rs).
-- Cpu.TrapEntry, Cpu.Interrupt: `handle_trap` and `handle_interrupt` (cpu.rs).
-- Cpu.Format, Cpu.Ops, Cpu.Table: the formats, the operations and the table of the 86 instructions
--   (crates/riscv-cpu/src/cpu/instructions.rs), and the search of the table (cpu.rs).
-- Cpu.Compressed, Cpu.Uncompress: `uncompress_inner`, by quadrant, and its cache (cpu.rs).
-- Cpu.Tick: `fetch`, `tick_operate`, `tick`, `execute_opcode` (cpu.rs).
-- Cpu.Sync, Cpu.Stable, Cpu.Invariants: what a cycle keeps. Cpu.Stable carries a property that no
--   kind of write breaks through every operation of the table to a whole cycle.
-- Xous, Xous.Ram: the struct `Memory`, its constants, and the words of the RAM (src/xous.rs, struct
--   Memory and impl riscv_cpu::cpu::Memory). Xous.Ram.Bytes describes the RAM as bytes in a row.
-- Xous.Pages, Xous.Pages.Regions: pages, page tables and regions (src/xous.rs, impl Memory).
--   Xous.Pages.Sound is the promise of the page tables, `IsSound`; Xous.Pages.New, Grow, Later,
--   Ensure, Free, Starts, Allocate and Translate relate the operations to it, Bytes and Load the stores and
--   loads of bytes.
-- Xous.Walk: the MMU of the core on these page tables; Address adds the cache of translations.
-- Xous.Results, Xous.Definitions, Xous.MemoryFlags: the numbers, the decoding of system calls, and the
--   flags of a page (src/xous/definitions.rs, src/xous/definitions/memoryflags.rs).
-- Xous.Syscalls, Xous.Kernel: the system calls that act on the memory, the connections to services,
--   and `Memory::syscall` (src/xous/syscalls.rs, src/xous.rs). `Kernel` adds the connections to the
--   memory; `Kernel.bus` is the trait `Memory` that the core sees.
-- Xous.Syscalls.Heap, Backed, Fill: `increase_heap` and `write_bytes`.
-- Xous.Services, Xous.Ticktimer: the trait `Service` and the service of mutexes and conditions
--   (src/xous/services.rs, src/xous/services/ticktimer.rs).
-- Xous.Services.Buffer, Log, Name, Dns: slices and text, the log, the name server, the resolver and
--   the panic screen (src/xous/services/log.rs, name.rs, dns.rs, panic_to_screen.rs).
-- Xous.Instances: all services together with what each keeps, as a value of the trait `Service`.
-- Xous.Thread: the start of a thread and a round of a worker (src/xous.rs, Machine::run, Worker::run).
-- Xous.Program: the block of arguments and the loader (src/xous.rs, Machine::create_params,
--   Machine::load_program, Machine::new). Xous.Program.Params reads the block again; Reserve, Image,
--   Sections, Enter and Entry follow the sections, the arguments and the stack into the memory.
-- Tests: the theorems at concrete states.
--
-- Conventions. A `u32` or an `i32` is its pattern of 32 bits, a native number; the arithmetic wraps
-- as it does in the release profile of Cargo.toml, where the debug assertions are off as well. The
-- registers, the control and status registers and the cache of expanded instructions are functions
-- from indices, which the code masks to their range. A receiver of a deferred answer and the handle
-- of a thread are tokens. A panic is the outcome `panic`; the memory's `translate` has it as the
-- outer `none`, and a system call that does not return is `none`. The core and its MMU hold clones of
-- the memory that share their content, which is one state here. The mask for unsigned data is `!0`
-- throughout. No definition needs fuel: the page walk descends two levels, and the accesses by bytes
-- count down the width. The page tables are two levels deep, and the loops over pages and bytes go
-- through lists of addresses. `IsSound` asks that free pages hold zeros; nothing clears a page that
-- was written and freed, so it speaks of states before a page is freed.
--
-- The system calls and the core take the services as a parameter, an interface that Xous.Instances
-- fills, and the start of a thread as another. What the host gives is a parameter as well: the time,
-- the resolver of names, the parser of ELF files, the environment and the arguments, what comes over a
-- channel. A text is its bytes; the test for UTF-8 is written out. A thread of the host that finishes
-- a lookup of a name is an entry in a list, and runs as a step of its own. A lock that guards a field
-- is taken and released within one operation, which is one step here. The fields of the headers of an
-- ELF file of 32 bits are below 2 ^ 32, so that the sums of the loader do not wrap.
--
-- Not modelled: the disassembly, the debug accessors and print_mmu, which are text output; the threads
-- of the host and their channels; src/main.rs, which reads a file and calls the loader.
mod Base
pub mod Trap
pub mod Bus
pub mod Mmu
pub mod Cpu
pub mod Xous
mod Tests
