-- ===== src/Cpu.antt =====
-- crates/riscv-cpu/src/cpu.rs, struct Cpu: the state of a core, its registers and its start. The
-- field `memory` is a clone that shares its content with the MMU's, so it is no state of its own.
pub mod Address
pub mod Csr
pub mod TrapEntry
pub mod Interrupt
pub mod Sync
pub mod Invariants
pub mod Format
pub mod Ops
pub mod Table
pub mod Compressed
pub mod Uncompress
pub mod Tick
pub mod Stable
use yove.Base.{ℕ, Bool, true, false, Option, none, if◌then◌else◌, ◌==◌, update, bit_and}
use yove.Trap.{PrivilegeMode, machine}
use yove.Bus.{Memory}
use yove.Mmu
use yove.Mmu.{Mmu}

pub record Cpu (M : Type 0) : Type 0 where
  pub clock : ℕ
  pub privilege_mode : PrivilegeMode
  pub wfi : Bool
  pub x : ℕ → ℕ
  pub pc : ℕ
  pub csr : ℕ → ℕ
  pub mmu : Mmu M
  pub c_cache : ℕ → Option ℕ

module _ {M : Type 0} where
  -- `Cpu::new`
  abbrev pub init : M → Cpu M
  init memory = record {
    clock = 0;
    privilege_mode = machine;
    wfi = false;
    x = λ _. 0;
    pc = 0;
    csr = λ _. 0;
    mmu = Mmu.init memory;
    c_cache = λ _. none;
  }

  abbrev pub update_pc : ℕ → Cpu M → Cpu M
  update_pc value c = record c { pc = value }

  abbrev pub read_register : Cpu M → ℕ → ℕ
  read_register c reg = if reg == 0 then 0 else c.x reg

  abbrev pub write_register : ℕ → ℕ → Cpu M → Cpu M
  write_register reg val c = if reg == 0 then c else record c { x = update c.x reg val }

  -- `CpuBuilder::new(memory).pc(pc).sp(sp).build()`
  abbrev pub build : M → ℕ → ℕ → Cpu M
  build memory pc sp = write_register 2 sp (update_pc pc (init memory))

  -- `cpu.x[rd] = val`, as the instructions write it; `tick` clears register 0 afterwards.
  abbrev pub set_x : ℕ → ℕ → Cpu M → Cpu M
  set_x rd val c = record c { x = update c.x rd val }
