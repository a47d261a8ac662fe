-- ===== src/Mmu.antt =====
-- crates/riscv-cpu/src/mmu.rs, struct Mmu: its state and the methods that set one field.
pub mod Walk
pub mod Access
pub mod Footprint
use yove.Base.{ℕ, ◌+◌, ◌*◌, Bool}
use yove.Base.Exec.{Exec, ok}
use yove.Trap.{PrivilegeMode, machine}
use yove.Bus.{Memory}

pub data AddressingMode : Type 0 where
  none sv32 : AddressingMode

pub data MemoryAccessType : Type 0 where
  execute read write dont_care : MemoryAccessType

pub record Mmu (M : Type 0) : Type 0 where
  pub ppn : ℕ
  pub addressing_mode : AddressingMode
  pub privilege_mode : PrivilegeMode
  pub memory : M
  pub mstatus : ℕ

module _ {M : Type 0} where
  abbrev pub init : M → Mmu M
  init memory = record {
    ppn = 0;
    addressing_mode = none;
    privilege_mode = machine;
    memory = memory;
    mstatus = 0;
  }

  abbrev pub update_addressing_mode : AddressingMode → Mmu M → Mmu M
  update_addressing_mode mode m = record m { addressing_mode = mode }

  abbrev pub update_privilege_mode : PrivilegeMode → Mmu M → Mmu M
  update_privilege_mode mode m = record m { privilege_mode = mode }

  abbrev pub update_mstatus : ℕ → Mmu M → Mmu M
  update_mstatus mstatus m = record m { mstatus = mstatus }

  abbrev pub update_ppn : ℕ → Mmu M → Mmu M
  update_ppn ppn m = record m { ppn = ppn }

module _ {M : Type 0} (bus : Memory M) where
  abbrev pub load_raw : Mmu M → ℕ → ℕ
  load_raw m p_address = bus.read_u8 m.memory p_address

  abbrev pub load_halfword_raw : Mmu M → ℕ → ℕ
  load_halfword_raw m p_address = bus.read_u16 m.memory p_address

  abbrev pub load_word_raw : Mmu M → ℕ → ℕ
  load_word_raw m p_address = bus.read_u32 m.memory p_address

  abbrev pub store_raw : ℕ → ℕ → Mmu M → Mmu M
  store_raw p_address value m = record m { memory = bus.write_u8 m.memory p_address value }

  abbrev pub store_halfword_raw : ℕ → ℕ → Mmu M → Mmu M
  store_halfword_raw p_address value m = record m {
    memory = bus.write_u16 m.memory p_address value;
  }

  abbrev pub store_word_raw : ℕ → ℕ → Mmu M → Mmu M
  store_word_raw p_address value m = record m { memory = bus.write_u32 m.memory p_address value }

  abbrev pub reserve : ℕ → ℕ → Mmu M → Mmu M
  reserve core p_address m = record m { memory = bus.reserve m.memory core p_address }

  unfoldable pub clear_reservation : {E : Type 0} → ℕ → ℕ → Exec (Mmu M) E Bool
  clear_reservation core p_address m =
      let (held, memory) = bus.clear_reservation m.memory core p_address in
      ok held (record m { memory = memory })
