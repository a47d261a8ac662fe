-- ===== src/Cpu/Interrupt.antt =====
-- crates/riscv-cpu/src/cpu.rs, `Cpu::handle_interrupt`: the pending and enabled interrupts are
-- offered to `handle_trap` in a fixed order, and the first that is taken is cleared in MIP.
pub mod Disabled
use yove.Base.{ℕ, Bool, true, false, not, List, [], ◌∷◌, if◌then◌else◌, ◌==◌, bit_and, complement}
use yove.Base.Exec.{Exec, ok, err, panic, pure, gets, modify, ◌>>=◌, ◌>>◌}
use yove.Trap.{
  TrapType, Trap, supervisor_software_interrupt, machine_software_interrupt,
  supervisor_timer_interrupt, machine_timer_interrupt, supervisor_external_interrupt,
  machine_external_interrupt,
}
use yove.Cpu.{Cpu}
use yove.Cpu.Address.{
  csr_mie_address, csr_mip_address, mip_meip, mip_msip, mip_mtip, mip_seip, mip_ssip, mip_stip,
}
use yove.Cpu.Csr.{read_csr_raw, write_csr_raw}
use yove.Cpu.TrapEntry.{handle_trap}

-- The six tests in the order of the code.
abbrev pub interrupt_order : List (ℕ × TrapType)
interrupt_order =
    (mip_meip, machine_external_interrupt)
    ∷ (mip_msip, machine_software_interrupt)
    ∷ (mip_mtip, machine_timer_interrupt)
    ∷ (mip_seip, supervisor_external_interrupt)
    ∷ (mip_ssip, supervisor_software_interrupt)
    ∷ (mip_stip, supervisor_timer_interrupt)
    ∷ []

module _ {M : Type 0} where
  -- `write_csr_raw(MIP, read_csr_raw(MIP) & !flag); wfi = false`
  unfoldable pub acknowledge : ℕ → Cpu M → Cpu M
  acknowledge flag c =
      let c' =
        write_csr_raw csr_mip_address (bit_and (read_csr_raw c csr_mip_address) (complement flag))
          c in
      record c' { wfi = false }

  -- One of the tests; true if the interrupt was taken.
  unfoldable pub offer : ℕ → ℕ → TrapType → ℕ → Exec (Cpu M) Trap Bool
  offer minterrupt flag trap_type instruction_address =
      if bit_and minterrupt flag == 0 then pure false else (do
        pc ← gets (λ c. c.pc)
        taken ← handle_trap (record { trap_type = trap_type; value = pc }) instruction_address true
        if taken then modify (acknowledge flag) else pure tt
        pure taken)

  unfoldable pub offer_all : ℕ → List (ℕ × TrapType) → ℕ → Exec (Cpu M) Trap (Unit {0})
  offer_all minterrupt [] instruction_address = pure tt
  offer_all minterrupt ((flag, trap_type) ∷ rest) instruction_address = do
    taken ← offer minterrupt flag trap_type instruction_address
    if taken then pure tt else offer_all minterrupt rest instruction_address

  unfoldable pub handle_interrupt : ℕ → Exec (Cpu M) Trap (Unit {0})
  handle_interrupt instruction_address = do
    minterrupt ← gets λ c. bit_and (read_csr_raw c csr_mip_address) (read_csr_raw c csr_mie_address)
    offer_all minterrupt interrupt_order instruction_address
