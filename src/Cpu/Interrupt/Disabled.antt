-- ===== src/Cpu/Interrupt/Disabled.antt =====
-- Interrupts that are not taken (crates/riscv-cpu/src/cpu.rs, handle_interrupt).
use yove.Base.{ℕ, ◌≡◌, ◌≢◌, refl, Bool, true, false, List, [], ◌∷◌, bit, bit_and_mask, ◌>>>◌, arith}
use yove.Base.Exec.{ok, ◌>>=◌}
use yove.Trap.{reserved, machine, TrapType, Trap, get_privilege_encoding, get_trap_cause}
use yove.Cpu.{Cpu}
use yove.Cpu.Address.{csr_mstatus_address}
use yove.Cpu.Csr.{read_csr_raw}
use yove.Cpu.TrapEntry.{handle_trap, target_mode, is_ignored}
use yove.Cpu.Interrupt.{offer, offer_all, handle_interrupt, interrupt_order}

module _ {M : Type 0} where
  -- The mode that handles a trap is never the reserved one.
  target_mode-reserved : (c : Cpu M) (cause : ℕ) (b : Bool) → target_mode c cause b ≢ reserved
  unfolding target_mode
  target_mode-reserved c cause b = ground arith

  handle_trap_disabled :
      (trap : Trap) (a : ℕ) (c : Cpu M)
      → c.privilege_mode ≡ machine
      → bit 3 (c.csr csr_mstatus_address) ≡ 0
      → handle_trap trap a true c ≡ ok false c
  unfolding handle_trap get_privilege_encoding is_ignored read_csr_raw ◌>>=◌
  handle_trap_disabled trap a c e h = ground (
    arith,
    bit_and_mask 1 (c.csr csr_mstatus_address >>> 3),
    target_mode-reserved c (get_trap_cause trap.trap_type) true,
  )

  -- Interrupts that are not pending, or that `handle_trap` ignores, change nothing.
  offer_all_ignored :
      (minterrupt : ℕ) (order : List (ℕ × TrapType)) (a : ℕ) (c : Cpu M)
      → ((trap : Trap) → handle_trap trap a true c ≡ ok false c)
      → offer_all minterrupt order a c ≡ ok tt c
  unfolding offer_all offer ◌>>=◌
  offer_all_ignored minterrupt [] a c h = refl
  offer_all_ignored minterrupt ((flag, trap_type) ∷ rest) a c h = grind (
    arith,
    h (record { trap_type = trap_type; value = c.pc }),
    offer_all_ignored minterrupt rest a c h,
  )

  -- A core in the machine mode with MIE clear takes no interrupt: its state is unchanged.
  pub handle_interrupt_disabled :
      (a : ℕ) (c : Cpu M)
      → c.privilege_mode ≡ machine
      → bit 3 (c.csr csr_mstatus_address) ≡ 0
      → handle_interrupt a c ≡ ok tt c
  unfolding handle_interrupt ◌>>=◌
  handle_interrupt_disabled a c e h =
      offer_all_ignored _ interrupt_order a c (λ trap. handle_trap_disabled trap a c e h)
