-- ===== src/Cpu/Stable/Traps.antt =====
-- Traps and interrupts (crates/riscv-cpu/src/cpu.rs, handle_trap and handle_interrupt).
use yove.Base.{ℕ, ◌≢◌, Bool, List, [], ◌∷◌, bit_and, complement, arith}
use yove.Base.Exec.{◌>>=◌}
use yove.Base.Exec.Keeps.{
  Keeps, keeps_rules, Keeps-modify, Keeps-bind, Keeps-if, Keeps-gets, Keeps-pure,
}
use yove.Trap.{PrivilegeMode, user, supervisor, reserved, machine, TrapType, Trap, get_trap_cause}
use yove.Cpu.{Cpu}
use yove.Cpu.Address
use yove.Cpu.Address.{csr_satp_address}
use yove.Cpu.Csr.{read_csr_raw, write_csr_raw}
use yove.Cpu.TrapEntry.{
  enter, stack_status, set_privilege_mode, vectored, handle_trap, machine_entry_status,
  supervisor_entry_status,
}
use yove.Cpu.Interrupt.{acknowledge, offer, offer_all, handle_interrupt, interrupt_order}
use yove.Cpu.Stable.{IsStable}

module _ {M : Type 0} (P : Cpu M → Type 0) (stable : IsStable P) where
  -- The writes of a trap entry, at registers other than SATP.
  entered :
      (mode : PrivilegeMode) (epc cause tval status v₁ v₂ v₃ : ℕ) (v₄ p : Cpu M → ℕ)
      → epc ≢ csr_satp_address
      → cause ≢ csr_satp_address
      → tval ≢ csr_satp_address
      → status ≢ csr_satp_address
      → (c : Cpu M) → P c
      → let c₁ =
          write_csr_raw tval v₃
            (write_csr_raw cause v₂ (write_csr_raw epc v₁ (set_privilege_mode mode c))) in
        let c₂ = record c₁ { pc = p c₁ } in P (write_csr_raw status (v₄ c₂) c₂)
  entered mode epc cause tval status v₁ v₂ v₃ v₄ p n₁ n₂ n₃ n₄ c s =
      let s₁ = stable.on_csr_raw epc v₁ n₁ _ (stable.on_mode mode c s) in
      let s₂ = stable.on_csr_raw cause v₂ n₂ _ s₁ in
      let s₃ = stable.on_csr_raw tval v₃ n₃ _ s₂ in
      stable.on_csr_raw status _ n₄ _ (stable.on_pc _ _ s₃)

  enter-Keeps :
      (trap : Trap) (a : ℕ) (mode : PrivilegeMode) (encoding : ℕ)
      → Keeps P (enter trap a mode encoding)
  unfolding enter stack_status ◌>>=◌
  enter-Keeps trap a machine encoding = record {
    at =
        entered machine _ _ _ _ _ _ _
          (λ c. machine_entry_status encoding (read_csr_raw c Address.csr_mstatus_address))
          (λ c. vectored (read_csr_raw c Address.csr_mtvec_address) (get_trap_cause trap.trap_type))
          (omega arith) (omega arith) (omega arith) (omega arith);
  }
  enter-Keeps trap a supervisor encoding = record {
    at =
        entered supervisor _ _ _ _ _ _ _
          (λ c. supervisor_entry_status encoding (read_csr_raw c Address.csr_sstatus_address))
          (λ c. vectored (read_csr_raw c Address.csr_stvec_address) (get_trap_cause trap.trap_type))
          (omega arith) (omega arith) (omega arith) (omega arith);
  }
  enter-Keeps trap a user encoding = record { at = λ c s. tt }
  enter-Keeps trap a reserved encoding = record { at = λ c s. tt }

  pub handle_trap-Keeps :
      (trap : Trap) (a : ℕ) (is_interrupt : Bool) → Keeps P (handle_trap trap a is_interrupt)
  unfolding handle_trap
  handle_trap-Keeps trap a is_interrupt = search (enter-Keeps, keeps_rules) depth 20

  acknowledge-keeps : (flag : ℕ) (c : Cpu M) → P c → P (acknowledge flag c)
  unfolding acknowledge
  acknowledge-keeps flag c s = stable.on_wfi _ _ (
      stable.on_csr_raw Address.csr_mip_address
        (bit_and (read_csr_raw c Address.csr_mip_address) (complement flag)) (omega arith) c s)

  offer-Keeps : (minterrupt flag : ℕ) (t : TrapType) (a : ℕ) → Keeps P (offer minterrupt flag t a)
  unfolding offer
  offer-Keeps minterrupt flag t a =
      search (handle_trap-Keeps, Keeps-modify, acknowledge-keeps, keeps_rules) depth 20

  offer_all-Keeps :
      (minterrupt : ℕ) (order : List (ℕ × TrapType)) (a : ℕ)
      → Keeps P (offer_all minterrupt order a)
  unfolding offer_all
  offer_all-Keeps minterrupt [] a = Keeps-pure tt
  offer_all-Keeps minterrupt ((flag, t) ∷ rest) a =
      Keeps-bind _ _ (offer-Keeps minterrupt flag t a)
        λ taken. Keeps-if taken _ _ (Keeps-pure tt) (offer_all-Keeps minterrupt rest a)

  pub handle_interrupt-Keeps : (a : ℕ) → Keeps P (handle_interrupt a)
  unfolding handle_interrupt
  handle_interrupt-Keeps a =
      Keeps-bind _ _ (Keeps-gets _) λ minterrupt. offer_all-Keeps minterrupt interrupt_order a
