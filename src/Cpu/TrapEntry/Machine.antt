-- ===== src/Cpu/TrapEntry/Machine.antt =====
-- A trap that the machine mode takes, and the MRET after it (crates/riscv-cpu/src/cpu.rs,
-- handle_trap, and instructions.rs, MRET).
use yove.Base.{
  ℕ, ◌/◌, ◌%◌, ◌^◌, ◌<◌, ◌≡◌, refl, ap, sym, ◌∙◌, true, false, some, bit, bit_and, complement,
  ◌>>>◌, bit_and_mask, arith,
}
use yove.Base.Exec.{◌>>=◌}
use yove.Base.Exec.Returns.{Returns, Returns-bind, Returns-map}
use yove.Trap.{
  PrivilegeMode, machine, Trap, get_privilege_encoding, get_trap_cause, decode_privilege_mode,
}
use yove.Bus.{Memory}
use yove.Cpu.{Cpu}
use yove.Cpu.Address.{
  csr_mepc_address, csr_mcause_address, csr_mtval_address, csr_mtvec_address, csr_mstatus_address,
}
use yove.Cpu.Csr.{read_csr_raw, write_csr_raw, sync_mstatus, read_csr, has_csr_access_privilege}
use yove.Cpu.Ops.System.{mret, machine_return_status}
use yove.Trap.Codes.{decode-encoding_iff}
use yove.Cpu.TrapEntry.{enter, stack_status, handle_trap, target_mode, vectored}
use yove.Cpu.TrapEntry.Status.{
  machine_entry_status-mie, machine_entry_status-mpie, machine_entry_status-mpp,
  machine_entry_status-rest, machine_return_status-mie,
}

encoding_small :
    (mode : PrivilegeMode) (encoding : ℕ)
    → get_privilege_encoding mode ≡ some encoding
    → encoding < 4
unfolding get_privilege_encoding
encoding_small mode encoding e = ground arith

module _ {M : Type 0} where
  -- What the entry into the handler of the machine mode leaves of the state `c`.
  pub record Entered (trap : Trap) (address encoding : ℕ) (c t : Cpu M) : Type 0 where
    pub mode : t.privilege_mode ≡ machine
    pub pc : t.pc ≡ vectored (c.csr csr_mtvec_address) (get_trap_cause trap.trap_type)
    pub epc : t.csr csr_mepc_address ≡ address
    pub cause : t.csr csr_mcause_address ≡ get_trap_cause trap.trap_type
    pub tval : t.csr csr_mtval_address ≡ trap.value
    pub mie : bit 3 (t.csr csr_mstatus_address) ≡ 0
    pub mpie : bit 7 (t.csr csr_mstatus_address) ≡ bit 3 (c.csr csr_mstatus_address)
    pub mpp : t.csr csr_mstatus_address / 2 ^ 11 % 4 ≡ encoding
    pub rest :
        bit_and (t.csr csr_mstatus_address) (complement 0x1888)
        ≡ bit_and (c.csr csr_mstatus_address) (complement 0x1888)
    pub x : t.x ≡ c.x

  entered :
      (trap : Trap) (address encoding : ℕ) (c : Cpu M)
      → encoding < 4
      → Returns
          (enter trap address machine encoding c)
          (λ taken t. (taken ≡ true) × Entered trap address encoding c t)
  unfolding enter stack_status write_csr_raw sync_mstatus read_csr_raw ◌>>=◌
  entered trap address encoding c h =
      let status = c.csr csr_mstatus_address in
      (
        refl,
        record {
          mode = refl;
          pc = refl;
          epc = refl;
          cause = refl;
          tval = refl;
          mie = machine_entry_status-mie encoding status h;
          mpie = machine_entry_status-mpie encoding status h;
          mpp = machine_entry_status-mpp encoding status h;
          rest = machine_entry_status-rest encoding status h;
          x = refl;
        },
      )

  entry :
      (trap : Trap) (address encoding : ℕ) (c : Cpu M)
      → get_privilege_encoding c.privilege_mode ≡ some encoding
      → target_mode c (get_trap_cause trap.trap_type) false ≡ machine
      → handle_trap trap address false c ≡ enter trap address machine encoding c
  unfolding handle_trap get_privilege_encoding ◌>>=◌
  entry trap address encoding c e h = ground arith

  -- An exception whose cause is not delegated from the machine mode, in any mode but the reserved
  -- one, always enters the machine mode's handler: the program counter is the vectored MTVEC; MEPC,
  -- MCAUSE and MTVAL are written; MSTATUS has its MIE moved to MPIE, its MPP set to the encoding of
  -- the mode before and its other bits unchanged; and the registers are unchanged.
  pub handle_trap-Entered :
      (trap : Trap) (address encoding : ℕ) (c : Cpu M)
      → get_privilege_encoding c.privilege_mode ≡ some encoding
      → target_mode c (get_trap_cause trap.trap_type) false ≡ machine
      → Returns
          (handle_trap trap address false c)
          λ taken t. (taken ≡ true) × Entered trap address encoding c t
  handle_trap-Entered trap address encoding c e h =
      rw (entry trap address encoding c e h)
        (entered trap address encoding c (encoding_small c.privilege_mode encoding e))

  mret_lem :
      (bus : Memory M) (word here : ℕ) (mode : PrivilegeMode) (t : Cpu M)
      → t.privilege_mode ≡ machine
      → decode_privilege_mode (bit_and (t.csr csr_mstatus_address >>> 11) 0x3) ≡ some mode
      → Returns (mret bus word here t) λ _ u.
        (u.pc ≡ t.csr csr_mepc_address)
        × (u.privilege_mode ≡ mode)
        × (u.csr csr_mstatus_address ≡ machine_return_status mode (t.csr csr_mstatus_address))
        × (u.x ≡ t.x)
  unfolding mret read_csr has_csr_access_privilege get_privilege_encoding write_csr_raw sync_mstatus
      read_csr_raw ◌>>=◌
  mret_lem bus word here mode t e h = rw (e, h) (refl, refl, refl, refl)

  -- The mode that the entry stacks in MPP is the one that MRET takes from there.
  stacked :
      (trap : Trap) (address encoding : ℕ) (c t : Cpu M)
      → get_privilege_encoding c.privilege_mode ≡ some encoding
      → Entered trap address encoding c t
      → decode_privilege_mode (bit_and (t.csr csr_mstatus_address >>> 11) 0x3)
        ≡ some c.privilege_mode
  stacked trap address encoding c t e s =
      (decode-encoding_iff c.privilege_mode _).1 (e ∙ ap some (sym mpp))
    where
      mpp : bit_and (t.csr csr_mstatus_address >>> 11) 0x3 ≡ encoding
      mpp = bit_and_mask 2 _ ∙ s.mpp

  -- MRET at once after such an exception always goes back to the instruction, the mode and the
  -- interrupt enable bit of before, with the same registers.
  pub handle_trap-mret :
      (bus : Memory M) (trap : Trap) (address encoding word here : ℕ) (c : Cpu M)
      → get_privilege_encoding c.privilege_mode ≡ some encoding
      → target_mode c (get_trap_cause trap.trap_type) false ≡ machine
      → Returns ((handle_trap trap address false >>= λ _. mret bus word here) c) λ _ t.
        (t.pc ≡ address)
        × (t.privilege_mode ≡ c.privilege_mode)
        × (bit 3 (t.csr csr_mstatus_address) ≡ bit 3 (c.csr csr_mstatus_address))
        × (t.x ≡ c.x)
  handle_trap-mret bus trap address encoding word here c e h =
      Returns-bind (λ taken t. (taken ≡ true) × Entered trap address encoding c t) _ _ _ _
        (handle_trap-Entered trap address encoding c e h)
        λ taken t (is_taken, s).
          Returns-map _ _ (mret bus word here t)
            (mret_lem bus word here c.privilege_mode t s.mode
              (stacked trap address encoding c t e s))
            λ _ u (pc, mode, status, x). (pc ∙ s.epc, mode, enabled t u status s, x ∙ s.x)
    where
      enabled :
          (t u : Cpu M)
          → u.csr csr_mstatus_address
            ≡ machine_return_status c.privilege_mode (t.csr csr_mstatus_address)
          → Entered trap address encoding c t
          → bit 3 (u.csr csr_mstatus_address) ≡ bit 3 (c.csr csr_mstatus_address)
      enabled t u status s =
          ap (bit 3) status
          ∙ machine_return_status-mie c.privilege_mode (t.csr csr_mstatus_address)
          ∙ s.mpie
