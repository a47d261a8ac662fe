-- ===== src/Cpu/TrapEntry/Status.antt =====
-- The bits of MSTATUS at a trap entry and at the return (crates/riscv-cpu/src/cpu.rs, handle_trap,
-- and instructions.rs, MRET).
use yove.Base.{
  ℕ, ◌/◌, ◌%◌, ◌^◌, ◌<◌, ◌≡◌, refl, ap, ap₂, ◌∙◌, bit, bit-bit_and, bit-bit_or, bit_and_mask,
  bit_and, bit_or, bit_and_assoc, bit_and-bit_or, bit_or-zero, bit_or_assoc, min, max, zero, suc,
  complement, ◌>>>◌, ◌<<<◌, arith,
}
use yove.Trap.{PrivilegeMode}
use yove.Cpu.TrapEntry.{machine_entry_status}
use yove.Cpu.Ops.System.{carried_mprv, machine_return_status}

low_bit : (s k : ℕ) → bit_and (s >>> k) 1 ≡ bit k s
low_bit s k = bit_and_mask 1 (s >>> k)

-- The bits that neither mask keeps do not remain.
field_gone :
    (mie encoding : ℕ)
    → mie < 2
    → encoding < 4
    → bit_and (bit_or (mie <<< 7) (encoding <<< 11)) (complement 0x1888) ≡ 0
field_gone zero zero h k = refl
field_gone zero (suc zero) h k = refl
field_gone zero (suc (suc zero)) h k = refl
field_gone zero (suc (suc (suc zero))) h k = refl
field_gone (suc zero) zero h k = refl
field_gone (suc zero) (suc zero) h k = refl
field_gone (suc zero) (suc (suc zero)) h k = refl
field_gone (suc zero) (suc (suc (suc zero))) h k = refl
field_gone zero (suc (suc (suc (suc e)))) h k = omega arith
field_gone (suc zero) (suc (suc (suc (suc e)))) h k = omega arith
field_gone (suc (suc m)) e h k = omega arith

module _ (encoding status : ℕ) where
  -- A bit of the new status, from those of its three parts.
  entry_bit :
      (k : ℕ)
      → bit k (machine_entry_status encoding status)
        ≡ max
            (max (min (bit k status) (bit k (complement 0x1888))) (bit k (bit 3 status <<< 7)))
            (bit k (encoding <<< 11))
  unfolding machine_entry_status
  entry_bit k =
      let mie = bit_and (status >>> 3) 1 <<< 7 in
      let kept = bit_and status (complement 0x1888) in
      omega (
        arith,
        ap (λ b. bit k (b <<< 7)) (low_bit status 3),
        bit-bit_or k (bit_or kept mie) (encoding <<< 11),
        bit-bit_or k kept mie,
        bit-bit_and k status (complement 0x1888),
      )

  pub machine_entry_status-mie : encoding < 4 → bit 3 (machine_entry_status encoding status) ≡ 0
  machine_entry_status-mie h = omega (arith, entry_bit 3)

  pub machine_entry_status-mpie :
      encoding < 4 → bit 7 (machine_entry_status encoding status) ≡ bit 3 status
  machine_entry_status-mpie h = omega (arith, entry_bit 7)

  pub machine_entry_status-mpp :
      encoding < 4 → machine_entry_status encoding status / 2 ^ 11 % 4 ≡ encoding
  machine_entry_status-mpp h = omega (arith, entry_bit 11, entry_bit 12)

  pub machine_entry_status-rest :
      encoding < 4
      → bit_and (machine_entry_status encoding status) (complement 0x1888)
        ≡ bit_and status (complement 0x1888)
  unfolding machine_entry_status
  machine_entry_status-rest h =
      let mie = bit_and (status >>> 3) 1 in
      let others = complement 0x1888 in
      ap (λ w. bit_and w others)
        (bit_or_assoc (bit_and status others) (mie <<< 7) (encoding <<< 11))
      ∙ bit_and-bit_or (bit_and status others) (bit_or (mie <<< 7) (encoding <<< 11)) others
      ∙ ap₂ bit_or (bit_and_assoc status others others)
          (field_gone mie encoding (omega (arith, low_bit status 3)) h)
      ∙ bit_or-zero (bit_and status others)

-- The return gives MIE back what MPIE held, and frees MPIE and MPP.
module _ (mode : PrivilegeMode) (status : ℕ) where
  carried : carried_mprv mode status < 2
  unfolding carried_mprv
  carried = ground (arith, low_bit status 17)

  return_bit :
      (k : ℕ)
      → bit k (machine_return_status mode status)
        ≡ max
            (max
              (max
                (min (bit k status) (bit k (complement 0x21888)))
                (bit k (carried_mprv mode status <<< 17)))
              (bit k (bit 7 status <<< 3)))
            (bit k (1 <<< 7))
  unfolding machine_return_status
  return_bit k =
      let mprv = carried_mprv mode status <<< 17 in
      let mpie = bit_and (status >>> 7) 1 <<< 3 in
      let kept = bit_and status (complement 0x21888) in
      omega (
        arith,
        ap (λ b. bit k (b <<< 3)) (low_bit status 7),
        bit-bit_or k (bit_or (bit_or kept mprv) mpie) (1 <<< 7),
        bit-bit_or k (bit_or kept mprv) mpie,
        bit-bit_or k kept mprv,
        bit-bit_and k status (complement 0x21888),
      )

  pub machine_return_status-mie : bit 3 (machine_return_status mode status) ≡ bit 7 status
  machine_return_status-mie = omega (arith, return_bit 3, carried)
