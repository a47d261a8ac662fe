-- ===== src/Cpu/Csr/Windows.antt =====
-- Reading back what was written to a register, the registers that a write leaves alone, and the
-- windows on shared registers (crates/riscv-cpu/src/cpu.rs, read_csr_raw and write_csr_raw).
use yove.Base.{
  ℕ, ◌≡◌, ◌≢◌, refl, if◌then◌else◌, ◌==◌, bit_and, complement, arith, masked_write_read,
  masked_write_rest, bit_and_mask, bit, bit-bit_or, bit-bit_and, ◌<<<◌, ◌>>>◌,
}
use yove.Cpu.{Cpu}
use yove.Cpu.Address.{
  csr_fflags_address, csr_frm_address, csr_fcsr_address, csr_sstatus_address, csr_sie_address,
  csr_sip_address, csr_mstatus_address, csr_mideleg_address, csr_mie_address, csr_mip_address,
}
use yove.Cpu.Csr.{masked_write, read_csr_raw, write_csr_raw, sync_mstatus}

-- The register of the array that an address reads and writes.
abbrev pub backing : ℕ → ℕ
backing address =
    if address == csr_fflags_address
    then csr_fcsr_address
    else if address == csr_frm_address
    then csr_fcsr_address
    else if address == csr_sstatus_address
    then csr_mstatus_address
    else if address == csr_sie_address
    then csr_mie_address
    else if address == csr_sip_address
    then csr_mip_address
    else address

-- The part of a value that a register keeps.
abbrev pub kept : ℕ → ℕ → ℕ
kept address value =
    if address == csr_fflags_address
    then bit_and value 0x1f
    else if address == csr_frm_address
    then bit_and value 0x7
    else if address == csr_sstatus_address
    then bit_and value 0x800de162
    else if address == csr_sie_address
    then bit_and value 0x222
    else if address == csr_sip_address
    then bit_and value 0x222
    else if address == csr_mideleg_address
    then bit_and value 0x666
    else value

-- Bit j of FCSR after a write to FRM, for the three bits that FRM is.
frm_bit :
    (j old w : ℕ)
    → bit j (complement 0xe0) ≡ 0
    → bit j 0xe0 ≡ 1
    → bit j (masked_write 0xe0 old w) ≡ bit j w
frm_bit j old w p q = omega (
  arith,
  bit-bit_or j (bit_and old (complement 0xe0)) (bit_and w 0xe0),
  bit-bit_and j old (complement 0xe0),
  bit-bit_and j w 0xe0,
  p,
  q,
)

frm_read : (old v : ℕ) → bit_and (masked_write 0xe0 old (v <<< 5) >>> 5) 0x7 ≡ bit_and v 0x7
frm_read old v = omega (
  arith,
  bit_and_mask 3 v,
  bit_and_mask 3 (masked_write 0xe0 old (v <<< 5) >>> 5),
  frm_bit 5 old (v <<< 5) refl refl,
  frm_bit 6 old (v <<< 5) refl refl,
  frm_bit 7 old (v <<< 5) refl refl,
)

module _ {M : Type 0} where
  -- A register reads back the part that it keeps of the value last written to it.
  pub read_csr_raw-write_csr_raw :
      (a v : ℕ) (c : Cpu M) → read_csr_raw (write_csr_raw a v c) a ≡ kept a v
  unfolding read_csr_raw write_csr_raw sync_mstatus
  read_csr_raw-write_csr_raw a v c = ground (
    arith,
    frm_read (c.csr csr_fcsr_address) v,
    masked_write_read 0x1f (complement 0x1f) (c.csr csr_fcsr_address) v refl refl,
    masked_write_read 0x222 (complement 0x222) (c.csr csr_mie_address) v refl refl,
    masked_write_read 0x222 (complement 0x222) (c.csr csr_mip_address) v refl refl,
    masked_write_read 0x800de162 (complement 0x800de162) (c.csr csr_mstatus_address) v refl refl,
  )

  -- A write leaves every register alone that stands on another place of the array.
  pub write_csr_raw_other :
      (a b v : ℕ) (c : Cpu M)
      → backing a ≢ backing b
      → read_csr_raw (write_csr_raw a v c) b ≡ read_csr_raw c b
  unfolding read_csr_raw write_csr_raw sync_mstatus
  write_csr_raw_other a b v c h = ground arith

  -- A write to SSTATUS, SIE or SIP leaves the rest of the register behind it, MSTATUS, MIE or MIP,
  -- alone.
  pub write_csr_raw_behind :
      (v : ℕ) (c : Cpu M)
      → let rest = λ (mask : ℕ) (word : ℕ). bit_and word (complement mask) in
        (rest 0x800de162 (read_csr_raw (write_csr_raw csr_sstatus_address v c) csr_mstatus_address)
          ≡ rest 0x800de162 (read_csr_raw c csr_mstatus_address))
        × (rest 0x222 (read_csr_raw (write_csr_raw csr_sie_address v c) csr_mie_address)
            ≡ rest 0x222 (read_csr_raw c csr_mie_address))
        × (rest 0x222 (read_csr_raw (write_csr_raw csr_sip_address v c) csr_mip_address)
            ≡ rest 0x222 (read_csr_raw c csr_mip_address))
  unfolding read_csr_raw write_csr_raw sync_mstatus
  write_csr_raw_behind v c = (
    masked_write_rest 0x800de162 (complement 0x800de162) (c.csr csr_mstatus_address) v refl refl,
    masked_write_rest 0x222 (complement 0x222) (c.csr csr_mie_address) v refl refl,
    masked_write_rest 0x222 (complement 0x222) (c.csr csr_mip_address) v refl refl,
  )
