-- ===== src/Cpu/Format.antt =====
-- crates/riscv-cpu/src/cpu/instructions.rs: the fields of an instruction word, by format.
pub mod Immediates
use yove.Base.{ℕ, if◌then◌else◌, ◌==◌, bit_and, bit_or, ◌>>>◌, ◌<<<◌}

pub record FormatB : Type 0 where
  pub rs1 : ℕ
  pub rs2 : ℕ
  pub imm : ℕ

pub record FormatCsr : Type 0 where
  pub csr : ℕ
  pub rs : ℕ
  pub rd : ℕ

pub record FormatI : Type 0 where
  pub rd : ℕ
  pub rs1 : ℕ
  pub imm : ℕ

pub record FormatJ : Type 0 where
  pub rd : ℕ
  pub imm : ℕ

pub record FormatR : Type 0 where
  pub rd : ℕ
  pub rs1 : ℕ
  pub rs2 : ℕ

pub record FormatS : Type 0 where
  pub rs1 : ℕ
  pub rs2 : ℕ
  pub imm : ℕ

pub record FormatU : Type 0 where
  pub rd : ℕ
  pub imm : ℕ

-- `match word & 0x80000000 { 0x80000000 => extension, _ => 0 }`
abbrev pub sign_fill : ℕ → ℕ → ℕ
sign_fill word extension = if bit_and word 0x80000000 == 0x80000000 then extension else 0

abbrev pub register_at : ℕ → ℕ → ℕ
register_at word k = bit_and (word >>> k) 0x1f

unfoldable pub parse_format_b : ℕ → FormatB
parse_format_b word = record {
  rs1 = register_at word 15;
  rs2 = register_at word 20;
  imm =
      bit_or
        (bit_or (bit_or (sign_fill word 0xfffff000) (bit_and (word <<< 4) 0x800))
          (bit_and (word >>> 20) 0x7e0))
        (bit_and (word >>> 7) 0x1e);
}

unfoldable pub parse_format_csr : ℕ → FormatCsr
parse_format_csr word = record {
  csr = bit_and (word >>> 20) 0xfff;
  rs = register_at word 15;
  rd = register_at word 7;
}

unfoldable pub parse_format_i : ℕ → FormatI
parse_format_i word = record {
  rd = register_at word 7;
  rs1 = register_at word 15;
  imm =
      bit_or (if bit_and word 0x80000000 == 0 then 0 else 0xfffff800) (bit_and (word >>> 20) 0x7ff);
}

unfoldable pub parse_format_j : ℕ → FormatJ
parse_format_j word = record {
  rd = register_at word 7;
  imm =
      bit_or
        (bit_or (bit_or (sign_fill word 0xfff00000) (bit_and word 0xff000))
          (bit_and word 0x100000 >>> 9))
        (bit_and word 0x7fe00000 >>> 20);
}

unfoldable pub parse_format_r : ℕ → FormatR
parse_format_r word = record {
  rd = register_at word 7;
  rs1 = register_at word 15;
  rs2 = register_at word 20;
}

unfoldable pub parse_format_s : ℕ → FormatS
parse_format_s word = record {
  rs1 = register_at word 15;
  rs2 = register_at word 20;
  imm =
      bit_or (bit_or (sign_fill word 0xfffff000) (bit_and (word >>> 20) 0xfe0))
        (bit_and (word >>> 7) 0x1f);
}

unfoldable pub parse_format_u : ℕ → FormatU
parse_format_u word = record { rd = register_at word 7; imm = bit_and word 0xfffff000 }
