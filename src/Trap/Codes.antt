-- ===== src/Trap/Codes.antt =====
-- The numbers of privilege modes and traps against each other (crates/riscv-cpu/src/cpu.rs).
use yove.Base.{ℕ, ◌≡◌, ◌↔◌, some, arith}
use yove.Trap.{PrivilegeMode, get_privilege_encoding, decode_privilege_mode}

-- A number decodes to a mode exactly if it is the encoding of that mode: the two partial functions
-- are inverse to each other.
pub decode-encoding_iff :
    (m : PrivilegeMode) (n : ℕ)
    → (decode_privilege_mode n ≡ some m) ↔ (get_privilege_encoding m ≡ some n)
unfolding decode_privilege_mode get_privilege_encoding
decode-encoding_iff m n = ground arith
