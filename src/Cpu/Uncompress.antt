-- ===== src/Cpu/Uncompress.antt =====
-- crates/riscv-cpu/src/cpu.rs: `uncompress_inner` as a whole, and `uncompress`, which remembers its
-- results in a cache of all halfwords.
use yove.Base.{ℕ, Option, some, none, if◌then◌else◌, ◌==◌, update, bit_and, ◌>>>◌}
use yove.Base.Exec.{Exec, ok}
use yove.Trap.{Trap}
use yove.Cpu.{Cpu}
use yove.Cpu.Compressed.{invalid, quadrant0}
use yove.Cpu.Compressed.Quadrant1.{quadrant1}
use yove.Cpu.Compressed.Quadrant2.{quadrant2}

unfoldable pub uncompress_inner : ℕ → ℕ
unfolding quadrant0 quadrant1 quadrant2
uncompress_inner halfword =
    let op = bit_and halfword 0x3 in
    let funct3 = bit_and (halfword >>> 13) 0x7 in
    if op == 0
    then quadrant0 funct3 halfword
    else if op == 1
    then quadrant1 funct3 halfword
    else if op == 2
    then quadrant2 funct3 halfword
    else invalid

module _ {M : Type 0} where
  unfoldable pub remember : ℕ → ℕ → Cpu M → Cpu M
  remember inst result c = record c { c_cache = update c.c_cache inst (some result) }

  -- What the cache held for `inst`, or else the expansion, which it holds from now on.
  unfoldable pub recall : Option ℕ → ℕ → ℕ → Exec (Cpu M) Trap ℕ
  unfolding remember
  recall (some hit) inst halfword c = ok hit c
  recall none inst halfword c =
      ok (uncompress_inner halfword) (remember inst (uncompress_inner halfword) c)

  unfoldable pub uncompress : ℕ → Exec (Cpu M) Trap ℕ
  uncompress halfword c =
      let inst = bit_and halfword 0xffff in recall (c.c_cache inst) inst halfword c
