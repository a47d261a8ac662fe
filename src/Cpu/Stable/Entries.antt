-- ===== src/Cpu/Stable/Entries.antt =====
-- Every entry of the instruction table, hence whatever the decoder gives
-- (crates/riscv-cpu/src/cpu/instructions.rs).
use yove.Base.{ℕ, zero, suc, true, some, List, [], ◌∷◌, ◌≡◌, some-injective, subst}
use yove.Base.Exec.Keeps.{Keeps, Keeps-modify, Keeps-pure, Keeps-abort}
use yove.Bus.{Memory}
use yove.Mmu.Footprint.{
  load_word-Keeps, load_halfword-Keeps, load-Keeps, store_word-Keeps, store_halfword-Keeps,
  store-Keeps,
}
use yove.Cpu.{Cpu, set_x}
use yove.Cpu.Ops.{Operation, nothing}
use yove.Cpu.Ops.Arith
use yove.Cpu.Ops.Branch
use yove.Cpu.Ops.Transfer
use yove.Cpu.Ops.Atomic
use yove.Cpu.Ops.Status
use yove.Cpu.Ops.MulDiv
use yove.Cpu.Ops.System
use yove.Cpu.Table.{Instruction, get_instructions, operation_at}
use yove.Cpu.Stable.{IsStable}
use yove.Cpu.Stable.Operations.{
  memory_only, immediate-Keeps, register-Keeps, shift-Keeps, branch-Keeps, jalr-Keeps, jal-Keeps,
  load-Keeps-transfer, store-Keeps-put, amo-Keeps, lr_w-Keeps, sc_w-Keeps, exchange-Keeps,
  ecall-Keeps, mret-Keeps, sret-Keeps,
}

module _ {M : Type 0} (P : Cpu M → Type 0) where
  abbrev KeepsAll : List (Instruction M) → Type 0
  KeepsAll [] = Unit
  KeepsAll (e ∷ rest) = ((w a : ℕ) → Keeps P (e.operation w a)) × KeepsAll rest

module _ {M : Type 0} (bus : Memory M) (P : Cpu M → Type 0) (stable : IsStable P)
    (on_x : (i v : ℕ) (c : Cpu M) → P c → P (set_x i v c)) where
  table-Keeps : KeepsAll P (get_instructions bus)
  unfolding get_instructions nothing Arith.addi Arith.add Arith.auipc Arith.andi Arith.or Arith.sub
      Arith.slli Arith.lui Arith.xori Arith.srli Arith.sltu Arith.srl Arith.and Arith.srai Arith.sll
      Arith.sltiu Arith.slti Arith.xor Arith.ori Arith.slt Arith.addiw Arith.addw Arith.slliw
      Arith.sllw Arith.sra Arith.sraiw Arith.sraw Arith.srliw Arith.srlw Arith.subw Transfer.sw
      Transfer.lw Transfer.lbu Transfer.sb Transfer.sh Transfer.lhu Transfer.lh Transfer.lb
      Transfer.lwu Branch.bltu Branch.beq Branch.bne Branch.bgeu Branch.bge Branch.blt MulDiv.mul
      MulDiv.mulhu MulDiv.div MulDiv.divu MulDiv.divuw MulDiv.divw MulDiv.mulh MulDiv.mulhsu
      MulDiv.mulw MulDiv.rem MulDiv.remu MulDiv.remuw MulDiv.remw Atomic.amoswap_w Atomic.amoadd_w
      Atomic.amoxor_w Atomic.amoand_w Atomic.amominu_w Atomic.amomin_w Atomic.amomaxu_w
      Atomic.amomax_w Atomic.amoor_w Status.csrrc Status.csrrci Status.csrrs Status.csrrsi
      Status.csrrw Status.csrrwi System.uret System.wfi
  table-Keeps = (
    λ w a. immediate-Keeps bus P stable on_x _ w,
    (
      λ w a.
          store-Keeps-put bus P stable on_x _ _ w
            (λ c. store_word-Keeps bus _ (memory_only bus P stable on_x c)),
      (
        λ w a.
            load-Keeps-transfer bus P stable on_x _ _ w
              (λ c. load_word-Keeps bus _ (memory_only bus P stable on_x c)),
        (
          λ w a. register-Keeps bus P stable on_x _ w,
          (
            λ w a. branch-Keeps bus P stable on_x _ w a,
            (
              λ w a. jalr-Keeps bus P stable on_x w a,
              (
                λ w a.
                    load-Keeps-transfer bus P stable on_x _ _ w
                      (λ c. load-Keeps bus _ (memory_only bus P stable on_x c)),
                (
                  λ w a. Keeps-modify _ (λ c. on_x _ _ c),
                  (
                    λ w a.
                        store-Keeps-put bus P stable on_x _ _ w
                          (λ c. store-Keeps bus _ (memory_only bus P stable on_x c)),
                    (
                      λ w a. branch-Keeps bus P stable on_x _ w a,
                      (
                        λ w a. immediate-Keeps bus P stable on_x _ w,
                        (
                          λ w a. branch-Keeps bus P stable on_x _ w a,
                          (
                            λ w a. register-Keeps bus P stable on_x _ w,
                            (
                              λ w a. register-Keeps bus P stable on_x _ w,
                              (
                                λ w a. shift-Keeps bus P stable on_x _ w,
                                (
                                  λ w a. Keeps-modify _ (λ c. on_x _ _ c),
                                  (
                                    λ w a. immediate-Keeps bus P stable on_x _ w,
                                    (
                                      λ w a. jal-Keeps bus P stable on_x w a,
                                      (
                                        λ w a. shift-Keeps bus P stable on_x _ w,
                                        (
                                          λ w a. branch-Keeps bus P stable on_x _ w a,
                                          (
                                            λ w a. branch-Keeps bus P stable on_x _ w a,
                                            (
                                              λ w a. register-Keeps bus P stable on_x _ w,
                                              (
                                                λ w a. register-Keeps bus P stable on_x _ w,
                                                (
                                                  λ w a. register-Keeps bus P stable on_x _ w,
                                                  (
                                                    λ w a. shift-Keeps bus P stable on_x _ w,
                                                    (
                                                      λ w a. register-Keeps bus P stable on_x _ w,
                                                      (
                                                        λ w a. branch-Keeps bus P stable on_x _ w a,
                                                        (
                                                          λ w a.
                                                            store-Keeps-put bus P stable on_x _ _ w
                                                            (λ c.
                                                            store_halfword-Keeps bus _
                                                            (memory_only bus P stable on_x c)),
                                                          (
                                                            λ w a.
                                                            immediate-Keeps bus P stable on_x _ w,
                                                            (
                                                            λ w a.
                                                            load-Keeps-transfer bus P stable on_x _
                                                            _ w
                                                            (λ c.
                                                            load_halfword-Keeps bus _
                                                            (memory_only bus P stable on_x c)),
                                                            (
                                                            λ w a.
                                                            load-Keeps-transfer bus P stable on_x _
                                                            _ w
                                                            (λ c.
                                                            load_halfword-Keeps bus _
                                                            (memory_only bus P stable on_x c)),
                                                            (
                                                            λ w a.
                                                            immediate-Keeps bus P stable on_x _ w,
                                                            (
                                                            λ w a.
                                                            register-Keeps bus P stable on_x _ w,
                                                            (
                                                            λ w a.
                                                            register-Keeps bus P stable on_x _ w,
                                                            (
                                                            λ w a.
                                                            register-Keeps bus P stable on_x _ w,
                                                            (
                                                            λ w a.
                                                            load-Keeps-transfer bus P stable on_x _
                                                            _ w
                                                            (λ c.
                                                            load-Keeps bus _
                                                            (memory_only bus P stable on_x c)),
                                                            (
                                                            λ w a. Keeps-pure tt,
                                                            (
                                                            λ w a.
                                                            immediate-Keeps bus P stable on_x _ w,
                                                            (
                                                            λ w a. amo-Keeps bus P stable on_x _ w,
                                                            (
                                                            λ w a. amo-Keeps bus P stable on_x _ w,
                                                            (
                                                            λ w a. lr_w-Keeps bus P stable on_x w a,
                                                            (
                                                            λ w a. sc_w-Keeps bus P stable on_x w a,
                                                            (
                                                            λ w a.
                                                            register-Keeps bus P stable on_x _ w,
                                                            (
                                                            λ w a.
                                                            immediate-Keeps bus P stable on_x _ w,
                                                            (
                                                            λ w a.
                                                            register-Keeps bus P stable on_x _ w,
                                                            (
                                                            λ w a. amo-Keeps bus P stable on_x _ w,
                                                            (
                                                            λ w a. amo-Keeps bus P stable on_x _ w,
                                                            (
                                                            λ w a. amo-Keeps bus P stable on_x _ w,
                                                            (
                                                            λ w a. amo-Keeps bus P stable on_x _ w,
                                                            (
                                                            λ w a. amo-Keeps bus P stable on_x _ w,
                                                            (
                                                            λ w a. amo-Keeps bus P stable on_x _ w,
                                                            (
                                                            λ w a. amo-Keeps bus P stable on_x _ w,
                                                            (
                                                            λ w a.
                                                            exchange-Keeps bus P stable on_x _ _ w,
                                                            (
                                                            λ w a.
                                                            exchange-Keeps bus P stable on_x _ _ w,
                                                            (
                                                            λ w a.
                                                            exchange-Keeps bus P stable on_x _ _ w,
                                                            (
                                                            λ w a.
                                                            exchange-Keeps bus P stable on_x _ _ w,
                                                            (
                                                            λ w a.
                                                            exchange-Keeps bus P stable on_x _ _ w,
                                                            (
                                                            λ w a.
                                                            exchange-Keeps bus P stable on_x _ _ w,
                                                            (
                                                            λ w a.
                                                            register-Keeps bus P stable on_x _ w,
                                                            (
                                                            λ w a.
                                                            register-Keeps bus P stable on_x _ w,
                                                            (
                                                            λ w a.
                                                            register-Keeps bus P stable on_x _ w,
                                                            (
                                                            λ w a.
                                                            register-Keeps bus P stable on_x _ w,
                                                            (
                                                            λ w a. Keeps-pure tt,
                                                            (
                                                            λ w a.
                                                            ecall-Keeps bus P stable on_x w a,
                                                            (
                                                            λ w a. Keeps-pure tt,
                                                            (
                                                            λ w a.
                                                            load-Keeps-transfer bus P stable on_x _
                                                            _ w
                                                            (λ c.
                                                            load_word-Keeps bus _
                                                            (memory_only bus P stable on_x c)),
                                                            (
                                                            λ w a.
                                                            register-Keeps bus P stable on_x _ w,
                                                            (
                                                            λ w a.
                                                            register-Keeps bus P stable on_x _ w,
                                                            (
                                                            λ w a.
                                                            register-Keeps bus P stable on_x _ w,
                                                            (
                                                            λ w a. mret-Keeps bus P stable on_x w a,
                                                            (
                                                            λ w a.
                                                            register-Keeps bus P stable on_x _ w,
                                                            (
                                                            λ w a.
                                                            register-Keeps bus P stable on_x _ w,
                                                            (
                                                            λ w a.
                                                            register-Keeps bus P stable on_x _ w,
                                                            (
                                                            λ w a.
                                                            register-Keeps bus P stable on_x _ w,
                                                            (
                                                            λ w a. Keeps-pure tt,
                                                            (
                                                            λ w a.
                                                            shift-Keeps bus P stable on_x _ w,
                                                            (
                                                            λ w a.
                                                            register-Keeps bus P stable on_x _ w,
                                                            (
                                                            λ w a.
                                                            register-Keeps bus P stable on_x _ w,
                                                            (
                                                            λ w a.
                                                            shift-Keeps bus P stable on_x _ w,
                                                            (
                                                            λ w a.
                                                            register-Keeps bus P stable on_x _ w,
                                                            (
                                                            λ w a. sret-Keeps bus P stable on_x w a,
                                                            (
                                                            λ w a.
                                                            shift-Keeps bus P stable on_x _ w,
                                                            (
                                                            λ w a.
                                                            register-Keeps bus P stable on_x _ w,
                                                            (
                                                            λ w a.
                                                            register-Keeps bus P stable on_x _ w,
                                                            (
                                                            λ w a. Keeps-abort,
                                                            (
                                                            λ w a.
                                                            Keeps-modify _
                                                            (λ c. stable.on_wfi true c),
                                                            tt,
                                                            ),
                                                            ),
                                                            ),
                                                            ),
                                                            ),
                                                            ),
                                                            ),
                                                            ),
                                                            ),
                                                            ),
                                                            ),
                                                            ),
                                                            ),
                                                            ),
                                                            ),
                                                            ),
                                                            ),
                                                            ),
                                                            ),
                                                            ),
                                                            ),
                                                            ),
                                                            ),
                                                            ),
                                                            ),
                                                            ),
                                                            ),
                                                            ),
                                                            ),
                                                            ),
                                                            ),
                                                            ),
                                                            ),
                                                            ),
                                                            ),
                                                            ),
                                                            ),
                                                            ),
                                                            ),
                                                            ),
                                                            ),
                                                            ),
                                                            ),
                                                            ),
                                                            ),
                                                            ),
                                                            ),
                                                            ),
                                                            ),
                                                            ),
                                                            ),
                                                            ),
                                                            ),
                                                            ),
                                                            ),
                                                            ),
                                                            ),
                                                          ),
                                                        ),
                                                      ),
                                                    ),
                                                  ),
                                                ),
                                              ),
                                            ),
                                          ),
                                        ),
                                      ),
                                    ),
                                  ),
                                ),
                              ),
                            ),
                          ),
                        ),
                      ),
                    ),
                  ),
                ),
              ),
            ),
          ),
        ),
      ),
    ),
  )

  operation_at-Keeps :
      (table : List (Instruction M))
      → KeepsAll P table
      → (i : ℕ) {operation : Operation M} → operation_at bus table i ≡ some operation
      → (w a : ℕ) → Keeps P (operation w a)
  unfolding operation_at
  operation_at-Keeps [] all i e w a = cc
  operation_at-Keeps (r ∷ rest) all zero {operation} e w a =
      subst (λ (f : Operation M). Keeps P (f w a)) (some-injective r.operation operation e)
        (all.0 w a)
  operation_at-Keeps (r ∷ rest) all (suc i) e w a = operation_at-Keeps rest all.1 i e w a

  pub entry-Keeps :
      (i : ℕ) {operation : Operation M}
      → operation_at bus (get_instructions bus) i ≡ some operation
      → (w a : ℕ) → Keeps P (operation w a)
  entry-Keeps = operation_at-Keeps (get_instructions bus) table-Keeps
