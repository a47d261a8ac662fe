-- ===== src/Cpu/Stable/Cycle.antt =====
-- What no kind of write breaks is kept by a whole cycle: `tick_operate` and `tick`
-- (crates/riscv-cpu/src/cpu.rs).
use yove.Base.{
  ℕ, Bool, true, false, Option, some, none, ◌≡◌, refl, if◌then◌else◌, wrapping_add, arith,
}
use yove.Base.Exec.{Outcome, ok, err, panic, pure, ◌>>=◌}
use yove.Base.Exec.Keeps.{Keeps, Holds, Keeps-modify, Keeps-bind, Keeps-if, Keeps-gets, Keeps-pure}
use yove.Trap.{Trap}
use yove.Bus.{Memory}
use yove.Mmu.{Mmu}
use yove.Mmu.Access.{fetch_word}
use yove.Mmu.Footprint.{fetch_word-Keeps}
use yove.Cpu.{Cpu, set_x}
use yove.Cpu.Address.{csr_cycle_address}
use yove.Cpu.Ops.{Operation}
use yove.Cpu.Table.{decode, found, or_illegal, decode_and_get_instruction_index}
use yove.Cpu.Tick.{
  fetch, next_word, clear_zero, step, wake, tick_operate, finish_cycle, tick, report, done,
}
use yove.Cpu.Stable.{IsStable}
use yove.Cpu.Stable.Traps.{handle_interrupt-Keeps}
use yove.Cpu.Stable.Entries.{entry-Keeps}

module _ {M : Type 0} (bus : Memory M) (P : Cpu M → Type 0) (stable : IsStable P) where
  searched : (o : Option (Operation M)) → Keeps P (or_illegal bus o)
  unfolding or_illegal
  searched none = record { at = λ c s. s }
  searched (some operation) = record { at = λ c s. s }

  decode-Keeps : (word : ℕ) → Keeps P (decode bus word)
  unfolding decode
  decode-Keeps word = searched (found bus (decode_and_get_instruction_index bus word))

  fetched :
      (c : Cpu M) (o : Outcome (Mmu M) Trap ℕ)
      → Holds (λ mmu. P (record c { mmu = mmu })) o
      → Holds {E = Trap} P (elim o [
        | ok word mmu ↦ ok word (record c { mmu = mmu })
        | err trap mmu ↦ err trap (record (record c { mmu = mmu }) { pc = wrapping_add c.pc 4 })
        | panic ↦ panic
      ])
  fetched c (ok word mmu) h = h
  fetched c (err trap mmu) h = stable.on_pc _ _ h
  fetched c panic h = tt

  pub fetch-Keeps : Keeps P (fetch bus)
  unfolding fetch
  fetch-Keeps = record {
    at = λ c s. fetched c (fetch_word bus c.pc c.mmu) (
        (fetch_word-Keeps bus _ (λ memory m h. stable.on_memory memory (record c { mmu = m }) h)
            c.pc).at
          c.mmu s);
  }

  pub next_word-Keeps : (word : ℕ) → Keeps P (next_word bus word)
  unfolding next_word
  next_word-Keeps word =
      Keeps-if _ _ _ (Keeps-bind _ _ (Keeps-modify _ (λ c. stable.on_pc _ c)) λ _. Keeps-pure _)
        (Keeps-bind _ _ (Keeps-modify _ (λ c. stable.on_pc _ c)) λ _. stable.on_uncompress _)

  pub finish_cycle-Keeps : Keeps P (finish_cycle bus)
  unfolding finish_cycle
  finish_cycle-Keeps = Keeps-bind _ _ (Keeps-gets _) λ pc.
      Keeps-bind _ _ (handle_interrupt-Keeps P stable pc) λ _.
        Keeps-bind _ _ (Keeps-modify _ (λ c. stable.on_clock _ c))
          λ _. Keeps-modify _ (λ c. stable.on_csr_raw csr_cycle_address _ (omega arith) c)

  wake-keeps : (c : Cpu M) → P c → P (wake bus c)
  unfolding wake
  wake-keeps c s = either _
    where
      either : (b : Bool) → P (if b then c else record c { wfi = false })
      either true = s
      either false = stable.on_wfi false c s

  -- A cycle keeps `P` if the step of it that executes an instruction does.
  tick_operate-Keeps : Keeps P (step bus) → Keeps P (tick_operate bus)
  unfolding tick_operate
  tick_operate-Keeps h =
      Keeps-bind _ _ (Keeps-gets _) λ waiting. Keeps-if _ _ _ (Keeps-modify _ wake-keeps) h

  ticked :
      (o : Outcome (Cpu M) Trap (Unit {0}))
      → Holds P o
      → Holds {E = Trap} P (elim o [
        | ok a t ↦ (finish_cycle bus >>= λ _. pure done) t
        | err trap t ↦ ok (report bus trap t) t
        | panic ↦ panic
      ])
  ticked (ok a t) h = (Keeps-bind _ _ finish_cycle-Keeps λ _. Keeps-pure _).at t h
  ticked (err e t) h = h
  ticked panic h = tt

  pub tick-Keeps : Keeps P (step bus) → Keeps P (tick bus)
  unfolding tick
  tick-Keeps h = record { at = λ c s. ticked (tick_operate bus c) ((tick_operate-Keeps h).at c s) }

  executed :
      (word address : ℕ) (o : Option (Operation M))
      → ((operation : Operation M)
          → o ≡ some operation
          → Keeps P (λ c. clear_zero bus (operation word address c)))
      → Keeps P (or_illegal bus o >>= λ operation c. clear_zero bus (operation word address c))
  unfolding or_illegal ◌>>=◌
  executed word address none h = record { at = λ c s. s }
  executed word address (some operation) h = record { at = λ c s. (h operation refl).at c s }

  -- The step keeps `P` if each operation that the table gives does, with the clearing of the zero
  -- register after it.
  step_if :
      ((word address : ℕ) (operation : Operation M)
        → found bus (decode_and_get_instruction_index bus word) ≡ some operation
        → Keeps P (λ c. clear_zero bus (operation word address c)))
      → Keeps P (step bus)
  unfolding step decode
  step_if h = Keeps-bind _ _ fetch-Keeps λ original_word. Keeps-bind _ _ (Keeps-gets _) λ address.
      Keeps-bind _ _ (next_word-Keeps original_word)
        λ word. executed word address _ (h word address)

  found_entry :
      ((i v : ℕ) (c : Cpu M) → P c → P (set_x i v c))
      → (i : Option ℕ) {operation : Operation M} → found bus i ≡ some operation
      → (word address : ℕ) → Keeps P (operation word address)
  unfolding found
  found_entry on_x none e word address = cc
  found_entry on_x (some i) e word address = entry-Keeps bus P stable on_x i e word address

  -- The clearing is a write as any other, to a property that every register write keeps.
  cleared :
      ((i v : ℕ) (c : Cpu M) → P c → P (set_x i v c))
      → (o : Outcome (Cpu M) Trap (Unit {0})) → Holds P o
      → Holds P (clear_zero bus o)
  unfolding clear_zero
  cleared on_x (ok a t) h = on_x 0 0 t h
  cleared on_x (err e t) h = on_x 0 0 t h
  cleared on_x panic h = tt

  pub step-Keeps : ((i v : ℕ) (c : Cpu M) → P c → P (set_x i v c)) → Keeps P (step bus)
  step-Keeps on_x = step_if λ word address operation e. record {
    at =
        λ c s. cleared on_x (operation word address c) ((found_entry on_x _ e word address).at c s);
  }

  -- A property that says no more of the registers than that the zero register holds 0 is kept
  -- whatever the operations do to it.
  pub step-Keeps_zero : ((c : Cpu M) → P (set_x 0 0 c)) → Keeps P (step bus)
  unfolding clear_zero
  step-Keeps_zero zeroed =
      step_if λ word address operation e. record { at = λ c s. reset (operation word address c) }
    where
      reset : (o : Outcome (Cpu M) Trap (Unit {0})) → Holds P (clear_zero bus o)
      reset (ok a t) = zeroed t
      reset (err e t) = zeroed t
      reset panic = tt
