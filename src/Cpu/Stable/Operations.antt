-- ===== src/Cpu/Stable/Operations.antt =====
-- The operations of the instruction table (crates/riscv-cpu/src/cpu/instructions.rs).
use yove.Base.{ℕ, ◌+◌, Bool, true, false, Option, some, none, List, [], ◌∷◌, if◌then◌else◌, arith}
use yove.Base.Exec.{Outcome, Exec, ok, err, panic, modify}
use yove.Base.Exec.Keeps.{
  Keeps, Holds, keeps_rules, Keeps-modify, Keeps-bind, Keeps-if, Keeps-gets, Keeps-raise,
  Keeps-unwrap, Keeps-abort,
}
use yove.Trap.{Trap}
use yove.Bus.{Memory, SyscallResult, defer, terminate, continue}
use yove.Mmu.{Mmu}
use yove.Mmu.Access.{load_word, store_word}
use yove.Mmu.Footprint.{load_word-Keeps, store_word-Keeps, clear_reservation-Keeps}
use yove.Cpu.{Cpu, set_x}
use yove.Cpu.Csr.{read_csr, has_csr_access_privilege, illegal_access}
use yove.Cpu.Format.{FormatCsr}
use yove.Cpu.Ops.{on_mmu, immediate, register, shift, branch}
use yove.Cpu.Ops.Branch.{jalr, jal}
use yove.Cpu.Ops.Transfer.{transfer, put}
use yove.Cpu.Ops.Atomic.{read_modify_write, lr_w, sc_w}
use yove.Cpu.Ops.Status.{exchange}
use yove.Cpu.Ops.System.{ecall, call, answer, write_results, mret, sret}
use yove.Cpu.Stable.{IsStable}

module _ {M : Type 0} (bus : Memory M) (P : Cpu M → Type 0) (stable : IsStable P)
    (on_x : (i v : ℕ) (c : Cpu M) → P c → P (set_x i v c)) where
  mapped :
      {A : Type 0} (c : Cpu M) (o : Outcome (Mmu M) Trap A)
      → Holds (λ mmu. P (record c { mmu = mmu })) o
      → Holds {E = Trap} P (elim o [
        | ok a t ↦ ok a (record c { mmu = t })
        | err e t ↦ err e (record c { mmu = t })
        | panic ↦ panic
      ])
  mapped c (ok a t) h = h
  mapped c (err e t) h = h
  mapped c panic h = tt

  -- What the MMU keeps of its own state whatever happens to its memory, the core keeps.
  pub on_mmu-Keeps :
      {A : Type 0} (m : Exec (Mmu M) Trap A)
      → ((c : Cpu M) → Keeps (λ mmu. P (record c { mmu = mmu })) m)
      → Keeps P (on_mmu m)
  unfolding on_mmu
  on_mmu-Keeps m h = record { at = λ c s. mapped c (m c.mmu) ((h c).at c.mmu s) }

  pub memory_only :
      (c : Cpu M) (memory : M) (m : Mmu M)
      → P (record c { mmu = m })
      → P (record c { mmu = record m { memory = memory } })
  memory_only c memory m s = stable.on_memory memory (record c { mmu = m }) s

  pub immediate-Keeps : (op : ℕ → ℕ → ℕ) (word : ℕ) → Keeps P (immediate op word)
  unfolding immediate
  immediate-Keeps op word = Keeps-modify _ (λ c. on_x _ _ c)

  pub register-Keeps : (op : ℕ → ℕ → ℕ) (word : ℕ) → Keeps P (register op word)
  unfolding register
  register-Keeps op word = Keeps-modify _ (λ c. on_x _ _ c)

  pub shift-Keeps : (op : ℕ → ℕ → ℕ) (word : ℕ) → Keeps P (shift op word)
  unfolding shift
  shift-Keeps op word = Keeps-modify _ (λ c. on_x _ _ c)

  either : (b : Bool) (c d : Cpu M) → P c → P d → P (if b then c else d)
  either true c d p q = p
  either false c d p q = q

  pub branch-Keeps : (test : ℕ → ℕ → Bool) (word address : ℕ) → Keeps P (branch test word address)
  unfolding branch
  branch-Keeps test word address = Keeps-modify _ (λ c s. either _ _ c (stable.on_pc _ c s) s)

  set_x-Keeps :
      (f : Cpu M → ℕ) (g : Cpu M → ℕ) → Keeps P (modify {E = Trap} λ c. set_x (f c) (g c) c)
  set_x-Keeps f g = Keeps-modify _ (λ c. on_x (f c) (g c) c)

  pub jalr-Keeps : (word address : ℕ) → Keeps P (jalr word address)
  unfolding jalr
  jalr-Keeps word address = Keeps-bind _ _ (Keeps-gets _) λ tmp.
      Keeps-bind _ _ (Keeps-modify _ (λ c. stable.on_pc _ c)) λ _. Keeps-modify _ (λ c. on_x _ _ c)

  pub jal-Keeps : (word address : ℕ) → Keeps P (jal word address)
  unfolding jal
  jal-Keeps word address =
      Keeps-bind _ _ (Keeps-modify _ (λ c. on_x _ _ c)) λ _. Keeps-modify _ (λ c. stable.on_pc _ c)

  pub load-Keeps-transfer :
      (read : ℕ → Exec (Mmu M) Trap ℕ) (extend : ℕ → ℕ) (word : ℕ)
      → ((c : Cpu M) (a : ℕ) → Keeps (λ mmu. P (record c { mmu = mmu })) (read a))
      → Keeps P (transfer bus read extend word)
  unfolding transfer
  load-Keeps-transfer read extend word h =
      Keeps-bind _ _ (Keeps-gets _)
        λ a. Keeps-bind _ _ (on_mmu-Keeps _ (λ c. h c a)) λ value. Keeps-modify _ (λ c. on_x _ _ c)

  pub store-Keeps-put :
      (write : ℕ → ℕ → Exec (Mmu M) Trap (Unit {0})) (cut : ℕ → ℕ) (word : ℕ)
      → ((c : Cpu M) (a v : ℕ) → Keeps (λ mmu. P (record c { mmu = mmu })) (write a v))
      → Keeps P (put bus write cut word)
  unfolding put
  store-Keeps-put write cut word h =
      Keeps-bind _ _ (Keeps-gets _)
        λ a. Keeps-bind _ _ (Keeps-gets _) λ v. on_mmu-Keeps _ (λ c. h c a v)

  loads : (a : ℕ) → Keeps P (on_mmu (load_word bus a))
  loads a = on_mmu-Keeps _ (λ c. load_word-Keeps bus _ (memory_only c) a)

  stores : (a v : ℕ) → Keeps P (on_mmu (store_word bus a v))
  stores a v = on_mmu-Keeps _ (λ c. store_word-Keeps bus _ (memory_only c) a v)

  pub amo-Keeps : (op : ℕ → ℕ → ℕ) (word : ℕ) → Keeps P (read_modify_write bus op word)
  unfolding read_modify_write
  amo-Keeps op word = search (loads, stores, set_x-Keeps, keeps_rules) depth 16

  pub lr_w-Keeps : (word address : ℕ) → Keeps P (lr_w bus word address)
  unfolding lr_w
  lr_w-Keeps word address = Keeps-bind _ _ (Keeps-gets _) λ a. Keeps-bind _ _ (Keeps-gets _) λ core.
      Keeps-bind _ _ (loads a) λ v.
        Keeps-bind _ _ (Keeps-modify _ (λ c. on_x _ _ c))
          λ _. on_mmu-Keeps _ (λ c. Keeps-modify _ (λ m. memory_only c _ m))

  pub sc_w-Keeps : (word address : ℕ) → Keeps P (sc_w bus word address)
  unfolding sc_w
  sc_w-Keeps word address = Keeps-bind _ _ (Keeps-gets _) λ a. Keeps-bind _ _ (Keeps-gets _) λ core.
      Keeps-bind _ _ (on_mmu-Keeps _ (λ c. clear_reservation-Keeps bus _ (memory_only c) core a))
        λ held. search (stores, set_x-Keeps, keeps_rules) depth 12

  denied : {A : Type 0} → Keeps P (illegal_access {M = M} {A = A})
  unfolding illegal_access
  denied = record { at = λ c s. s }

  allowed-Keeps : (a : ℕ) → Keeps P (has_csr_access_privilege {M = M} a)
  unfolding has_csr_access_privilege
  allowed-Keeps a = search keeps_rules depth 12

  read_csr-Keeps : (a : ℕ) → Keeps P (read_csr {M = M} a)
  unfolding read_csr
  read_csr-Keeps a = Keeps-bind _ _ (allowed-Keeps a) λ b. Keeps-if b _ _ (Keeps-gets _) denied

  pub exchange-Keeps :
      (op : ℕ → ℕ → ℕ) (operand : FormatCsr → Cpu M → ℕ) (word : ℕ)
      → Keeps P (exchange op operand word)
  unfolding exchange
  exchange-Keeps op operand word = Keeps-bind _ _ (read_csr-Keeps _) λ value.
      Keeps-bind _ _ (Keeps-gets _) λ tmp.
        Keeps-bind _ _ (Keeps-modify _ (λ c. on_x _ _ c))
          λ _. Keeps-bind _ _ (Keeps-gets _) λ w. stable.on_csr _ w

  write_results-keeps :
      (i : ℕ) (values : List ℕ) (c : Cpu M) → P c → P (write_results bus i values c)
  unfolding write_results
  write_results-keeps i [] c s = s
  write_results-keeps i (v ∷ rest) c s = write_results-keeps (i + 1) rest _ (on_x i v c s)

  answer-Keeps : (result : SyscallResult) (a : ℕ) → Keeps P (answer bus result a)
  unfolding answer
  answer-Keeps (SyscallResult.ok results) a = Keeps-modify _ (write_results-keeps 10 results)
  answer-Keeps (defer receiver) a = Keeps-raise _
  answer-Keeps (SyscallResult.join_thread handle) a = Keeps-raise _
  answer-Keeps (terminate result) a = Keeps-abort
  answer-Keeps continue a = search keeps_rules depth 12

  call-Keeps : Keeps P (call bus)
  unfolding call
  call-Keeps = record { at = λ c s. called c s (bus.syscall c.mmu.memory _) }
    where
      called :
          (c : Cpu M)
          → P c
          → (o : Option (SyscallResult × M))
          → Holds {E = Trap} P (elim o [
            | none ↦ panic
            | some (result, memory) ↦
                ok result (record c { mmu = record c.mmu { memory = memory } })
          ])
      called c s none = tt
      called c s (some (result, memory)) = stable.on_memory memory c s

  pub ecall-Keeps : (word address : ℕ) → Keeps P (ecall bus word address)
  unfolding ecall
  ecall-Keeps word address = Keeps-bind _ _ call-Keeps λ result. answer-Keeps result address

  pub mret-Keeps : (word address : ℕ) → Keeps P (mret bus word address)
  unfolding mret
  mret-Keeps word address = Keeps-bind _ _ (read_csr-Keeps _) λ epc.
      Keeps-bind _ _ (Keeps-modify _ (λ c. stable.on_pc _ c)) λ _.
        Keeps-bind _ _ (Keeps-gets _) λ status. Keeps-bind _ _ (Keeps-unwrap _) λ mode.
          Keeps-bind _ _ (Keeps-modify _ (λ c. stable.on_csr_raw _ _ (omega arith) c))
            λ _. Keeps-modify _ (λ c. stable.on_mode mode c)

  pub sret-Keeps : (word address : ℕ) → Keeps P (sret bus word address)
  unfolding sret
  sret-Keeps word address = Keeps-bind _ _ (read_csr-Keeps _) λ epc.
      Keeps-bind _ _ (Keeps-modify _ (λ c. stable.on_pc _ c)) λ _.
        Keeps-bind _ _ (Keeps-gets _) λ status. Keeps-bind _ _ (Keeps-unwrap _) λ mode.
          Keeps-bind _ _ (Keeps-modify _ (λ c. stable.on_csr_raw _ _ (omega arith) c))
            λ _. Keeps-modify _ (λ c. stable.on_mode mode c)
