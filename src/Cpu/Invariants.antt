-- ===== src/Cpu/Invariants.antt =====
-- What a cycle of a core keeps (crates/riscv-cpu/src/cpu.rs, `Cpu::tick`).
use yove.Base.{
  ℕ, Option, some, none, ◌≡◌, refl, ap, ap₂, fun_ext, update, bit_and, bit_and_mask, ◌<◌, ◌^◌,
  arith,
}
use yove.Base.Exec.{ok, ◌>>=◌}
use yove.Base.Exec.Keeps.{Keeps, Holds}
use yove.Bus.{Memory}
use yove.Cpu.{Cpu, set_x}
use yove.Cpu.Csr.{
  write_csr_raw, write_csr, read_csr_raw, sync_mstatus, update_addressing_mode,
  has_csr_access_privilege, illegal_access,
}
use yove.Cpu.Uncompress.{remember, recall, uncompress, uncompress_inner}
use yove.Cpu.Sync.{InSync, write_csr_raw-InSync, write_csr-InSync}
use yove.Cpu.Tick.{tick}
use yove.Cpu.Stable.{IsStable}
use yove.Cpu.Stable.Cycle.{tick-Keeps, step-Keeps, step-Keeps_zero}

-- What the cache of expanded instructions holds is what the expansion gives.
abbrev pub IsTrue : (ℕ → Option ℕ) → Type 0
IsTrue cache = (halfword v : ℕ) → cache halfword ≡ some v → v ≡ uncompress_inner halfword

update-IsTrue :
    (halfword : ℕ) (cache : ℕ → Option ℕ)
    → IsTrue cache
    → IsTrue (update cache halfword (some (uncompress_inner halfword)))
update-IsTrue halfword cache h i v e = grind arith

module _ {M : Type 0} (P : Cpu M → Type 0)
    (on_cache : (halfword : ℕ) (c : Cpu M)
      → halfword < 2 ^ 16
      → P c
      → P (remember halfword (uncompress_inner halfword) c)) where
  recall-Keeps :
      (o : Option ℕ) (inst halfword : ℕ)
      → inst ≡ halfword
      → halfword < 2 ^ 16
      → Keeps P (recall o inst halfword)
  unfolding recall
  recall-Keeps none inst halfword e h = record { at = λ c s. rw e (on_cache halfword c h s) }
  recall-Keeps (some v) inst halfword e h = record { at = λ c s. s }

  uncompress-Keeps : (word : ℕ) → Keeps P (uncompress (bit_and word 0xffff))
  unfolding uncompress
  uncompress-Keeps word = record {
    at = λ c s.
        (recall-Keeps (c.c_cache (bit_and (bit_and word 0xffff) 0xffff)) _ _ masked low).at c s;
  }
    where
      low : bit_and word 0xffff < 2 ^ 16
      low = omega (arith, bit_and_mask 16 word)

      masked : bit_and (bit_and word 0xffff) 0xffff ≡ bit_and word 0xffff
      masked = omega (arith, bit_and_mask 16 word, bit_and_mask 16 (bit_and word 0xffff))

module _ {M : Type 0} where
  InSync-IsStable : IsStable (InSync {M = M})
  unfolding remember
  InSync-IsStable = record {
    on_pc = λ v c s. record {
      mode = s.mode;
      mstatus = s.mstatus;
      addressing = s.addressing;
      ppn = s.ppn;
    };
    on_wfi = λ v c s. record {
      mode = s.mode;
      mstatus = s.mstatus;
      addressing = s.addressing;
      ppn = s.ppn;
    };
    on_clock = λ v c s. record {
      mode = s.mode;
      mstatus = s.mstatus;
      addressing = s.addressing;
      ppn = s.ppn;
    };
    on_memory = λ v c s. record {
      mode = s.mode;
      mstatus = s.mstatus;
      addressing = s.addressing;
      ppn = s.ppn;
    };
    on_mode = λ v c s. record {
      mode = refl;
      mstatus = s.mstatus;
      addressing = s.addressing;
      ppn = s.ppn;
    };
    on_csr_raw = write_csr_raw-InSync;
    on_csr = write_csr-InSync;
    on_uncompress = uncompress-Keeps InSync (λ h c l s. record {
      mode = s.mode;
      mstatus = s.mstatus;
      addressing = s.addressing;
      ppn = s.ppn;
    });
  }

  on_x-InSync : (i v : ℕ) (c : Cpu M) → InSync c → InSync (set_x i v c)
  on_x-InSync i v c s = record {
    mode = s.mode;
    mstatus = s.mstatus;
    addressing = s.addressing;
    ppn = s.ppn;
  }

  -- If the MMU's copies of the privilege mode, MSTATUS and SATP are equal to the core's own, then
  -- they are after a cycle of the core, whatever it executes and whether the instruction succeeds
  -- or traps, unless the cycle panics.
  pub tick-InSync : (bus : Memory M) (c : Cpu M) → InSync c → Holds InSync (tick bus c)
  tick-InSync bus c s =
      (tick-Keeps bus InSync InSync-IsStable (step-Keeps bus InSync InSync-IsStable on_x-InSync)).at
        c s

module _ {M : Type 0} (Q : (ℕ → ℕ) → (ℕ → Option ℕ) → Type 0) where
  -- A property of the registers and of the cache of expanded instructions alone.
  abbrev Core : Cpu M → Type 0
  Core c = Q c.x c.c_cache

  write_csr_raw-Core : (a v : ℕ) (c : Cpu M) → Core c → Core (write_csr_raw a v c)
  unfolding write_csr_raw sync_mstatus
  write_csr_raw-Core a v c s = ground arith

  write_csr-Core : (a v : ℕ) → Keeps Core (write_csr a v)
  unfolding write_csr has_csr_access_privilege illegal_access write_csr_raw sync_mstatus
      read_csr_raw update_addressing_mode ◌>>=◌
  write_csr-Core a v = record { at = λ c s. ground arith }

  Core-IsStable :
      ((halfword : ℕ) (x : ℕ → ℕ) (cache : ℕ → Option ℕ)
        → halfword < 2 ^ 16
        → Q x cache
        → Q x (update cache halfword (some (uncompress_inner halfword))))
      → IsStable Core
  unfolding remember
  Core-IsStable on_cache = record {
    on_pc = λ v c s. s;
    on_wfi = λ v c s. s;
    on_clock = λ v c s. s;
    on_memory = λ v c s. s;
    on_mode = λ v c s. s;
    on_csr_raw = λ a v h c s. write_csr_raw-Core a v c s;
    on_csr = write_csr-Core;
    on_uncompress = uncompress-Keeps Core (λ halfword c l s. on_cache halfword c.x c.c_cache l s);
  }

module _ {M : Type 0} where
  abbrev pub IsZeroed : Cpu M → Type 0
  IsZeroed c = c.x 0 ≡ 0

  -- If register 0 holds 0, then it does after a cycle of the core, whatever it executes and
  -- whether the instruction succeeds or traps, unless the cycle panics.
  pub tick-IsZeroed : (bus : Memory M) (c : Cpu M) → IsZeroed c → Holds IsZeroed (tick bus c)
  tick-IsZeroed bus c s =
      let stable = Core-IsStable (λ x cache. x 0 ≡ 0) (λ halfword x cache l s. s) in
      (tick-Keeps bus IsZeroed stable (step-Keeps_zero bus IsZeroed stable (λ c. refl))).at c s

  -- If the cache of expanded instructions is true, then it is after a cycle of the core, whatever
  -- it executes, unless the cycle panics.
  pub tick-IsTrue :
      (bus : Memory M) (c : Cpu M) → IsTrue c.c_cache → Holds (λ c. IsTrue c.c_cache) (tick bus c)
  tick-IsTrue bus c s =
      let stable =
        Core-IsStable (λ x cache. IsTrue cache)
          (λ halfword x cache l s. update-IsTrue halfword cache s) in
      (tick-Keeps bus (λ c. IsTrue c.c_cache) stable
          (step-Keeps bus (λ c. IsTrue c.c_cache) stable (λ i v c s. s))).at
        c s

  recall_true :
      (o : Option ℕ) (halfword : ℕ) (c : Cpu M)
      → ((v : ℕ) → o ≡ some v → v ≡ uncompress_inner halfword)
      → c.c_cache halfword ≡ o
      → recall o halfword halfword c
        ≡ ok (uncompress_inner halfword) (remember halfword (uncompress_inner halfword) c)
  unfolding recall remember
  recall_true none halfword c h e = refl
  recall_true (some v) halfword c h e =
      ap₂ ok (h v refl) (ap (λ cache. record c { c_cache = cache }) (fun_ext λ i. same i))
    where
      same : (i : ℕ) → c.c_cache i ≡ update c.c_cache halfword (some (uncompress_inner halfword)) i
      same i = grind (arith, h v refl)

  -- With a true cache, the cached expansion of a halfword of 16 bits returns what the expansion
  -- without a cache does, and leaves that in the cache, whether it was there before or not.
  pub uncompress-uncompress_inner :
      (halfword : ℕ) (c : Cpu M)
      → halfword < 2 ^ 16
      → IsTrue c.c_cache
      → uncompress halfword c
        ≡ ok (uncompress_inner halfword) (remember halfword (uncompress_inner halfword) c)
  unfolding uncompress
  uncompress-uncompress_inner halfword c l h =
      rw (masked) (recall_true (c.c_cache halfword) halfword c (h halfword) refl)
    where
      masked : bit_and halfword 0xffff ≡ halfword
      masked = omega (arith, bit_and_mask 16 halfword)
