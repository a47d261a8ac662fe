-- ===== src/Xous/Walk/Address.antt =====
-- `translate_address` (crates/riscv-cpu/src/mmu.rs) on the page tables and the cache of translations of
-- src/xous.rs.
use yove.Base.{
  ℕ, ◌/◌, ◌^◌, ◌≡◌, ◌⊎◌, inl, inr, refl, ap, sym, ◌∙◌, true, false, Option, some, none, List,
  if◌then◌else◌, ltb, bit_or, bit_and, ◌>>>◌,
}
use yove.Base.Exec.{Exec, ok, ◌>>=◌}
use yove.Trap.{PrivilegeMode, user, supervisor}
use yove.Mmu.{Mmu, sv32, MemoryAccessType}
use yove.Mmu.Walk.{
  translate_paged, translate_as, translate_sv32, translate_address_with_privilege_mode,
  translate_address,
}
use yove.Mmu.Walk.Reference.{value}
use yove.Xous.{Memory}
use yove.Xous.Ram.{translate}
use yove.Xous.Pages.{virt_to_phys}
use yove.Xous.Pages.Sound.{IsSound}
use yove.Xous.Pages.Ensure.Ready.{boolean}
use yove.Xous.Pages.Translate.{IsCacheRight, translate-virt_to_phys}
use yove.Xous.Services.{Service}
use yove.Xous.Kernel.{Kernel, bus}
use yove.Xous.Walk.{permitted, translate_paged-permitted}

-- What an access reaches. `none` is a panic, in the last page of the address space, which the cache
-- has no place for. A page in the cache is reached whatever its flags; for another the flags decide,
-- and `some none` is the page fault.
abbrev pub reached : Memory → ℕ → MemoryAccessType → Option (Option ℕ)
reached m v t =
    if ltb (v >>> 12) 0xfffff
    then some (elim (m.translation_cache (v >>> 12)) [
      | none ↦ permitted m v t
      | some _ ↦ virt_to_phys m v
    ])
    else none

-- The user and the supervisor mode.
abbrev pub IsPaged : PrivilegeMode → Type 0
IsPaged mode = (mode ≡ user) ⊎ (mode ≡ supervisor)

module _ {S W : Type 0} (services : Service S (Kernel S W))
    (threads : ℕ → ℕ → ℕ → List ℕ → Exec (Kernel S W) ℕ (ℕ × ℕ)) where
  -- The mode makes no difference to the walk.
  walked :
      (v : ℕ) (t : MemoryAccessType) (mmu : Mmu (Kernel S W))
      → mmu.addressing_mode ≡ sv32
      → IsPaged mmu.privilege_mode
      → translate_address_with_privilege_mode (bus services threads) v t mmu.privilege_mode mmu
        ≡ translate_paged (bus services threads) v t mmu
  unfolding translate_address_with_privilege_mode translate_sv32 translate_as ◌>>=◌
  walked v t mmu a (inl e) = rw (e, a) refl
  walked v t mmu a (inr e) = rw (e, a) refl

  last_page :
      (v : ℕ) (t : MemoryAccessType) (mmu : Mmu (Kernel S W))
      → ltb (v >>> 12) 0xfffff ≡ false
      → value (translate_address (bus services threads) v t mmu) ≡ none
  unfolding translate_address translate ◌>>=◌
  last_page v t mmu l = rw (l) refl

  not_cached :
      (v : ℕ) (t : MemoryAccessType) (mmu : Mmu (Kernel S W))
      → ltb (v >>> 12) 0xfffff ≡ true
      → mmu.memory.memory.translation_cache (v >>> 12) ≡ none
      → mmu.addressing_mode ≡ sv32
      → translate_address (bus services threads) v t mmu
        ≡ translate_address_with_privilege_mode (bus services threads) v t mmu.privilege_mode mmu
  unfolding translate_address translate ◌>>=◌
  not_cached v t mmu l c a = rw (l, c, a) refl

  cached :
      (v q : ℕ) (t : MemoryAccessType) (mmu : Mmu (Kernel S W))
      → ltb (v >>> 12) 0xfffff ≡ true
      → mmu.memory.memory.translation_cache (v >>> 12) ≡ some q
      → translate_address (bus services threads) v t mmu ≡ ok (bit_or q (bit_and v 0xfff)) mmu
  unfolding translate_address translate ◌>>=◌
  cached v q t mmu l c = rw (l, c) refl

  cached_address :
      (m : Memory) (v q : ℕ)
      → IsSound m
      → IsCacheRight m
      → ltb (v >>> 12) 0xfffff ≡ true
      → m.translation_cache (v >>> 12) ≡ some q
      → virt_to_phys m v ≡ some (bit_or q (bit_and v 0xfff))
  unfolding translate
  cached_address m v q s r l c =
      translate-virt_to_phys m v (bit_or q (bit_and v 0xfff)) s r (rw (l, c) refl)

  by_cache :
      (v : ℕ) (t : MemoryAccessType) (mmu : Mmu (Kernel S W)) (o : Option ℕ)
      → mmu.addressing_mode ≡ sv32
      → IsPaged mmu.privilege_mode
      → mmu.ppn ≡ mmu.memory.memory.l1_pt / 2 ^ 12
      → IsSound mmu.memory.memory
      → IsCacheRight mmu.memory.memory
      → ltb (v >>> 12) 0xfffff ≡ true
      → mmu.memory.memory.translation_cache (v >>> 12) ≡ o
      → value (translate_address (bus services threads) v t mmu)
        ≡ some (elim o [
          | none ↦ permitted mmu.memory.memory v t
          | some _ ↦ virt_to_phys mmu.memory.memory v
        ])
  by_cache v t mmu none a g p s r l c =
      ap value (not_cached v t mmu l c a ∙ walked v t mmu a g)
      ∙ translate_paged-permitted services threads v t mmu a p s
  by_cache v t mmu (some q) a g p s r l c =
      ap value (cached v q t mmu l c) ∙ ap some (sym (cached_address mmu.memory.memory v q s r l c))

  -- In user and supervisor mode with SV32, with the root table of the memory in satp, on a sound
  -- state whose cache of translations agrees with the page tables: below the last page of the
  -- address space `translate_address` returns. For a page in the cache it gives the address that
  -- `virt_to_phys` gives, whatever the flags of the page; for another it gives that address where the
  -- entry of the page is a leaf that allows the access, and else the page fault. In the last page it
  -- panics.
  pub translate_address-reached :
      (v : ℕ) (t : MemoryAccessType) (mmu : Mmu (Kernel S W))
      → mmu.addressing_mode ≡ sv32
      → IsPaged mmu.privilege_mode
      → mmu.ppn ≡ mmu.memory.memory.l1_pt / 2 ^ 12
      → IsSound mmu.memory.memory
      → IsCacheRight mmu.memory.memory
      → value (translate_address (bus services threads) v t mmu) ≡ reached mmu.memory.memory v t
  translate_address-reached v t mmu a g p s r = elim (boolean (ltb (v >>> 12) 0xfffff)) [
    | inl l ↦
        by_cache v t mmu (mmu.memory.memory.translation_cache (v >>> 12)) a g p s r l refl
        ∙ rw (l) refl
    | inr l ↦ last_page v t mmu l ∙ rw (l) refl
  ]
