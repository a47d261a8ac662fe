-- ===== src/Xous/Thread/Paging.antt =====
-- A thread that starts (src/xous.rs, Machine::run) on the page tables of the memory.
use yove.Base.{
  ℕ, ◌+◌, ◌*◌, ◌/◌, ◌^◌, ◌<◌, ◌≡◌, inl, sym, ap, ◌∙◌, subst, List, if◌then◌else◌, ◌==◌, bit_and,
  bit_and_mask, bit_and_shifted, wrapping_add, wrapping_sub, arith,
}
use yove.Base.Exec.{Exec}
use yove.Base.Exec.Returns.{Returns, Returns-map}
use yove.Mmu.{AddressingMode, sv32, MemoryAccessType}
use yove.Mmu.Walk.{translate_address}
use yove.Mmu.Walk.Reference.{value}
use yove.Cpu.{Cpu, build}
use yove.Xous.Pages.Sound.{IsSound}
use yove.Xous.Pages.Translate.{IsCacheRight}
use yove.Xous.Services.{Service}
use yove.Xous.Kernel.{Kernel, bus}
use yove.Xous.Walk.Address.{reached, translate_address-reached}
use yove.Xous.Thread.{start_thread}
use yove.Xous.Thread.Start.{Started, start_thread-Started}

-- The value of satp that turns paging on, with a root table.
abbrev pub satp_of : ℕ → ℕ
satp_of l1_pt = 0x80000000 + l1_pt / 2 ^ 12

is_on :
    (p : ℕ)
    → p < 2 ^ 32
    → (if bit_and (satp_of p) 0x80000000 == 0 then AddressingMode.none else sv32) ≡ sv32
is_on p h =
    let u : bit_and (satp_of p) (1 * 2 ^ 31) ≡ bit_and (satp_of p / 2 ^ 31) 1 * 2 ^ 31 =
      bit_and_shifted 31 1 (satp_of p) in
    let v = bit_and_mask 1 (satp_of p / 2 ^ 31) in ground (arith, u, v)

is_root : (p : ℕ) → p < 2 ^ 32 → bit_and (satp_of p) 0x3fffff ≡ p / 2 ^ 12
is_root p h = omega (arith, bit_and_mask 22 (satp_of p))

module _ {S W : Type 0} (services : Service S (Kernel S W))
    (threads : ℕ → ℕ → ℕ → List ℕ → Exec (Kernel S W) ℕ (ℕ × ℕ)) where
  started :
      (k : Kernel S W) (entry stack a1 a2 a3 a4 v : ℕ) (access : MemoryAccessType)
      (t : Cpu (Kernel S W))
      → IsSound k.memory
      → IsCacheRight k.memory
      → Started (bus services threads) (satp_of k.memory.l1_pt) entry stack a1 a2 a3 a4 k t
      → value (translate_address (bus services threads) v access t.mmu) ≡ reached k.memory v access
  started k entry stack a1 a2 a3 a4 v access t s c b =
      let i = s.allocated k.memory.l1_pt s.root_table in
      let h : k.memory.l1_pt < 2 ^ 32 = omega (arith, i.high, s.ram.fits) in
      translate_address-reached services threads v access t.mmu (b.paging ∙ is_on k.memory.l1_pt h)
        (inl b.mmu_mode)
        (b.ppn
          ∙ is_root k.memory.l1_pt h
          ∙ ap (λ (x : Kernel S W). x.memory.l1_pt / 2 ^ 12) (sym b.same_memory))
        (subst (λ (x : Kernel S W). IsSound x.memory) (sym b.same_memory) s)
        (subst (λ (x : Kernel S W). IsCacheRight x.memory) (sym b.same_memory) c)
      ∙ ap (λ (x : Kernel S W). reached x.memory v access) b.same_memory

  -- A thread that is started on a sound memory whose cache of translations agrees with the page
  -- tables, with paging on and the memory's root table in satp, starts without a trap or a panic.
  -- Below the last page of the address space, `translate_address` then gives, in user mode and for
  -- every kind of access, the address that the memory's own `virt_to_phys` gives, where the page is
  -- in the cache or its flags allow the access, and else the page fault. In the last page it panics.
  pub start_thread-reached :
      (k : Kernel S W) (tid entry sp length a1 a2 a3 a4 v : ℕ) (access : MemoryAccessType)
      → IsSound k.memory
      → IsCacheRight k.memory
      → Returns
          (start_thread
            (bus services threads)
            tid
            (satp_of k.memory.l1_pt)
            entry
            sp
            length
            a1
            a2
            a3
            a4
            (build k 0 0))
          (λ _ t.
            value (translate_address (bus services threads) v access t.mmu)
            ≡ reached k.memory v access)
  start_thread-reached k tid entry sp length a1 a2 a3 a4 v access s c =
      let stack = wrapping_sub (wrapping_add sp length) 16 in
      Returns-map
        (λ _ t. Started (bus services threads) (satp_of k.memory.l1_pt) entry stack a1 a2 a3 a4 k t)
        (λ _ t.
          value (translate_address (bus services threads) v access t.mmu)
          ≡ reached k.memory v access)
        (start_thread (bus services threads) tid (satp_of k.memory.l1_pt) entry sp length a1 a2 a3
          a4 (build k 0 0))
        (start_thread-Started (bus services threads) tid (satp_of k.memory.l1_pt) entry sp length a1
          a2 a3 a4 k)
        (λ _ t b. started k entry stack a1 a2 a3 a4 v access t s c b)
