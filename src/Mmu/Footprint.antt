-- ===== src/Mmu/Footprint.antt =====
-- What the MMU's fetches, loads and stores can change is the memory behind it, and no field of the
-- MMU itself (crates/riscv-cpu/src/mmu.rs).
use yove.Base.{ℕ, zero, suc, ◌+◌, some, none, List}
use yove.Base.Exec.{Outcome, Exec, ok, err, panic, modify}
use yove.Base.Exec.Keeps.{
  Keeps, Holds, keeps_rules, Keeps-modify, Keeps-bind, Keeps-if, Keeps-unwrap, Keeps-gets,
  Keeps-pure, Keeps-raise, Keeps-assert, Keeps-abort,
}
use yove.Trap.{PrivilegeMode, user, supervisor, reserved, machine, TrapType, Trap}
use yove.Bus.{Memory}
use yove.Mmu.{MemoryAccessType, Mmu, clear_reservation}
use yove.Mmu.Walk.{
  leaf_address, leaf, traverse_level, traverse_page, translate_paged, translate_as,
  translate_machine, translate_sv32, translate_address_with_privilege_mode, translate_address,
}
use yove.Mmu.Access.{
  translate_or_fault, fetch, load, store, gather, scatter, fetch_word, load_width, load_bytes,
  load_halfword, load_word, store_width, store_bytes, store_halfword, store_word,
}

module _ {M : Type 0} (bus : Memory M) (Q : Mmu M → Type 0)
    (memory_only : (memory : M) (m : Mmu M) → Q m → Q (record m { memory = memory })) where
  Keeps-write :
      {E : Type 0} (f : Mmu M → M) → Keeps Q (modify {E = E} (λ m. record m { memory = f m }))
  Keeps-write f = Keeps-modify _ (λ m. memory_only (f m) m)

  leaf_address-Keeps :
      (level v : ℕ) (vpns : List ℕ) (pte : ℕ) → Keeps Q (leaf_address bus level v vpns pte)
  unfolding leaf_address
  leaf_address-Keeps zero v vpns pte = Keeps-pure _
  leaf_address-Keeps (suc zero) v vpns pte = Keeps-if _ _ _ (Keeps-pure _) (Keeps-raise _)
  leaf_address-Keeps (suc (suc level)) v vpns pte = Keeps-abort

  leaf-Keeps :
      (level v : ℕ) (vpns : List ℕ) (t : MemoryAccessType) (address pte : ℕ)
      → Keeps Q (leaf bus level v vpns t address pte)
  unfolding leaf
  leaf-Keeps level v vpns t address pte =
      Keeps-bind _ _ (Keeps-if _ _ _ (Keeps-write _) (Keeps-pure _))
        λ _. Keeps-if _ _ _ (Keeps-raise _) (leaf_address-Keeps level v vpns pte)

  traverse_level-Keeps :
      (level : ℕ) (below : ℕ → Exec (Mmu M) (Unit {0}) ℕ) (v parent : ℕ) (vpns : List ℕ)
      (t : MemoryAccessType)
      → ((ppn : ℕ) → Keeps Q (below ppn))
      → Keeps Q (traverse_level bus level below v parent vpns t)
  unfolding traverse_level
  traverse_level-Keeps level below v parent vpns t h = Keeps-bind _ _ (Keeps-gets _) λ mode.
      Keeps-bind _ _ (Keeps-assert _) λ _. Keeps-bind _ _ (Keeps-gets _) λ pte.
        Keeps-if _ _ _ (Keeps-raise _) (Keeps-if _ _ _ (h _) (leaf-Keeps level v vpns t _ pte))

  traverse_page-Keeps :
      (level v parent : ℕ) (vpns : List ℕ) (t : MemoryAccessType)
      → Keeps Q (traverse_page bus level v parent vpns t)
  unfolding traverse_page
  traverse_page-Keeps zero v parent vpns t =
      traverse_level-Keeps zero _ v parent vpns t (λ ppn. Keeps-raise _)
  traverse_page-Keeps (suc level) v parent vpns t =
      traverse_level-Keeps (suc level) _ v parent vpns t
        (λ ppn. traverse_page-Keeps level v ppn vpns t)

  translate_paged-Keeps : (v : ℕ) (t : MemoryAccessType) → Keeps Q (translate_paged bus v t)
  unfolding translate_paged
  translate_paged-Keeps v t = Keeps-bind _ _ (Keeps-gets _) λ ppn. traverse_page-Keeps 1 v ppn _ t

  translate_as-Keeps :
      (mode : PrivilegeMode) (v : ℕ) (t : MemoryAccessType) → Keeps Q (translate_as bus mode v t)
  unfolding translate_as
  translate_as-Keeps user v t = translate_paged-Keeps v t
  translate_as-Keeps supervisor v t = translate_paged-Keeps v t
  translate_as-Keeps reserved v t = Keeps-pure v
  translate_as-Keeps machine v t = Keeps-pure v

  translate_sv32-Keeps :
      (mode : PrivilegeMode) (v : ℕ) (t : MemoryAccessType) → Keeps Q (translate_sv32 bus mode v t)
  unfolding translate_sv32 translate_machine
  translate_sv32-Keeps machine v t = Keeps-bind _ _ (Keeps-gets _) λ mstatus.
      Keeps-if _ _ _ (Keeps-pure v)
        (Keeps-bind _ _ (Keeps-unwrap _) λ mode. translate_as-Keeps mode v t)
  translate_sv32-Keeps mode v t = translate_as-Keeps mode v t

  walk-Keeps :
      (v : ℕ) (t : MemoryAccessType) (mode : PrivilegeMode)
      → Keeps Q (translate_address_with_privilege_mode bus v t mode)
  unfolding translate_address_with_privilege_mode
  walk-Keeps v t mode =
      Keeps-bind _ _ (Keeps-gets _)
        λ _. Keeps-if _ _ _ (translate_sv32-Keeps mode v t) (Keeps-pure v)

  translate_address-Keeps : (v : ℕ) (t : MemoryAccessType) → Keeps Q (translate_address bus v t)
  unfolding translate_address
  translate_address-Keeps v t = Keeps-bind _ _ (Keeps-gets _) λ cached.
      Keeps-bind _ _ (Keeps-unwrap cached) (elim [
        | some address ↦ Keeps-pure address
        | none ↦ search (walk-Keeps, keeps_rules) depth 12
      ])

  translate_or_fault-Keeps :
      (fault : TrapType) (t : MemoryAccessType) (v : ℕ) → Keeps Q (translate_or_fault bus fault t v)
  unfolding translate_or_fault
  translate_or_fault-Keeps fault t v = record {
    at = λ m h. faulted (translate_address bus v t m) ((translate_address-Keeps v t).at m h);
  }
    where
      faulted :
          (o : Outcome (Mmu M) (Unit {0}) ℕ)
          → Holds Q o
          → Holds {E = Trap} Q (elim o [
            | ok p_address t ↦ ok p_address t
            | err _ t ↦ err (record { trap_type = fault; value = v }) t
            | panic ↦ panic
          ])
      faulted (ok a t) h = h
      faulted (err e t) h = h
      faulted panic h = tt

  pub load-Keeps : (v : ℕ) → Keeps Q (load bus v)
  unfolding load
  load-Keeps v = search (translate_or_fault-Keeps, keeps_rules) depth 8

  fetch-Keeps : (v : ℕ) → Keeps Q (fetch bus v)
  unfolding fetch
  fetch-Keeps v = search (translate_or_fault-Keeps, keeps_rules) depth 8

  pub store-Keeps : (v value : ℕ) → Keeps Q (store bus v value)
  unfolding store
  store-Keeps v value = search (translate_or_fault-Keeps, Keeps-write, keeps_rules) depth 8

  gather-Keeps :
      (byte_at : ℕ → Exec (Mmu M) Trap ℕ)
      → ((v : ℕ) → Keeps Q (byte_at v))
      → (left i v word : ℕ) → Keeps Q (gather bus byte_at left i v word)
  unfolding gather
  gather-Keeps byte_at h zero i v word = Keeps-pure word
  gather-Keeps byte_at h (suc left) i v word =
      Keeps-bind _ _ (h _) λ byte. gather-Keeps byte_at h left (i + 1) v _

  scatter-Keeps : (left i v value : ℕ) → Keeps Q (scatter bus left i v value)
  unfolding scatter
  scatter-Keeps zero i v value = Keeps-pure tt
  scatter-Keeps (suc left) i v value =
      Keeps-bind _ _ (store-Keeps _ _) λ _. scatter-Keeps left (i + 1) v value

  load_width-Keeps : (width p : ℕ) → Keeps Q (load_width bus width p)
  unfolding load_width
  load_width-Keeps width p = search keeps_rules depth 12

  store_width-Keeps : (width p value : ℕ) → Keeps Q (store_width bus width p value)
  unfolding store_width
  store_width-Keeps width p value = search (Keeps-write, keeps_rules) depth 12

  load_bytes-Keeps : (v width : ℕ) → Keeps Q (load_bytes bus v width)
  unfolding load_bytes
  load_bytes-Keeps v width =
      search (translate_or_fault-Keeps, load_width-Keeps, load-Keeps, gather-Keeps, keeps_rules)
        depth 12

  pub load_word-Keeps : (v : ℕ) → Keeps Q (load_word bus v)
  unfolding load_word
  load_word-Keeps v = load_bytes-Keeps v 4

  pub load_halfword-Keeps : (v : ℕ) → Keeps Q (load_halfword bus v)
  unfolding load_halfword
  load_halfword-Keeps v = search (load_bytes-Keeps, keeps_rules) depth 8

  pub fetch_word-Keeps : (v : ℕ) → Keeps Q (fetch_word bus v)
  unfolding fetch_word
  fetch_word-Keeps v =
      search (translate_or_fault-Keeps, fetch-Keeps, gather-Keeps, keeps_rules) depth 12

  store_bytes-Keeps : (v value width : ℕ) → Keeps Q (store_bytes bus v value width)
  unfolding store_bytes
  store_bytes-Keeps v value width =
      search (translate_or_fault-Keeps, store_width-Keeps, scatter-Keeps, keeps_rules) depth 12

  pub store_word-Keeps : (v value : ℕ) → Keeps Q (store_word bus v value)
  unfolding store_word
  store_word-Keeps v value = store_bytes-Keeps v value 4

  pub store_halfword-Keeps : (v value : ℕ) → Keeps Q (store_halfword bus v value)
  unfolding store_halfword
  store_halfword-Keeps v value = store_bytes-Keeps v value 2

  pub clear_reservation-Keeps :
      {E : Type 0} (core p : ℕ) → Keeps Q (clear_reservation bus {E = E} core p)
  unfolding clear_reservation
  clear_reservation-Keeps core p = record { at = λ m h. memory_only _ m h }
