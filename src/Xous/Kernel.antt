-- ===== src/Xous/Kernel.antt =====
-- The connections of the program to services (src/xous/syscalls.rs), and `Memory::syscall` as a whole
-- (src/xous.rs). The services, and the threads that other cores run, are parameters.
pub mod Connections
use yove.Base.{
  ℕ, ◌+◌, ◌/◌, Bool, true, false, not, ◌||◌, Option, some, none, List, [], ◌∷◌, if◌then◌else◌, ◌==◌,
  update, wrapping_add,
}
use yove.Base.Exec.{
  Outcome, Exec, ok, err, panic, pure, raise, abort, gets, modify, unwrap, assert, ◌>>=◌, ◌>>◌,
}
use yove.Bus
use yove.Bus.{SyscallResult}
use yove.Xous.Ram
use yove.Xous.{Memory}
use yove.Xous.Results
use yove.Xous.Definitions.{
  Syscall, syscall_of, unknown_call, yield_call, increase_heap_call, map_memory_call, connect_call,
  try_connect_call, send_message_call, try_send_message_call, update_memory_flags_call,
  create_thread_call, join_thread_call, unmap_memory_call, terminate_process_call,
  get_process_id_call,
}
use yove.Xous.Services.{
  Service, ServiceName, ScalarResult, scalar1, scalar2, scalar5, wait_for_scalar, LendResult,
  memory_returned, wait_for_memory, get_service, same_words,
}
use yove.Xous.Syscalls.{
  answer, failure, done, map_memory, increase_heap, signed_count, stepped, remove_flags, unmap,
  join_thread, read_region, write_region,
}

-- The memory, its connections to services, and the state of the services and of the threads.
pub record Kernel (S W : Type 0) : Type 0 where
  pub memory : Memory
  pub connections : ℕ → Option S
  pub connection_index : ℕ
  pub named_connections_index : List (List ℕ × ℕ)
  pub world : W

-- The connection of a name.
abbrev pub connection_of : List ℕ → List (List ℕ × ℕ) → Option ℕ
connection_of id [] = none
connection_of id ((other, connection) ∷ rest) =
    if same_words id other then some connection else connection_of id rest

module _ {S W : Type 0} where
  -- A method of the memory.
  unfoldable pub on_memory : {A : Type 0} → Exec Memory ⊥ A → Exec (Kernel S W) ℕ A
  on_memory f k = elim (f k.memory) [
    | ok a m ↦ ok a (record k { memory = m })
    | err e m ↦ panic
    | panic ↦ panic
  ]

module _ {S W : Type 0} (services : Service S (Kernel S W)) where
  unfoldable pub connect : List ℕ → Exec (Kernel S W) ℕ SyscallResult
  connect id = do
    existing ← gets λ k. connection_of id k.named_connections_index
    elim existing [
      | some connection ↦ pure (answer Results.connection_id connection 0)
      | none ↦ do
        name ← unwrap (get_service id)
        service ← services.create name
        connection ← gets λ k. k.connection_index
        modify λ k. record k { connection_index = wrapping_add connection 1 }
        modify λ k. record k { connections = update k.connections connection (some service) }
        modify
            λ k. record k { named_connections_index = (id, connection) ∷ k.named_connections_index }
        pure (answer Results.connection_id connection 0)
    ]

  abbrev pub try_connect : List ℕ → Exec (Kernel S W) ℕ SyscallResult
  try_connect id = connect id

  abbrev pub scalar_answer : ScalarResult → SyscallResult
  scalar_answer (scalar1 a) = answer Results.scalar1 a 0
  scalar_answer (scalar2 a b) = answer Results.scalar2 a b
  scalar_answer (scalar5 a b c d e) =
      SyscallResult.ok (Results.result_number Results.scalar5 ∷ a ∷ b ∷ c ∷ d ∷ e ∷ 0 ∷ 0 ∷ [])
  scalar_answer (wait_for_scalar token) = SyscallResult.defer token

  abbrev pub lend_answer : LendResult → SyscallResult
  lend_answer (memory_returned a b) = answer Results.memory_returned a b
  lend_answer (wait_for_memory token) = SyscallResult.defer token

  -- `service.lend_mut`, whose buffer goes back to the program when the memory is returned.
  unfoldable pub lend_mut : S → ℕ → ℕ → List ℕ → List ℕ → Exec (Kernel S W) ℕ SyscallResult
  lend_mut service opcode address region extra = do
    lent ← services.lend_mut service opcode region extra
    elim (lent.0) [
      | wait_for_memory token ↦ pure (SyscallResult.defer token)
      | memory_returned a b ↦ do
        on_memory (write_region address (lent.1))
        pure (answer Results.memory_returned a b)
    ]

  -- What the kind of a message asks of its service; the region was read before.
  unfoldable pub deliver : S → ℕ → ℕ → ℕ → ℕ → ℕ → ℕ → List ℕ → Exec (Kernel S W) ℕ SyscallResult
  deliver service kind opcode a b c d region =
      if kind == 1
      then lend_mut service opcode a region (c ∷ d ∷ [])
      else if kind == 2
      then (do lent ← services.lend service opcode region (c ∷ d ∷ []); pure (lend_answer lent))
      else if kind == 3
      then (do services.send service opcode region (c ∷ d ∷ []); pure done)
      else if kind == 4
      then (do services.scalar service opcode (a ∷ b ∷ c ∷ d ∷ []); pure done)
      else if kind == 5
      then (do
        result ← services.blocking_scalar service opcode (a ∷ b ∷ c ∷ d ∷ [])
        pure (scalar_answer result))
      else abort

  abbrev pub lends : ℕ → Bool
  lends kind = kind == 1 || kind == 2 || kind == 3

  -- `args` has four words; other lists stand for no array.
  unfoldable pub send_message : ℕ → ℕ → ℕ → List ℕ → Exec (Kernel S W) ℕ SyscallResult
  send_message connection kind opcode (a ∷ b ∷ c ∷ d ∷ []) = do
    region ← on_memory (if lends kind then read_region (stepped a 1 b) else pure [])
    service ← gets λ k. k.connections connection
    elim service [
      | none ↦ pure (failure Results.server_not_found)
      | some s ↦ deliver s kind opcode a b c d region
    ]
  send_message connection kind opcode other = abort

  abbrev pub try_send_message : ℕ → ℕ → ℕ → List ℕ → Exec (Kernel S W) ℕ SyscallResult
  try_send_message connection kind opcode args = send_message connection kind opcode args

  -- `threads entry stack length arguments` starts a thread on another core and gives its id and handle.
  module _ (threads : ℕ → ℕ → ℕ → List ℕ → Exec (Kernel S W) ℕ (ℕ × ℕ)) where
    unfoldable pub create_thread : ℕ → ℕ → ℕ → List ℕ → Exec (Kernel S W) ℕ SyscallResult
    create_thread entry_point stack_pointer stack_length arguments = do
      started ← threads entry_point stack_pointer stack_length arguments
      on_memory (
          modify λ m. record m {
            thread_handles = update m.thread_handles (started.0) (some (started.1));
          })
      pure (answer Results.thread_id (started.0) 0)

    unfoldable pub run_syscall : Syscall → Exec (Kernel S W) ℕ SyscallResult
    run_syscall (increase_heap_call bytes flags) = on_memory (increase_heap bytes flags)
    run_syscall (map_memory_call phys virt size flags) = on_memory (map_memory phys virt size flags)
    run_syscall (connect_call id) = connect id
    run_syscall (try_connect_call id) = try_connect id
    run_syscall (send_message_call connection kind opcode args) =
        send_message connection kind opcode args
    run_syscall (try_send_message_call connection kind opcode args) =
        try_send_message connection kind opcode args
    run_syscall (update_memory_flags_call address range value) = do
      on_memory (
          remove_flags (stepped address 1 (signed_count address (wrapping_add address range)))
            value)
      pure done
    run_syscall yield_call = pure done
    run_syscall (create_thread_call entry stack length arguments) =
        create_thread entry stack length arguments
    run_syscall (unmap_memory_call address size) = do
      on_memory (
          unmap (
            stepped address 4096
              ((signed_count address (wrapping_add address size) + 4095) / 4096)))
      pure done
    run_syscall (join_thread_call thread_id) = on_memory (join_thread thread_id)
    run_syscall (terminate_process_call exit_code) = raise exit_code
    run_syscall get_process_id_call = pure (answer Results.process_id 2 0)
    run_syscall (unknown_call args) = abort

    -- `Memory::syscall`; what ends the process is an error with the exit code.
    abbrev pub syscall : List ℕ → Exec (Kernel S W) ℕ SyscallResult
    syscall args = run_syscall (syscall_of args)

    -- `impl riscv_cpu::cpu::Memory for Memory`: a system call that ends the process or panics does
    -- not return.
    abbrev pub bus : Bus.Memory (Kernel S W)
    bus = record {
      read_u8 = λ k a. Ram.read_u8 k.memory a;
      read_u16 = λ k a. Ram.read_u16 k.memory a;
      read_u32 = λ k a. Ram.read_u32 k.memory a;
      write_u8 = λ k a v. record k { memory = Ram.write_u8 k.memory a v };
      write_u16 = λ k a v. record k { memory = Ram.write_u16 k.memory a v };
      write_u32 = λ k a v. record k { memory = Ram.write_u32 k.memory a v };
      validate_address = λ k a. Ram.validate_address k.memory a;
      syscall =
          λ k args. elim (syscall args k) [ ok r t ↦ some (r, t) | err e t ↦ none | panic ↦ none ];
      translate = λ k a. Ram.translate k.memory a;
      reserve = λ k core a. record k { memory = Ram.reserve k.memory core a };
      clear_reservation = λ k core a.
          (let r = Ram.clear_reservation k.memory core a in (r.0, record k { memory = r.1 }));
    }
