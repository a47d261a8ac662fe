-- ===== src/Xous/Definitions.antt =====
-- src/xous/definitions.rs: the numbers of the system calls, of their results and of their errors.
-- The words of a call are unsigned: an `i32` is its 32 bits.
pub mod Numbers
use yove.Base.{
  ℕ, ◌+◌, ◌≡◌, ◌≢◌, refl, sym, ap, ◌∙◌, Bool, true, false, ◌&&◌, Option, some, none, List, [], ◌∷◌,
  if◌then◌else◌, ◌==◌, arith,
}

pub data SyscallNumber : Type 0 where
  map_memory : SyscallNumber
  yield : SyscallNumber
  return_to_parent : SyscallNumber
  claim_interrupt : SyscallNumber
  free_interrupt : SyscallNumber
  switch_to : SyscallNumber
  ready_threads : SyscallNumber
  wait_event : SyscallNumber
  increase_heap : SyscallNumber
  decrease_heap : SyscallNumber
  update_memory_flags : SyscallNumber
  set_mem_region : SyscallNumber
  create_server_with_address : SyscallNumber
  receive_message : SyscallNumber
  send_message : SyscallNumber
  connect : SyscallNumber
  create_thread : SyscallNumber
  unmap_memory : SyscallNumber
  return_memory : SyscallNumber
  create_process : SyscallNumber
  terminate_process : SyscallNumber
  shutdown : SyscallNumber
  try_send_message : SyscallNumber
  try_connect : SyscallNumber
  return_scalar1 : SyscallNumber
  return_scalar2 : SyscallNumber
  try_receive_message : SyscallNumber
  create_server : SyscallNumber
  connect_for_process : SyscallNumber
  create_server_id : SyscallNumber
  get_thread_id : SyscallNumber
  get_process_id : SyscallNumber
  destroy_server : SyscallNumber
  disconnect : SyscallNumber
  join_thread : SyscallNumber
  set_exception_handler : SyscallNumber
  adjust_process_limit : SyscallNumber
  virt_to_phys : SyscallNumber
  return_scalar : SyscallNumber
  reply_and_receive_next : SyscallNumber
  virt_to_phys_pid : SyscallNumber
  unknown : SyscallNumber

abbrev pub number : SyscallNumber → ℕ
number map_memory = 2
number yield = 3
number return_to_parent = 4
number claim_interrupt = 5
number free_interrupt = 6
number switch_to = 7
number ready_threads = 8
number wait_event = 9
number increase_heap = 10
number decrease_heap = 11
number update_memory_flags = 12
number set_mem_region = 13
number create_server_with_address = 14
number receive_message = 15
number send_message = 16
number connect = 17
number create_thread = 18
number unmap_memory = 19
number return_memory = 20
number create_process = 21
number terminate_process = 22
number shutdown = 23
number try_send_message = 24
number try_connect = 25
number return_scalar1 = 26
number return_scalar2 = 27
number try_receive_message = 28
number create_server = 29
number connect_for_process = 30
number create_server_id = 31
number get_thread_id = 32
number get_process_id = 33
number destroy_server = 34
number disconnect = 35
number join_thread = 36
number set_exception_handler = 37
number adjust_process_limit = 38
number virt_to_phys = 39
number return_scalar = 40
number reply_and_receive_next = 41
number virt_to_phys_pid = 42
number unknown = 0

abbrev pub numbers : List (ℕ × SyscallNumber)
numbers =
    (2, map_memory)
    ∷ (3, yield)
    ∷ (4, return_to_parent)
    ∷ (5, claim_interrupt)
    ∷ (6, free_interrupt)
    ∷ (7, switch_to)
    ∷ (8, ready_threads)
    ∷ (9, wait_event)
    ∷ (10, increase_heap)
    ∷ (11, decrease_heap)
    ∷ (12, update_memory_flags)
    ∷ (13, set_mem_region)
    ∷ (14, create_server_with_address)
    ∷ (15, receive_message)
    ∷ (16, send_message)
    ∷ (17, connect)
    ∷ (18, create_thread)
    ∷ (19, unmap_memory)
    ∷ (20, return_memory)
    ∷ (21, create_process)
    ∷ (22, terminate_process)
    ∷ (23, shutdown)
    ∷ (24, try_send_message)
    ∷ (25, try_connect)
    ∷ (26, return_scalar1)
    ∷ (27, return_scalar2)
    ∷ (28, try_receive_message)
    ∷ (29, create_server)
    ∷ (30, connect_for_process)
    ∷ (31, create_server_id)
    ∷ (32, get_thread_id)
    ∷ (33, get_process_id)
    ∷ (34, destroy_server)
    ∷ (35, disconnect)
    ∷ (36, join_thread)
    ∷ (37, set_exception_handler)
    ∷ (38, adjust_process_limit)
    ∷ (39, virt_to_phys)
    ∷ (40, return_scalar)
    ∷ (41, reply_and_receive_next)
    ∷ (42, virt_to_phys_pid)
    ∷ []

-- The arms of the match, in order.
abbrev pub first_arm : ℕ → List (ℕ × SyscallNumber) → SyscallNumber
first_arm value [] = unknown
first_arm value ((n, s) ∷ rest) =
    let later = first_arm value rest in if value == n then s else later

-- `impl From<i32> for SyscallNumber`
abbrev pub number_of : ℕ → SyscallNumber
number_of value = first_arm value numbers

pub data Syscall : Type 0 where
  unknown_call : List ℕ → Syscall
  yield_call : Syscall
  increase_heap_call : ℕ → ℕ → Syscall
  map_memory_call : ℕ → ℕ → ℕ → ℕ → Syscall
  connect_call : List ℕ → Syscall
  try_connect_call : List ℕ → Syscall
  send_message_call : ℕ → ℕ → ℕ → List ℕ → Syscall
  try_send_message_call : ℕ → ℕ → ℕ → List ℕ → Syscall
  update_memory_flags_call : ℕ → ℕ → ℕ → Syscall
  create_thread_call : ℕ → ℕ → ℕ → List ℕ → Syscall
  join_thread_call : ℕ → Syscall
  unmap_memory_call : ℕ → ℕ → Syscall
  terminate_process_call : ℕ → Syscall
  get_process_id_call : Syscall

abbrev decode : SyscallNumber → ℕ → ℕ → ℕ → ℕ → ℕ → ℕ → ℕ → ℕ → Syscall
decode increase_heap v a b c d e f g = increase_heap_call a b
decode map_memory v a b c d e f g = map_memory_call a b c d
decode unmap_memory v a b c d e f g = unmap_memory_call a b
decode connect v a b c d e f g = connect_call (a ∷ b ∷ c ∷ d ∷ [])
decode try_connect v a b c d e f g = try_connect_call (a ∷ b ∷ c ∷ d ∷ [])
decode send_message v a b c d e f g = send_message_call a b c (d ∷ e ∷ f ∷ g ∷ [])
decode try_send_message v a b c d e f g = try_send_message_call a b c (d ∷ e ∷ f ∷ g ∷ [])
decode update_memory_flags v a b c d e f g = update_memory_flags_call a b c
decode create_thread v a b c d e f g = create_thread_call a b c (d ∷ e ∷ f ∷ g ∷ [])
decode yield v a b c d e f g = yield_call
decode join_thread v a b c d e f g = join_thread_call a
decode terminate_process v a b c d e f g = terminate_process_call a
decode get_process_id v a b c d e f g = get_process_id_call
decode n v a b c d e f g = unknown_call (v ∷ a ∷ b ∷ c ∷ d ∷ e ∷ f ∷ g ∷ [])

-- `impl From<[i32; 8]> for Syscall`: a list of another length stands for no array.
abbrev pub syscall_of : List ℕ → Syscall
syscall_of (v ∷ a ∷ b ∷ c ∷ d ∷ e ∷ f ∷ g ∷ []) = decode (number_of v) v a b c d e f g
syscall_of other = unknown_call other
