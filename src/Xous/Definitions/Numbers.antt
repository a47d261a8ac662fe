-- ===== src/Xous/Definitions/Numbers.antt =====
-- The numbers of system calls, decoded and back (src/xous/definitions.rs).
use yove.Base.{
  ℕ, ◌≡◌, ◌≢◌, inl, inr, refl, sym, ap, ◌∙◌, Bool, true, ◌&&◌, List, [], ◌∷◌, ◌==◌, arith,
}
use yove.Xous.Pages.Sound.{dec_eq}
use yove.Xous.Definitions.{
  SyscallNumber, map_memory, yield, return_to_parent, claim_interrupt, free_interrupt, switch_to,
  ready_threads, wait_event, increase_heap, decrease_heap, update_memory_flags, set_mem_region,
  create_server_with_address, receive_message, send_message, connect, create_thread, unmap_memory,
  return_memory, create_process, terminate_process, shutdown, try_send_message, try_connect,
  return_scalar1, return_scalar2, try_receive_message, create_server, connect_for_process,
  create_server_id, get_thread_id, get_process_id, destroy_server, disconnect, join_thread,
  set_exception_handler, adjust_process_limit, virt_to_phys, return_scalar, reply_and_receive_next,
  virt_to_phys_pid, unknown, number, numbers, first_arm, number_of,
}

-- Every number of a call is decoded to that call.
pub number_of-number : (s : SyscallNumber) → number_of (number s) ≡ s
number_of-number map_memory = refl
number_of-number yield = refl
number_of-number return_to_parent = refl
number_of-number claim_interrupt = refl
number_of-number free_interrupt = refl
number_of-number switch_to = refl
number_of-number ready_threads = refl
number_of-number wait_event = refl
number_of-number increase_heap = refl
number_of-number decrease_heap = refl
number_of-number update_memory_flags = refl
number_of-number set_mem_region = refl
number_of-number create_server_with_address = refl
number_of-number receive_message = refl
number_of-number send_message = refl
number_of-number connect = refl
number_of-number create_thread = refl
number_of-number unmap_memory = refl
number_of-number return_memory = refl
number_of-number create_process = refl
number_of-number terminate_process = refl
number_of-number shutdown = refl
number_of-number try_send_message = refl
number_of-number try_connect = refl
number_of-number return_scalar1 = refl
number_of-number return_scalar2 = refl
number_of-number try_receive_message = refl
number_of-number create_server = refl
number_of-number connect_for_process = refl
number_of-number create_server_id = refl
number_of-number get_thread_id = refl
number_of-number get_process_id = refl
number_of-number destroy_server = refl
number_of-number disconnect = refl
number_of-number join_thread = refl
number_of-number set_exception_handler = refl
number_of-number adjust_process_limit = refl
number_of-number virt_to_phys = refl
number_of-number return_scalar = refl
number_of-number reply_and_receive_next = refl
number_of-number virt_to_phys_pid = refl
number_of-number unknown = refl

abbrev is_listed : List (ℕ × SyscallNumber) → Bool
is_listed [] = true
is_listed ((n, s) ∷ rest) = n == number s && is_listed rest

number-first_arm :
    (value : ℕ) (arms : List (ℕ × SyscallNumber))
    → is_listed arms ≡ true
    → first_arm value arms ≢ unknown
    → number (first_arm value arms) ≡ value
number-first_arm value [] h k = absurd (k refl)
number-first_arm value ((n, s) ∷ rest) h k = elim (dec_eq value n) [
  | inl e ↦
      let f : first_arm value ((n, s) ∷ rest) ≡ s = ground arith in
      let g : n ≡ number s = ground arith in ap number f ∙ sym g ∙ sym e
  | inr e ↦
      let f : first_arm value ((n, s) ∷ rest) ≡ first_arm value rest = ground arith in
      let l : is_listed rest ≡ true = ground arith in
      ap number f ∙ number-first_arm value rest l (λ u. k (f ∙ u))
]

-- What is decoded to a call other than `Unknown` is the number of that call.
pub number-number_of : (value : ℕ) → number_of value ≢ unknown → number (number_of value) ≡ value
number-number_of value = number-first_arm value numbers refl
