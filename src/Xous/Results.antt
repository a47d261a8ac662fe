-- ===== src/Xous/Results.antt =====
-- src/xous/definitions.rs: the numbers of results and errors of system calls.
use yove.Base.{ℕ}

pub data SyscallResultNumber : Type 0 where
  ok : SyscallResultNumber
  error : SyscallResultNumber
  memory_range : SyscallResultNumber
  connection_id : SyscallResultNumber
  message : SyscallResultNumber
  thread_id : SyscallResultNumber
  process_id : SyscallResultNumber
  unimplemented : SyscallResultNumber
  scalar1 : SyscallResultNumber
  scalar2 : SyscallResultNumber
  memory_returned : SyscallResultNumber
  scalar5 : SyscallResultNumber

abbrev pub result_number : SyscallResultNumber → ℕ
result_number ok = 0
result_number error = 1
result_number memory_range = 3
result_number connection_id = 7
result_number message = 9
result_number thread_id = 10
result_number process_id = 11
result_number unimplemented = 12
result_number scalar1 = 14
result_number scalar2 = 15
result_number memory_returned = 18
result_number scalar5 = 20

pub data SyscallErrorNumber : Type 0 where
  no_error : SyscallErrorNumber
  bad_alignment : SyscallErrorNumber
  bad_address : SyscallErrorNumber
  out_of_memory : SyscallErrorNumber
  memory_in_use : SyscallErrorNumber
  interrupt_not_found : SyscallErrorNumber
  interrupt_in_use : SyscallErrorNumber
  invalid_string : SyscallErrorNumber
  server_exists : SyscallErrorNumber
  server_not_found : SyscallErrorNumber
  process_not_found : SyscallErrorNumber
  process_not_child : SyscallErrorNumber
  process_terminated : SyscallErrorNumber
  timeout : SyscallErrorNumber
  internal_error : SyscallErrorNumber
  server_queue_full : SyscallErrorNumber
  thread_not_available : SyscallErrorNumber
  unhandled_syscall : SyscallErrorNumber
  invalid_syscall : SyscallErrorNumber
  share_violation : SyscallErrorNumber
  invalid_thread : SyscallErrorNumber
  invalid_pid : SyscallErrorNumber
  unknown_error : SyscallErrorNumber
  access_denied : SyscallErrorNumber
  use_before_init : SyscallErrorNumber
  double_free : SyscallErrorNumber
  debug_in_progress : SyscallErrorNumber
  invalid_limit : SyscallErrorNumber

abbrev pub error_number : SyscallErrorNumber → ℕ
error_number no_error = 0
error_number bad_alignment = 1
error_number bad_address = 2
error_number out_of_memory = 3
error_number memory_in_use = 4
error_number interrupt_not_found = 5
error_number interrupt_in_use = 6
error_number invalid_string = 7
error_number server_exists = 8
error_number server_not_found = 9
error_number process_not_found = 10
error_number process_not_child = 11
error_number process_terminated = 12
error_number timeout = 13
error_number internal_error = 14
error_number server_queue_full = 15
error_number thread_not_available = 16
error_number unhandled_syscall = 17
error_number invalid_syscall = 18
error_number share_violation = 19
error_number invalid_thread = 20
error_number invalid_pid = 21
error_number unknown_error = 22
error_number access_denied = 23
error_number use_before_init = 24
error_number double_free = 25
error_number debug_in_progress = 26
error_number invalid_limit = 27
