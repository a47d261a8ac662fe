-- ===== src/Trap.antt =====
-- crates/riscv-cpu/src/cpu.rs: privilege modes, traps and their numbers. A receiver of a deferred
-- answer and a handle of a thread are tokens that the emulator only passes on.
pub mod Codes
use yove.Base.{ℕ, ◌+◌, Option, none, some, if◌then◌else◌, ◌==◌}

pub data PrivilegeMode : Type 0 where
  user supervisor reserved machine : PrivilegeMode

pub data TrapType : Type 0 where
  instruction_address_misaligned instruction_access_fault illegal_instruction : TrapType
  breakpoint load_address_misaligned load_access_fault : TrapType
  store_address_misaligned store_access_fault environment_call_from_u_mode : TrapType
  environment_call_from_s_mode environment_call_from_m_mode : TrapType
  instruction_page_fault load_page_fault store_page_fault : TrapType
  user_software_interrupt supervisor_software_interrupt machine_software_interrupt : TrapType
  user_timer_interrupt supervisor_timer_interrupt machine_timer_interrupt : TrapType
  user_external_interrupt supervisor_external_interrupt : TrapType
  machine_external_interrupt : TrapType
  pause_emulation join_thread : ℕ → TrapType

pub record Trap : Type 0 where
  pub trap_type : TrapType
  pub value : ℕ

-- `none` is the panic on the reserved mode.
unfoldable pub get_privilege_encoding : PrivilegeMode → Option ℕ
get_privilege_encoding user = some 0
get_privilege_encoding supervisor = some 1
get_privilege_encoding reserved = none
get_privilege_encoding machine = some 3

unfoldable pub decode_privilege_mode : ℕ → Option PrivilegeMode
decode_privilege_mode encoding =
    if encoding == 0
    then some user
    else if encoding == 1
    then some supervisor
    else if encoding == 3
    then some machine
    else none

abbrev interrupt_bit : ℕ
interrupt_bit = 0x80000000

unfoldable pub get_trap_cause : TrapType → ℕ
get_trap_cause instruction_address_misaligned = 0
get_trap_cause instruction_access_fault = 1
get_trap_cause illegal_instruction = 2
get_trap_cause breakpoint = 3
get_trap_cause load_address_misaligned = 4
get_trap_cause load_access_fault = 5
get_trap_cause store_address_misaligned = 6
get_trap_cause store_access_fault = 7
get_trap_cause environment_call_from_u_mode = 8
get_trap_cause environment_call_from_s_mode = 9
get_trap_cause environment_call_from_m_mode = 11
get_trap_cause instruction_page_fault = 12
get_trap_cause load_page_fault = 13
get_trap_cause store_page_fault = 15
get_trap_cause (pause_emulation receiver) = 16
get_trap_cause (join_thread handle) = 17
get_trap_cause user_software_interrupt = interrupt_bit
get_trap_cause supervisor_software_interrupt = interrupt_bit + 1
get_trap_cause machine_software_interrupt = interrupt_bit + 3
get_trap_cause user_timer_interrupt = interrupt_bit + 4
get_trap_cause supervisor_timer_interrupt = interrupt_bit + 5
get_trap_cause machine_timer_interrupt = interrupt_bit + 7
get_trap_cause user_external_interrupt = interrupt_bit + 8
get_trap_cause supervisor_external_interrupt = interrupt_bit + 9
get_trap_cause machine_external_interrupt = interrupt_bit + 11
