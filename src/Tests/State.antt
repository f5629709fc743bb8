-- ===== src/Tests/State.antt =====
-- src/riscv/base.hpp, src/riscv/utils/arena.hpp and the custom system calls of
-- src/riscv/emulator.hpp on a fresh thread, a small arena and a small table of handlers.
use simple_risc_v_emulator.Common.{ℕ, [], ◌∷◌, ◌≡◌, ◌≤◌, ◌<◌, ◌+◌, refl, arith, true}
use simple_risc_v_emulator.Common.{if◌then◌else◌, ◌==◌, ok, throw, Result, bad_alloc, ◌⊎◌, length}
use simple_risc_v_emulator.Common.{some, invalid_argument}
use simple_risc_v_emulator.Hart.{Thread, RegisterFile, zero_registers, initial_thread}
use simple_risc_v_emulator.Hart.{get_register, set_register, FloatExceptionFlag}
use simple_risc_v_emulator.Hart.{get_float_exception_flag, set_float_exception_flag}
use simple_risc_v_emulator.Hart.{
  get_float_control_status_register, set_float_control_status_register,
}
use simple_risc_v_emulator.Hart.Registers.{IsFile, zero_registers-IsFile, set_register_lem}
use simple_risc_v_emulator.Hart.Float.{
  get_float_exception_flag-set, get_float_control_status_register-set,
}
use simple_risc_v_emulator.Common.{◌+◌, ◌≤◌}
use simple_risc_v_emulator.Arena.{
  Arena, align, get_free_offset, allocate_raw, get_free_offset_aligned_to,
}
use simple_risc_v_emulator.Arena.Laws.{
  IsArena, IsAllocated, allocate_raw-IsAllocated, get_free_offset_aligned_to-allocate_raw,
  allocate_raw-again,
}
use simple_risc_v_emulator.Emulator.Syscalls.{
  Emulator, register_custom_syscall_handler, unregister_custom_syscall_handler,
  perform_custom_syscall, handler_of, call, CustomSyscallStatus, continue,
  register_custom_syscall_handler_lem, perform_custom_syscall-unregister,
}

set_register_lem_example :
    (file' : RegisterFile) × (set_register zero_registers 5 77 ≡ ok file')
    × IsFile file'
    × ((j : ℕ) → get_register file' j ≡ (if 5 == j then ok 77 else get_register zero_registers j))
set_register_lem_example =
    set_register_lem zero_registers 5 77 zero_registers-IsFile (omega arith) (omega arith)

get_float_exception_flag-set_example :
    get_float_exception_flag
      (set_float_exception_flag initial_thread FloatExceptionFlag.overflow true)
      FloatExceptionFlag.overflow
    ≡ true
get_float_exception_flag-set_example =
    get_float_exception_flag-set initial_thread FloatExceptionFlag.overflow
      FloatExceptionFlag.overflow true

get_float_control_status_register-set_example :
    get_float_control_status_register (set_float_control_status_register initial_thread 0x1E5)
    ≡ 0xE5
get_float_control_status_register-set_example =
    get_float_control_status_register-set initial_thread 0x1E5

-- Sixteen bytes at an address that eight does not divide.
abbrev pub small_arena : Arena
small_arena = record {
  base = 0x1003;
  storage = 1 ∷ 2 ∷ 3 ∷ 4 ∷ 5 ∷ 6 ∷ 0 ∷ 0 ∷ 0 ∷ 0 ∷ 0 ∷ 0 ∷ 0 ∷ 0 ∷ 0 ∷ 0 ∷ [];
  free_space = 16;
}

pub small_arena-IsArena : IsArena small_arena
small_arena-IsArena = record { free_le = omega arith; size_lt = omega arith }

abbrev padded_arena : Arena
padded_arena = record small_arena { free_space = 11 }

small_allocation : allocate_raw 8 8 small_arena ≡ ok (0x1008, padded_arena)
unfolding allocate_raw align get_free_offset
small_allocation = refl

allocate_raw-IsAllocated_example :
    IsAllocated 8 8 small_arena 0x1008 padded_arena × IsArena padded_arena
allocate_raw-IsAllocated_example =
    allocate_raw-IsAllocated 8 8 small_arena 0x1008 padded_arena small_arena-IsArena (omega arith)
      small_allocation

get_free_offset_aligned_to-allocate_raw_example :
    ((p : ℕ) × (a' : Arena) × (allocate_raw 8 8 small_arena ≡ ok (p, a'))
      × (small_arena.base + get_free_offset_aligned_to 8 8 small_arena ≡ p))
    ⊎ ((allocate_raw 8 8 small_arena ≡ throw bad_alloc)
        × (get_free_offset_aligned_to 8 8 small_arena ≡ length small_arena.storage))
get_free_offset_aligned_to-allocate_raw_example =
    get_free_offset_aligned_to-allocate_raw 8 8 small_arena small_arena-IsArena (omega arith)

allocate_raw-again_example : allocate_raw 8 8 padded_arena ≡ ok (0x1008, padded_arena)
allocate_raw-again_example =
    allocate_raw-again 8 8 small_arena 0x1008 padded_arena small_arena-IsArena (omega arith)
      small_allocation

-- A handler is a number that calling it writes to the first register.
abbrev pub two_handlers : Emulator ℕ
two_handlers = record {
  memory = small_arena;
  instructions = [];
  custom_syscall_handlers = (3, 30) ∷ (4, 40) ∷ [];
  start_time = 0;
}

abbrev write_number : ℕ → Thread → Emulator ℕ → Result (CustomSyscallStatus × Thread × Emulator ℕ)
write_number handler t e =
    ok (continue, record t { registers = record { registers = 0 ∷ handler ∷ [] } }, e)

register_custom_syscall_handler_lem_example :
    ((3 ≤ 127)
      × (e' : Emulator ℕ) × (register_custom_syscall_handler 3 31 two_handlers ≡ ok e')
      × ((k : ℕ) → handler_of e' k ≡ (if 3 == k then some 31 else handler_of two_handlers k)))
    ⊎ ((127 < 3) × (register_custom_syscall_handler 3 31 two_handlers ≡ throw invalid_argument))
register_custom_syscall_handler_lem_example = register_custom_syscall_handler_lem 3 31 two_handlers

perform_custom_syscall-unregister_example :
    perform_custom_syscall write_number initial_thread 4
      (unregister_custom_syscall_handler 3 two_handlers)
    ≡ call write_number
        (handler_of two_handlers 4)
        initial_thread
        (unregister_custom_syscall_handler 3 two_handlers)
perform_custom_syscall-unregister_example =
    perform_custom_syscall-unregister write_number 3 4 initial_thread two_handlers
