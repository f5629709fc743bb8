-- ===== src/Tests/Items.antt =====
-- src/riscv/utils/arena.hpp with items whose constructors throw, and the numbers of the system calls.
use simple_risc_v_emulator.Common.{ℕ, [], ◌∷◌, ◌≡◌, ◌⊎◌, ◌&&◌, refl, arith}
use simple_risc_v_emulator.Common.{
  ltb, leb, ◌==◌, if◌then◌else◌, Result, ok, throw, undefined, List,
}
use simple_risc_v_emulator.Common.{==-false, bad_alloc, length_error, invalid_argument, some}
use simple_risc_v_emulator.Arena.{Arena}
use simple_risc_v_emulator.Arena.Items.{allocate_items}
use simple_risc_v_emulator.Arena.Cleanup.{contains, IsStopped, allocate_items-stopped}
use simple_risc_v_emulator.Emulator.Syscalls.{Emulator, register_custom_syscall_handler, handler_of}
use simple_risc_v_emulator.Emulator.Numbers.{
  random, find_byte, register_custom_syscall_handler-refused,
}
use simple_risc_v_emulator.Tests.State.{small_arena, small_arena-IsArena, two_handlers}

-- Items of two bytes, of which the constructor of number 2 throws.
abbrev two_items : ℕ → Result (List ℕ)
two_items i = if i == 2 then throw length_error else ok (7 ∷ 7 ∷ [])

two_items-IsStopped : IsStopped two_items 2 2 length_error
two_items-IsStopped = record {
  returns = λ j low. (7 ∷ 7 ∷ [], rw (==-false j 2 (omega arith)) refl, refl);
  throws = refl;
}

allocate_items-stopped_example :
    ((allocate_items two_items 2 2 4 small_arena).result ≡ throw bad_alloc)
    ⊎ (((allocate_items two_items 2 2 4 small_arena).result ≡ undefined)
        × ((k : ℕ)
            → contains k (allocate_items two_items 2 2 4 small_arena).destroyed
              ≡ (ltb 0 k && leb k 2)))
allocate_items-stopped_example =
    allocate_items-stopped two_items 2 2 4 2 length_error small_arena small_arena-IsArena
      (omega arith) (omega arith) (omega arith) two_items-IsStopped

register_custom_syscall_handler-refused_example :
    (register_custom_syscall_handler 128 9 two_handlers ≡ throw invalid_argument)
    × ((e' : Emulator ℕ) × (register_custom_syscall_handler 5 9 two_handlers ≡ ok e')
        × (handler_of e' 5 ≡ some 9))
register_custom_syscall_handler-refused_example =
    register_custom_syscall_handler-refused random find_byte 9 two_handlers
