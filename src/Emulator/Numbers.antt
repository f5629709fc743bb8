-- ===== src/Emulator/Numbers.antt =====
-- src/riscv/emulator.hpp and src/app.cpp: the numbers of the system calls, and which of them can be
-- registered.
use simple_risc_v_emulator.Common.{ℕ, ◌+◌, ◌≤◌, ◌<◌, ◌≡◌, refl, arith, some, inl, inr, ◌∙◌}
use simple_risc_v_emulator.Common.{ok, throw, invalid_argument, eq→==}
use simple_risc_v_emulator.Emulator.Syscalls.{
  Emulator, max_builtin_syscall, register_custom_syscall_handler, handler_of,
  register_custom_syscall_handler_lem,
}

pub data BuiltinSyscall : Type 0 where
  get_free_memory copy_memory copy_memory_overlapping fill_memory compare_memory : BuiltinSyscall
  find_byte max : BuiltinSyscall

abbrev pub builtin_syscall_number : BuiltinSyscall → ℕ
builtin_syscall_number get_free_memory = 0
builtin_syscall_number copy_memory = 1
builtin_syscall_number copy_memory_overlapping = 2
builtin_syscall_number fill_memory = 3
builtin_syscall_number compare_memory = 4
builtin_syscall_number find_byte = 5
builtin_syscall_number max = max_builtin_syscall

pub data CustomSyscall : Type 0 where
  random get_framebuffer present_frame read_key : CustomSyscall
  spawn_thread join_thread exit_thread : CustomSyscall

-- `Random` is the first number behind those of the built-in calls.
abbrev pub custom_syscall_number : CustomSyscall → ℕ
custom_syscall_number random = builtin_syscall_number max + 1
custom_syscall_number get_framebuffer = builtin_syscall_number max + 2
custom_syscall_number present_frame = builtin_syscall_number max + 3
custom_syscall_number read_key = builtin_syscall_number max + 4
custom_syscall_number spawn_thread = builtin_syscall_number max + 5
custom_syscall_number join_thread = builtin_syscall_number max + 6
custom_syscall_number exit_thread = builtin_syscall_number max + 7

custom_syscall_number-reserved : (s : CustomSyscall) → 127 < custom_syscall_number s
custom_syscall_number-reserved random = omega arith
custom_syscall_number-reserved get_framebuffer = omega arith
custom_syscall_number-reserved present_frame = omega arith
custom_syscall_number-reserved read_key = omega arith
custom_syscall_number-reserved spawn_thread = omega arith
custom_syscall_number-reserved join_thread = omega arith
custom_syscall_number-reserved exit_thread = omega arith

builtin_syscall_number-le : (b : BuiltinSyscall) → builtin_syscall_number b ≤ 127
builtin_syscall_number-le get_free_memory = omega arith
builtin_syscall_number-le copy_memory = omega arith
builtin_syscall_number-le copy_memory_overlapping = omega arith
builtin_syscall_number-le fill_memory = omega arith
builtin_syscall_number-le compare_memory = omega arith
builtin_syscall_number-le find_byte = omega arith
builtin_syscall_number-le max = omega arith

module _ {ℓ} {H : Type ℓ} where
  -- No handler can be registered for any of the system calls that the application defines, since
  -- their numbers are greater than that of `BuiltinSyscall::Max`: each attempt throws. For the
  -- built-in ones a handler can be registered, and is then the one of that number.
  pub register_custom_syscall_handler-refused :
      (s : CustomSyscall) (b : BuiltinSyscall) (handler : H) (e : Emulator H)
      → (register_custom_syscall_handler (custom_syscall_number s) handler e
          ≡ throw invalid_argument)
        × ((e' : Emulator H) × (register_custom_syscall_handler (builtin_syscall_number b) handler e
              ≡ ok e')
            × (handler_of e' (builtin_syscall_number b) ≡ some handler))
  register_custom_syscall_handler-refused s b handler e = (
    elim (register_custom_syscall_handler_lem (custom_syscall_number s) handler e) [
      | inl low ↦ absurd (omega (arith, low.0, custom_syscall_number-reserved s))
      | inr high ↦ high.1
    ],
    elim (register_custom_syscall_handler_lem (builtin_syscall_number b) handler e) [
      | inl (low, e', registered, handlers) ↦ (
        e',
        registered,
        handlers (builtin_syscall_number b)
            ∙ rw (eq→== (builtin_syscall_number b) (builtin_syscall_number b) refl),
      )
      | inr high ↦ absurd (omega (arith, high.0, builtin_syscall_number-le b))
    ],
  )
