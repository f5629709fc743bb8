-- ===== src/Emulator/Syscalls.antt =====
-- src/riscv/emulator.hpp: the state of `Emulator` and its custom system calls. The map from numbers
-- to handlers is a list of pairs. A handler is a parameter, with what calling it does: it may
-- change the thread and the emulator, and returns a status.
use simple_risc_v_emulator.Common.{ℕ, ◌≤◌, ◌<◌, ◌≡◌, ap, refl, sym}
use simple_risc_v_emulator.Common.{Bool, true, false, ltb, ◌==◌, if◌then◌else◌, List, [], ◌∷◌}
use simple_risc_v_emulator.Common.{Result, ok, throw, ◌>>=◌, ◌>>◌, throw_if, invalid_argument}
use simple_risc_v_emulator.Common.{
  Option, some, none, Bool-cases, inl, inr, ◌⊎◌, ltb→lt, ltb-false→le, ==→eq,
}
use simple_risc_v_emulator.Arena.{Arena}
use simple_risc_v_emulator.Hart.{Thread}
use simple_risc_v_emulator.Instruction.Types.{Instruction}

-- `BuiltinSyscall::Max`
abbrev pub max_builtin_syscall : ℕ
max_builtin_syscall = 127

pub data CustomSyscallStatus : Type 0 where
  continue interrupt : CustomSyscallStatus

pub record Emulator {ℓ} (H : Type ℓ) : Type ℓ where
  pub memory : Arena
  pub instructions : List Instruction
  pub custom_syscall_handlers : List (ℕ × H)
  pub start_time : ℕ

module _ {ℓ} {H : Type ℓ} where
  unfoldable pub set_instructions : List Instruction → Emulator H → Emulator H
  set_instructions new_instructions e = record e { instructions = new_instructions }

  -- `std::map::find`
  unfoldable pub find : ℕ → List (ℕ × H) → Option H
  find number [] = none
  find number (p ∷ ps) = let rest = find number ps in if p.0 == number then some p.1 else rest

  -- `std::map::erase`
  unfoldable pub erase : ℕ → List (ℕ × H) → List (ℕ × H)
  erase number [] = []
  erase number (p ∷ ps) = let rest = erase number ps in if p.0 == number then rest else p ∷ rest

  unfoldable pub register_custom_syscall_handler : ℕ → H → Emulator H → Result (Emulator H)
  unfolding erase
  register_custom_syscall_handler number handler e =
      throw_if (ltb max_builtin_syscall number) invalid_argument
      >> ok (record e {
        custom_syscall_handlers = (number, handler) ∷ erase number e.custom_syscall_handlers;
      })

  unfoldable pub unregister_custom_syscall_handler : ℕ → Emulator H → Emulator H
  unfolding erase
  unregister_custom_syscall_handler number e = record e {
    custom_syscall_handlers = erase number e.custom_syscall_handlers;
  }

  -- The call through the iterator that `find` returned, unless it is the map's end. The status is
  -- dropped.
  abbrev pub call :
      (H → Thread → Emulator H → Result (CustomSyscallStatus × Thread × Emulator H))
      → Option H
      → Thread
      → Emulator H
      → Result (Thread × Emulator H)
  call invoke none t e = ok (t, e)
  call invoke (some handler) t e = invoke handler t e >>= λ r. ok (r.1, r.2)

  unfoldable pub perform_custom_syscall :
      (H → Thread → Emulator H → Result (CustomSyscallStatus × Thread × Emulator H))
      → Thread
      → ℕ
      → Emulator H
      → Result (Thread × Emulator H)
  unfolding find
  perform_custom_syscall invoke t number e = call invoke (find number e.custom_syscall_handlers) t e

  find-erase :
      (number k : ℕ) (ps : List (ℕ × H))
      → find k (erase number ps) ≡ (if number == k then none else find k ps)
  unfolding find erase
  find-erase number k [] = elim (Bool-cases (number == k)) [ inl e ↦ rw e | inr e ↦ rw e ]
  find-erase number k (p ∷ ps) = elim (Bool-cases (p.0 == number)) [
    | inl same ↦
        rw (same, find-erase number k ps)
          (erased (number == k) (p.0 == k) (λ d. other (==→eq p.0 number same) d))
    | inr different ↦
        rw (different, find-erase number k ps)
          (kept (number == k) (p.0 == k) (λ d. apart (==→eq number k d) different))
  ]
    where
      erased :
          (a b : Bool)
          → (a ≡ false → b ≡ false)
          → (if a then none else find k ps)
            ≡ (if a then none else if b then some p.1 else find k ps)
      erased true b h = refl
      erased false b h = rw (h refl)

      kept :
          (a b : Bool)
          → (a ≡ true → b ≡ false)
          → (if b then some p.1 else if a then none else find k ps)
            ≡ (if a then none else if b then some p.1 else find k ps)
      kept true b h = rw (h refl)
      kept false b h = refl

      other : p.0 ≡ number → (number == k) ≡ false → (p.0 == k) ≡ false
      other e d = rw e d

      apart : number ≡ k → (p.0 == number) ≡ false → (p.0 == k) ≡ false
      apart e d = rw (sym e) d

  -- The handler of a number, as the abstract view of the emulator.
  abbrev pub handler_of : Emulator H → ℕ → Option H
  handler_of e number = find number e.custom_syscall_handlers

  -- A custom handler can be registered exactly for the numbers up to 127: for those the new handler
  -- is the one of its number, and all other numbers keep theirs; for larger ones the call throws.
  pub register_custom_syscall_handler_lem :
      (number : ℕ) (handler : H) (e : Emulator H)
      → ((number ≤ 127)
          × (e' : Emulator H) × (register_custom_syscall_handler number handler e ≡ ok e')
          × ((k : ℕ) → handler_of e' k ≡ (if number == k then some handler else handler_of e k)))
        ⊎ ((127 < number)
            × (register_custom_syscall_handler number handler e ≡ throw invalid_argument))
  unfolding register_custom_syscall_handler find
  register_custom_syscall_handler_lem number handler e =
      elim (Bool-cases (ltb max_builtin_syscall number)) [
        | inl large ↦ inr (ltb→lt _ _ large, rw large)
        | inr small ↦ inl (
          ltb-false→le _ _ small,
          record e {
            custom_syscall_handlers = (number, handler) ∷ erase number e.custom_syscall_handlers;
          },
          rw small,
          λ k. shadowed k,
        )
      ]
    where
      shadowed :
          (k : ℕ)
          → (if number == k then some handler else find k (erase number e.custom_syscall_handlers))
            ≡ (if number == k then some handler else find k e.custom_syscall_handlers)
      shadowed k = elim (Bool-cases (number == k)) [
        | inl same ↦ rw same
        | inr different ↦ rw (different, find-erase number k e.custom_syscall_handlers, different)
      ]

  -- After a handler is unregistered, its system call does nothing, and every other one calls what it
  -- called before, on the emulator without the handler.
  pub perform_custom_syscall-unregister :
      (invoke : H → Thread → Emulator H → Result (CustomSyscallStatus × Thread × Emulator H))
      (number k : ℕ) (t : Thread) (e : Emulator H)
      → perform_custom_syscall invoke t k (unregister_custom_syscall_handler number e)
        ≡ call invoke
            (if number == k then none else handler_of e k)
            t
            (unregister_custom_syscall_handler number e)
  unfolding perform_custom_syscall unregister_custom_syscall_handler
  perform_custom_syscall-unregister invoke number k t e =
      ap
        (λ (o : Option H).
          call invoke o t
            (record e { custom_syscall_handlers = erase number e.custom_syscall_handlers }))
        (find-erase number k e.custom_syscall_handlers)
