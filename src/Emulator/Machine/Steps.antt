-- ===== src/Emulator/Machine/Steps.antt =====
-- src/riscv/emulator.cpp: one round of the loop and one step of the machine.
use simple_risc_v_emulator.Common.{ℕ, ◌+◌, ◌%◌, ◌^◌, ◌<◌, ◌≡◌, ◌∙◌, ap, refl, sym, subst}
use simple_risc_v_emulator.Common.{true, false, if◌then◌else◌}
use simple_risc_v_emulator.Common.{inl, inr, ◌⊎◌}
use simple_risc_v_emulator.Common.{
  Result, ok, throw, undefined, runtime_error, unsupported_instruction,
}
use simple_risc_v_emulator.Hart.{set_register, Thread, RegisterFile}
use simple_risc_v_emulator.Instruction.Types.{Instruction, Payload, immediate, float_op}
use simple_risc_v_emulator.Instruction.Types.{jalr}
use simple_risc_v_emulator.Emulator.Execute.{execute, to_u64}
use simple_risc_v_emulator.Emulator.WellFormed.{
  IsThread, IsRunnable, IsUnsupported, PayloadFits, execute_type-unsupported,
}
use simple_risc_v_emulator.Emulator.Manual.{
  jumps, target, result, write_result, after_round, KeepsSource,
}
use simple_risc_v_emulator.Emulator.Control.{execute-manual, jalr_own_source}
use simple_risc_v_emulator.Common.{◌≢◌}
use simple_risc_v_emulator.Emulator.Machine.{emulator}
use simple_risc_v_emulator.Emulator.Machine.{
  Machine, is_supported, immediate_of, write, step, Represents,
}
use simple_risc_v_emulator.Emulator.Machine.Written.{
  is_supported-cases, result-IsValue, to_u64-lt, Holds, write_result-Holds, bind-ok, target-kept,
  target-own, KeepsSource-cases,
}

-- A round in which the loop goes on does what a step of the machine does.
abbrev IsStep : Result Thread → Machine → Type 0
IsStep (ok t) m = Represents t m
IsStep _ m = ⊥

module _ (instr : Instruction) (t : Thread) (m : Machine) (r : IsRunnable instr) (v : IsThread t)
    (same : Represents t m) where
  abbrev pc : ℕ
  pc = t.program_counter

  after_round-Represents :
      (x next : ℕ) (file : RegisterFile)
      → x ≡ immediate_of instr.payload
      → Holds file (write instr.destination_register (result instr.type pc x) m.registers)
      → next ≡ (step emulator instr m).counter
      → Represents (after_round t file next) (step emulator instr m)
  after_round-Represents x next file value holds at = record {
    registers = λ j inside.
        holds j inside
        ∙ ap (λ (n : ℕ). ok (write rd (result instr.type n x) m.registers j)) same.counter
        ∙ ap (λ (n : ℕ). ok (write rd (result instr.type m.counter n) m.registers j)) value;
    counter = at;
    cycles = rw same.cycles refl;
  }
    where
      rd : ℕ
      rd = instr.destination_register

  -- The step with the thread's program counter and the value of the immediate.
  step-counter :
      (x : ℕ)
      → x ≡ immediate_of instr.payload
      → (if jumps instr.type
            (m.registers instr.source_register1)
            (m.registers instr.source_register2)
          then (target instr.type pc x (
                write instr.destination_register
                  (result instr.type pc x)
                  m.registers
                  instr.source_register1)
              + 4)
            % 2 ^ 64
          else (pc + 4) % 2 ^ 64)
        ≡ (step emulator instr m).counter
  step-counter x value = rw (same.counter, value) refl

  module _ (x : ℕ) (payload : instr.payload ≡ immediate x) (lt : x < 2 ^ 32) where
    written :
        (file : RegisterFile) × (write_result (result instr.type pc (to_u64 x)) instr t.registers
          ≡ ok file)
        × Holds file
            (write instr.destination_register (result instr.type pc (to_u64 x)) m.registers)
    written =
        write_result-Holds (result instr.type pc (to_u64 x)) instr t.registers m.registers v.file
          r.rd_lt (result-IsValue instr.type pc (to_u64 x) (to_u64-lt x lt)) same.registers

    value_same : to_u64 x ≡ immediate_of instr.payload
    value_same = sym (ap immediate_of payload)

    kept-IsStep :
        (IsUnsupported instr.type → ⊥)
        → KeepsSource instr instr.type
        → IsStep (execute instr t) (step emulator instr m)
    kept-IsStep supported keeps =
        let (file, e, holds) = written in
        let round =
          execute-manual instr t x (m.registers instr.source_register1)
            (m.registers instr.source_register2) payload
            (same.registers instr.source_register1 r.rs1_lt)
            (same.registers instr.source_register2 r.rs2_lt) v r supported keeps in
        subst (λ s. IsStep s (step emulator instr m)) (sym (round ∙ bind-ok _ file _ e))
          (after_round-Represents (to_u64 x) _ file value_same holds (
            ap
              (λ (n : ℕ).
                if jumps instr.type (m.registers instr.source_register1)
                  (m.registers instr.source_register2)
                then (n + 4) % 2 ^ 64
                else (pc + 4) % 2 ^ 64)
              (target-kept instr instr.type pc (to_u64 x) m.registers keeps)
            ∙ step-counter (to_u64 x) value_same))

    own-IsStep :
        instr.type ≡ jalr
        → instr.destination_register ≡ instr.source_register1
        → instr.destination_register ≢ 0
        → IsStep (execute instr t) (step emulator instr m)
    own-IsStep is_jalr own nonzero =
        let (file, e, holds) = written in
        let round = jalr_own_source instr t x is_jalr payload own nonzero v r in
        let linked : set_register t.registers instr.destination_register ((pc + 4) % 2 ^ 64)
            ≡ ok file =
          sym (ap (λ type. write_result (result type pc (to_u64 x)) instr t.registers) is_jalr)
          ∙ e in
        subst (λ s. IsStep s (step emulator instr m)) (sym (round ∙ bind-ok _ file _ linked))
          (after_round-Represents (to_u64 x) _ file value_same holds (
            target-own instr instr.type pc (to_u64 x) (m.registers instr.source_register1)
              (m.registers instr.source_register2) m.registers is_jalr own nonzero
            ∙ step-counter (to_u64 x) value_same))

    supported-IsStep :
        (IsUnsupported instr.type → ⊥) → IsStep (execute instr t) (step emulator instr m)
    supported-IsStep supported = elim (KeepsSource-cases instr instr.type) [
      | inl keeps ↦ kept-IsStep supported keeps
      | inr (is_jalr, own, nonzero) ↦ own-IsStep is_jalr own nonzero
    ]

  -- Either the machine has the instruction, and takes a step, or both refuse it.
  pub execute-cases :
      ((is_supported instr.type ≡ true)
        × ((t' : Thread) × (execute instr t ≡ ok t') × Represents t' (step emulator instr m)))
      ⊎ ((is_supported instr.type ≡ false)
          × (execute instr t ≡ throw (runtime_error unsupported_instruction)))
  unfolding execute
  execute-cases = elim (is_supported-cases instr.type) [
    | inr (unknown, u) ↦
        inr (unknown, rw (execute_type-unsupported instr.type instr counted u) refl)
    | inl (known, supported) ↦ inl (known, by_payload instr.payload refl r.payload_fits supported)
  ]
    where
      counted : Thread
      counted = record t { cycle_counter = (t.cycle_counter + 1) % 2 ^ 64 }

      is_step :
          (s : Result Thread)
          → execute instr t ≡ s
          → IsStep s (step emulator instr m)
          → (t' : Thread) × (execute instr t ≡ ok t') × Represents t' (step emulator instr m)
      is_step (ok t') e same' = (t', e, same')
      is_step (throw x) e bad = absurd bad
      is_step undefined e bad = absurd bad

      by_payload :
          (p : Payload)
          → instr.payload ≡ p
          → PayloadFits p instr.type
          → (IsUnsupported instr.type → ⊥)
          → (t' : Thread) × (execute instr t ≡ ok t') × Represents t' (step emulator instr m)
      by_payload (immediate x) e lt supported =
          is_step (execute instr t) refl (supported-IsStep x e lt supported)
      by_payload (float_op mode register) e u supported = absurd (supported u)
