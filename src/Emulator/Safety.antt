-- ===== src/Emulator/Safety.antt =====
-- src/riscv/emulator.cpp: the loop of `Emulator::run` and undefined behaviour.
use simple_risc_v_emulator.Emulator.WellFormed.{
  IsThread, PayloadFits, IsRunnable, execute_type-unsupported,
}
use simple_risc_v_emulator.Common.{ℕ, zero, suc, ◌+◌, ◌-◌, ◌%◌, ◌^◌, ◌<◌, ◌≡◌, refl, subst, arith}
use simple_risc_v_emulator.Common.{bit_and, Bool, ltb, List, [], ◌∷◌, All}
use simple_risc_v_emulator.Common.{Result, ok, throw, undefined, ◌>>=◌, length, get_elem?, some}
use simple_risc_v_emulator.Common.{
  runtime_error, unsupported_instruction, ltb→lt, Bool-cases, inl, inr,
}
use simple_risc_v_emulator.Bits.Digits.{bit_and-even_mask}
use simple_risc_v_emulator.Hart.{Thread, get_register, get_next_program_counter}
use simple_risc_v_emulator.Hart.{get_instruction_index}
use simple_risc_v_emulator.Hart.Registers.{get_register-defined, set_register_lem}
use simple_risc_v_emulator.Hart.Registers.{get_elem?-in_range}
use simple_risc_v_emulator.Instruction.Types.{
  Instruction, InstructionType, Payload, immediate, float_op,
}
use simple_risc_v_emulator.Instruction.Types.{read_immediate}
use simple_risc_v_emulator.Instruction.Types.{lui, auipc, jal, jalr, beq, bne, blt, bge, bltu, bgeu}
use simple_risc_v_emulator.Emulator.Execute.{execute, execute_type, to_u64, set_destination}
use simple_risc_v_emulator.Emulator.Execute.{add_immediate, branch}
use simple_risc_v_emulator.Emulator.Run.{
  Outcome, finished, failed, faulted, running, round, run, go_on,
}

-- A well-formed thread, or the one exception that the loop throws.
abbrev pub IsSafe : Result Thread → Type 0
IsSafe (ok t) = IsThread t
IsSafe (throw e) = e ≡ runtime_error unsupported_instruction
IsSafe undefined = ⊥

IsSafe-bind :
    (r : Result Thread) (f : Thread → Result Thread)
    → IsSafe r
    → ((t : Thread) → IsThread t → IsSafe (f t))
    → IsSafe (r >>= f)
IsSafe-bind (ok t) f h k = k t h
IsSafe-bind (throw e) f h k = h
IsSafe-bind undefined f h k = h

module _ (instr : Instruction) (r : IsRunnable instr) where
  set_destination-IsSafe :
      (value : ℕ) (t : Thread)
      → IsThread t
      → value < 2 ^ 64
      → IsSafe (set_destination instr value t)
  set_destination-IsSafe value t v h =
      let (file, e, good, same) =
        set_register_lem t.registers instr.destination_register value v.file r.rd_lt h in
      rw e (record { file = good; counter_lt = v.counter_lt; cycles_lt = v.cycles_lt })

  module _ (x : ℕ) (e : instr.payload ≡ immediate x) (x_lt : x < 2 ^ 32) where
    value_read : read_immediate instr ≡ ok x
    value_read = rw e

    add_immediate-IsSafe : (t : Thread) → IsThread t → IsSafe (add_immediate instr t)
    add_immediate-IsSafe t v =
        rw value_read (record { file = v.file; counter_lt = omega arith; cycles_lt = v.cycles_lt })

    branch-IsSafe : (test : ℕ → ℕ → Bool) (t : Thread) → IsThread t → IsSafe (branch test instr t)
    branch-IsSafe test t v =
        let (left, l, l_lt) =
          get_register-defined t.registers instr.source_register1 v.file r.rs1_lt in
        let (right, k, k_lt) =
          get_register-defined t.registers instr.source_register2 v.file r.rs2_lt in
        rw (l, k)
          (elim (Bool-cases (test left right)) [
            | inl taken ↦ rw taken (add_immediate-IsSafe t v)
            | inr not_taken ↦ rw not_taken v
          ])

    to_u64-lt : to_u64 x < 2 ^ 64
    to_u64-lt = ground arith

    execute_type-IsSafe_immediate :
        (type : InstructionType) (t : Thread) → IsThread t → IsSafe (execute_type type instr t)
    unfolding execute_type get_next_program_counter
    execute_type-IsSafe_immediate lui t v =
        rw value_read (set_destination-IsSafe (to_u64 x) t v to_u64-lt)
    execute_type-IsSafe_immediate auipc t v =
        rw value_read
          (set_destination-IsSafe ((t.program_counter + to_u64 x) % 2 ^ 64) t v (omega arith))
    execute_type-IsSafe_immediate jal t v =
        IsSafe-bind (set_destination instr ((t.program_counter + 4) % 2 ^ 64) t) _
          (set_destination-IsSafe _ t v (omega arith)) add_immediate-IsSafe
    execute_type-IsSafe_immediate jalr t v =
        IsSafe-bind (set_destination instr ((t.program_counter + 4) % 2 ^ 64) t) _
          (set_destination-IsSafe _ t v (omega arith)) (λ t' v'. jump t' v')
      where
        jump :
            (t' : Thread)
            → IsThread t'
            → IsSafe (
                get_register t'.registers instr.source_register1 >>= λ source.
                read_immediate instr >>= λ value. ok (record t' {
                  program_counter = bit_and ((source + to_u64 value) % 2 ^ 64) (2 ^ 64 - 2);
                }))
        jump t' v' =
            let (source, l, l_lt) =
              get_register-defined t'.registers instr.source_register1 v'.file r.rs1_lt in
            rw (l, value_read)
              (record {
                file = v'.file;
                counter_lt =
                    omega (arith, bit_and-even_mask ((source + to_u64 x) % 2 ^ 64) (omega arith));
                cycles_lt = v'.cycles_lt;
              })
    execute_type-IsSafe_immediate beq t v = branch-IsSafe _ t v
    execute_type-IsSafe_immediate bne t v = branch-IsSafe _ t v
    execute_type-IsSafe_immediate blt t v = branch-IsSafe _ t v
    execute_type-IsSafe_immediate bge t v = branch-IsSafe _ t v
    execute_type-IsSafe_immediate bltu t v = branch-IsSafe _ t v
    execute_type-IsSafe_immediate bgeu t v = branch-IsSafe _ t v
    execute_type-IsSafe_immediate _ t v = refl

execute_type-IsSafe :
    (instr : Instruction)
    → IsRunnable instr
    → (t : Thread) → IsThread t
    → IsSafe (execute_type instr.type instr t)
execute_type-IsSafe instr r t v = by_payload instr.payload refl r.payload_fits
  where
    by_payload :
        (p : Payload)
        → instr.payload ≡ p
        → PayloadFits p instr.type
        → IsSafe (execute_type instr.type instr t)
    by_payload (immediate x) e x_lt = execute_type-IsSafe_immediate instr r x e x_lt instr.type t v
    by_payload (float_op mode register) e u =
        rw (execute_type-unsupported instr.type instr t u) refl

-- One round on a runnable instruction has no undefined behaviour: it gives a well-formed thread
-- again, or throws that the instruction is not supported.
pub execute-IsSafe :
    (instr : Instruction) (t : Thread) → IsRunnable instr → IsThread t → IsSafe (execute instr t)
unfolding execute get_next_program_counter
execute-IsSafe instr t r v =
    IsSafe-bind (execute_type instr.type instr counted) _
      (execute_type-IsSafe instr r counted
        (record { file = v.file; counter_lt = v.counter_lt; cycles_lt = omega arith }))
      (λ t' v'. record { file = v'.file; counter_lt = omega arith; cycles_lt = v'.cycles_lt })
  where
    counted : Thread
    counted = record t { cycle_counter = (t.cycle_counter + 1) % 2 ^ 64 }

abbrev pub IsSafeOutcome : Outcome → Type 0
IsSafeOutcome (finished t) = IsThread t
IsSafeOutcome (running t) = IsThread t
IsSafeOutcome (failed e) = e ≡ runtime_error unsupported_instruction
IsSafeOutcome faulted = ⊥

pub get_elem?-IsRunnable :
    (is : List Instruction) (i : ℕ) {instr : Instruction}
    → All IsRunnable is
    → get_elem? is i ≡ some instr
    → IsRunnable instr
get_elem?-IsRunnable [] i h e = absurd (cc)
get_elem?-IsRunnable (x ∷ is) zero h e = subst IsRunnable (cc) h.0
get_elem?-IsRunnable (x ∷ is) (suc i) h e = get_elem?-IsRunnable is i h.1 e

round-IsSafe :
    (is : List Instruction) (t : Thread)
    → All IsRunnable is
    → IsThread t
    → get_instruction_index t < length is
    → IsSafe (round is t)
unfolding round
round-IsSafe is t h v inside =
    let (instr, e) = get_elem?-in_range is (get_instruction_index t) inside in
    rw (round, e) (execute-IsSafe instr t (get_elem?-IsRunnable is (get_instruction_index t) h e) v)

go_on-IsSafe :
    (r : Result Thread) (loop : Thread → Outcome)
    → IsSafe r
    → ((t : Thread) → IsThread t → IsSafeOutcome (loop t))
    → IsSafeOutcome (go_on r loop)
go_on-IsSafe (ok t) loop s k = k t s
go_on-IsSafe (throw e) loop s k = s
go_on-IsSafe undefined loop s k = s

-- However many rounds are run over runnable instructions from a well-formed thread, no access is
-- out of range: the loop has finished or goes on with a well-formed thread, or has thrown that an
-- instruction is not supported.
pub run-IsSafe :
    (rounds : ℕ) (is : List Instruction) (t : Thread)
    → All IsRunnable is
    → IsThread t
    → IsSafeOutcome (run rounds is t)
unfolding run
run-IsSafe zero is t h v = elim (Bool-cases (ltb (get_instruction_index t) (length is))) [
  | inl e ↦ rw e v
  | inr e ↦ rw e v
]
run-IsSafe (suc rounds) is t h v = elim (Bool-cases (ltb (get_instruction_index t) (length is))) [
  | inl e ↦ rw e (
      go_on-IsSafe (round is t) (run rounds is) (round-IsSafe is t h v (ltb→lt _ _ e))
        (λ t' v'. run-IsSafe rounds is t' h v'))
  | inr e ↦ rw e v
]
