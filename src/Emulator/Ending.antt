-- ===== src/Emulator/Ending.antt =====
-- src/riscv/emulator.cpp: the loop of `Emulator::run` on programs whose jumps all go forward.
use simple_risc_v_emulator.Common.{
  ℕ, zero, suc, ◌+◌, ◌/◌, ◌%◌, ◌^◌, ◌≤◌, ◌<◌, ◌≡◌, ◌∙◌, refl, subst, arith,
}
use simple_risc_v_emulator.Common.{
  Bool, true, false, ltb, if◌then◌else◌, List, length, All, [], ◌∷◌,
}
use simple_risc_v_emulator.Common.{ok, ltb-false, lt→ltb, ltb→lt}
use simple_risc_v_emulator.Common.{
  get_elem?, Option, some, none, Bool-cases, inl, inr, ltb-false→le,
}
use simple_risc_v_emulator.Hart.{Thread, RegisterFile, get_instruction_index}
use simple_risc_v_emulator.Hart.Registers.{
  IsFile, get_register-defined, set_register_lem, get_elem?-in_range,
}
use simple_risc_v_emulator.Instruction.Types.{Instruction, InstructionType, immediate}
use simple_risc_v_emulator.Instruction.Types.{lui, auipc, jal, jalr, beq, bne, blt, bge, bltu, bgeu}
use simple_risc_v_emulator.Emulator.Execute.{execute, to_u64}
use simple_risc_v_emulator.Emulator.WellFormed.{IsThread, IsRunnable, IsUnsupported}
use simple_risc_v_emulator.Emulator.Safety.{IsSafe, execute-IsSafe}
use simple_risc_v_emulator.Emulator.Manual.{
  after_round, KeepsSource, jumps, target, result, write_result,
}
use simple_risc_v_emulator.Emulator.Control.{execute-manual}
use simple_risc_v_emulator.Emulator.Run.{finished, round, run}

-- The types whose next instruction lies behind, with an immediate that is not negative where it is
-- added to the program counter.
abbrev pub GoesForward : InstructionType → ℕ → Type 0
GoesForward lui x = Unit {0}
GoesForward auipc x = Unit {0}
GoesForward jal x = x < 2 ^ 31
GoesForward beq x = x < 2 ^ 31
GoesForward bne x = x < 2 ^ 31
GoesForward blt x = x < 2 ^ 31
GoesForward bge x = x < 2 ^ 31
GoesForward bltu x = x < 2 ^ 31
GoesForward bgeu x = x < 2 ^ 31
GoesForward _ x = ⊥

pub record IsForward (instr : Instruction) : Type 0 where
  pub value : ℕ
  pub payload : instr.payload ≡ immediate value
  pub value_lt : value < 2 ^ 32
  pub forward : GoesForward instr.type value
  pub runnable : IsRunnable instr

forward_supported : (type : InstructionType) (x : ℕ) → GoesForward type x → IsUnsupported type → ⊥
forward_supported lui x f u = u
forward_supported auipc x f u = u
forward_supported jal x f u = u
forward_supported beq x f u = u
forward_supported bne x f u = u
forward_supported blt x f u = u
forward_supported bge x f u = u
forward_supported bltu x f u = u
forward_supported bgeu x f u = u
forward_supported _ x f u = f

forward_keeps :
    (instr : Instruction) (type : InstructionType) (x : ℕ)
    → GoesForward type x
    → KeepsSource instr type
forward_keeps instr jalr x f = absurd f
forward_keeps instr _ x f = tt

jump_forward :
    (taken : Bool) (pc x : ℕ)
    → x < 2 ^ 31
    → pc / 4 < 2 ^ 61
    → pc / 4 < (if taken then ((pc + to_u64 x) % 2 ^ 64 + 4) % 2 ^ 64 else (pc + 4) % 2 ^ 64) / 4
jump_forward true pc x f h = rw (lt→ltb x (2 ^ 31) f) (omega arith)
jump_forward false pc x f h = omega arith

-- Where a round goes on: behind the instruction.
forward_counter :
    (type : InstructionType) (pc x a b : ℕ)
    → GoesForward type x
    → pc / 4 < 2 ^ 61
    → pc / 4
      < (if jumps type a b then (target type pc (to_u64 x) a + 4) % 2 ^ 64 else (pc + 4) % 2 ^ 64)
        / 4
forward_counter lui pc x a b f h = omega arith
forward_counter auipc pc x a b f h = omega arith
forward_counter jal pc x a b f h = jump_forward true pc x f h
forward_counter beq pc x a b f h = jump_forward (jumps beq a b) pc x f h
forward_counter bne pc x a b f h = jump_forward (jumps bne a b) pc x f h
forward_counter blt pc x a b f h = jump_forward (jumps blt a b) pc x f h
forward_counter bge pc x a b f h = jump_forward (jumps bge a b) pc x f h
forward_counter bltu pc x a b f h = jump_forward (jumps bltu a b) pc x f h
forward_counter bgeu pc x a b f h = jump_forward (jumps bgeu a b) pc x f h
forward_counter _ pc x a b f h = absurd f

some-lt : (a value : ℕ) → a < 2 ^ 64 → some a ≡ some value → value < 2 ^ 64
some-lt a value h e = subst (λ y. y < 2 ^ 64) (cc) h

result-lt :
    (type : InstructionType) (pc x value : ℕ)
    → x < 2 ^ 64
    → result type pc x ≡ some value
    → value < 2 ^ 64
result-lt lui pc x value h e = some-lt x value h e
result-lt auipc pc x value h e = some-lt ((pc + x) % 2 ^ 64) value (omega arith) e
result-lt jal pc x value h e = some-lt ((pc + 4) % 2 ^ 64) value (omega arith) e
result-lt jalr pc x value h e = some-lt ((pc + 4) % 2 ^ 64) value (omega arith) e
result-lt _ pc x value h e = absurd (cc)

written :
    (instr : Instruction) (value : Option ℕ) (file : RegisterFile)
    → IsFile file
    → instr.destination_register < 32
    → ((x : ℕ) → value ≡ some x → x < 2 ^ 64)
    → (file' : RegisterFile) × (write_result value instr file ≡ ok file')
written instr none file v h k = (file, refl)
written instr (some x) file v h k =
    let (file', e, good, same) =
      set_register_lem file instr.destination_register x v h (k x refl) in
    (file', e)

-- A round of a forward instruction comes to a later instruction.
execute-forward :
    (instr : Instruction) (t : Thread)
    → IsForward instr
    → IsThread t
    → get_instruction_index t < 2 ^ 61
    → (t' : Thread) × (execute instr t ≡ ok t')
      × (get_instruction_index t < get_instruction_index t')
      × IsThread t'
unfolding get_instruction_index
execute-forward instr t f v h =
    let x : ℕ = f.value in
    let r : IsRunnable instr = f.runnable in
    let (a, left, a_lt) = get_register-defined t.registers instr.source_register1 v.file r.rs1_lt in
    let (b, right, b_lt) =
      get_register-defined t.registers instr.source_register2 v.file r.rs2_lt in
    let (file, w) =
      written instr (result instr.type t.program_counter (to_u64 x)) t.registers v.file r.rd_lt
        (λ y e. result-lt instr.type t.program_counter (to_u64 x) y (ground arith) e) in
    let t' : Thread = after_round t file (
      if jumps instr.type a b
      then (target instr.type t.program_counter (to_u64 x) a + 4) % 2 ^ 64
      else (t.program_counter + 4) % 2 ^ 64) in
    let e : execute instr t ≡ ok t' =
      execute-manual instr t x a b f.payload left right v r
        (forward_supported instr.type x f.forward) (forward_keeps instr instr.type x f.forward)
      ∙ rw w in
    (
      t',
      e,
      forward_counter instr.type t.program_counter x a b f.forward h,
      subst IsSafe e (execute-IsSafe instr t r v),
    )

get_elem?-IsForward :
    (is : List Instruction) (i : ℕ) {instr : Instruction}
    → All IsForward is
    → get_elem? is i ≡ some instr
    → IsForward instr
get_elem?-IsForward [] i h e = absurd (cc)
get_elem?-IsForward (x ∷ is) zero h e = subst IsForward (cc) h.0
get_elem?-IsForward (x ∷ is) (suc i) h e = get_elem?-IsForward is i h.1 e

round-forward :
    (is : List Instruction) (t : Thread)
    → All IsForward is
    → IsThread t
    → length is < 2 ^ 61
    → get_instruction_index t < length is
    → (t' : Thread) × (round is t ≡ ok t')
      × (get_instruction_index t < get_instruction_index t')
      × IsThread t'
unfolding round
round-forward is t h v short inside =
    let (instr, e) = get_elem?-in_range is (get_instruction_index t) inside in
    let (t', x, later, v') =
      execute-forward instr t (get_elem?-IsForward is (get_instruction_index t) h e) v
        (omega arith) in
    (t', rw e x, later, v')

-- The loop comes to an end on every program of fewer than 2^61 instructions, all of the nine
-- supported types without `JALR`, whose jumps have immediates that are not negative: as many
-- rounds as there are instructions left are enough to leave the loop without an exception, with a
-- well-formed thread behind the last instruction.
pub run-forward :
    (rounds : ℕ) (is : List Instruction) (t : Thread)
    → All IsForward is
    → IsThread t
    → length is < 2 ^ 61
    → length is ≤ get_instruction_index t + rounds
    → (t' : Thread) × (run rounds is t ≡ finished t')
      × (length is ≤ get_instruction_index t')
      × IsThread t'
unfolding run
run-forward zero is t h v short enough =
    (t, rw (ltb-false (get_instruction_index t) (length is) (omega arith)), omega arith, v)
run-forward (suc rounds) is t h v short enough =
    elim (Bool-cases (ltb (get_instruction_index t) (length is))) [
      | inl inside ↦
          let (t', e, later, v') = round-forward is t h v short (ltb→lt _ _ inside) in
          let (last, ends, behind, good) = run-forward rounds is t' h v' short (omega arith) in
          (last, rw (inside, e) ends, behind, good)
      | inr outside ↦ (t, rw outside, ltb-false→le _ _ outside, v)
    ]
