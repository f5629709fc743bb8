-- ===== src/Emulator/Machine/Refinement.antt =====
-- src/riscv/emulator.cpp: `Emulator::run` against the machine of the instruction set manual.
use simple_risc_v_emulator.Common.{ℕ, zero, suc, ◌/◌, ◌≤◌, ◌≡◌, ◌∙◌, ap, refl, sym, subst, arith}
use simple_risc_v_emulator.Common.{Bool, ltb, Bool-cases}
use simple_risc_v_emulator.Common.{List, [], ◌∷◌, All, length, get_elem?, Option, none}
use simple_risc_v_emulator.Common.{inl, inr, ltb→lt, ltb-false→le}
use simple_risc_v_emulator.Hart.{Thread, get_instruction_index}
use simple_risc_v_emulator.Hart.Registers.{get_elem?-in_range}
use simple_risc_v_emulator.Instruction.Types.{Instruction}
use simple_risc_v_emulator.Emulator.WellFormed.{IsThread, IsRunnable}
use simple_risc_v_emulator.Emulator.Safety.{get_elem?-IsRunnable, IsSafe, execute-IsSafe}
use simple_risc_v_emulator.Emulator.Run.{run, round}
use simple_risc_v_emulator.Emulator.Machine.{
  emulator, Machine, step, machine_run, Represents, IsRefined,
}
use simple_risc_v_emulator.Emulator.Machine.Steps.{execute-cases}

get_elem?-outside : (is : List Instruction) (i : ℕ) → length is ≤ i → get_elem? is i ≡ none
get_elem?-outside [] i h = refl
get_elem?-outside (x ∷ is) zero h = absurd (omega arith)
get_elem?-outside (x ∷ is) (suc i) h = get_elem?-outside is i (omega arith)

-- However many rounds are run over runnable instructions from a well-formed thread that holds a
-- machine's state, the loop ends as the machine of the manual does with two departures: a taken jump
-- goes on four bytes behind its target, and `JALR` writes the return address before it reads its
-- source. The loop has left the program or goes on, with the machine's registers, program counter
-- and count of cycles, or it throws that an instruction is not supported where the machine refuses
-- one.
pub run-machine_run :
    (rounds : ℕ) (program : List Instruction) (t : Thread) (m : Machine)
    → All IsRunnable program
    → IsThread t
    → Represents t m
    → IsRefined (run rounds program t) (machine_run emulator rounds program m)
unfolding run round machine_run get_instruction_index
run-machine_run zero program t m h v same =
    elim (Bool-cases (ltb (t.program_counter / 4) (length program))) [
      | inl e ↦ rw (e, moved e) same
      | inr e ↦ rw (e, moved e) same
    ]
  where
    moved :
        {b : Bool}
        → ltb (t.program_counter / 4) (length program) ≡ b
        → ltb (m.counter / 4) (length program) ≡ b
    moved e = ap (λ (n : ℕ). ltb (n / 4) (length program)) (sym same.counter) ∙ e
run-machine_run (suc rounds) program t m h v same =
    elim (Bool-cases (ltb (t.program_counter / 4) (length program))) [
      | inr e ↦ rw (e, there (get_elem?-outside program _ (ltb-false→le _ _ e))) same
      | inl e ↦
          let (instr, got) = get_elem?-in_range program (t.program_counter / 4) (ltb→lt _ _ e) in
          let runnable = get_elem?-IsRunnable program (t.program_counter / 4) h got in
          elim (execute-cases instr t m runnable v same) [
            | inr (unknown, thrown) ↦ rw (e, there got, got, unknown, thrown) refl
            | inl (known, (t', done, same')) ↦
                rw (e, there got, got, known, done)
                  (run-machine_run rounds program t' (step emulator instr m) h
                    (subst IsSafe done (execute-IsSafe instr t runnable v)) same')
          ]
    ]
  where
    there :
        {found : Option Instruction}
        → get_elem? program (t.program_counter / 4) ≡ found
        → get_elem? program (m.counter / 4) ≡ found
    there e = ap (λ (n : ℕ). get_elem? program (n / 4)) (sym same.counter) ∙ e
