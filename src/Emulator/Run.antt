-- ===== src/Emulator/Run.antt =====
-- src/riscv/emulator.cpp: the loop of `Emulator::run`. It need not end, so it takes a number of
-- rounds; `running` means that they are used up.
use simple_risc_v_emulator.Common.{ℕ, zero, suc, List, length, get_elem?, ltb, if◌then◌else◌}
use simple_risc_v_emulator.Common.{Exception, Result, ok, throw, undefined, defined, ◌>>=◌}
use simple_risc_v_emulator.Hart.{Thread, get_instruction_index}
use simple_risc_v_emulator.Instruction.Types.{Instruction}
use simple_risc_v_emulator.Emulator.Execute.{execute}

pub data Outcome : Type 0 where
  finished : Thread → Outcome
  failed : Exception → Outcome
  faulted : Outcome
  running : Thread → Outcome

-- What follows a round: the loop's next round, or its end by an exception.
abbrev pub go_on : Result Thread → (Thread → Outcome) → Outcome
go_on (ok t) loop = loop t
go_on (throw e) loop = failed e
go_on undefined loop = faulted

-- `instructions[t.getInstructionIndex()]` within the vector.
abbrev pub fetch : List Instruction → Thread → Result Instruction
fetch instructions t = defined (get_elem? instructions (get_instruction_index t))

-- A round whose loop condition holds.
unfoldable pub round : List Instruction → Thread → Result Thread
round instructions t = fetch instructions t >>= λ instr. execute instr t

unfoldable pub run : ℕ → List Instruction → Thread → Outcome
run zero instructions t =
    if ltb (get_instruction_index t) (length instructions) then running t else finished t
run (suc rounds) instructions t =
    let next = go_on (round instructions t) (run rounds instructions) in
    if ltb (get_instruction_index t) (length instructions) then next else finished t
