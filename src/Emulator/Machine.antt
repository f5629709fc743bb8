-- ===== src/Emulator/Machine.antt =====
-- A machine after the instruction set manual, on the supported instructions, with the departures of
-- src/riscv/emulator.cpp as arguments; its registers are a function.
use simple_risc_v_emulator.Common.{ℕ, zero, suc, ◌+◌, ◌/◌, ◌%◌, ◌^◌, ◌<◌, ◌≡◌}
use simple_risc_v_emulator.Common.{Bool, true, false, ◌==◌, ltb, if◌then◌else◌}
use simple_risc_v_emulator.Common.{List, length, get_elem?, Option, none, some, ok}
use simple_risc_v_emulator.Common.{runtime_error, unsupported_instruction}
use simple_risc_v_emulator.Hart.{Thread, get_register, register_count}
use simple_risc_v_emulator.Instruction.Types.{
  Instruction, InstructionType, Payload, immediate, float_op,
}
use simple_risc_v_emulator.Instruction.Types.{lui, auipc, jal, jalr, beq, bne, blt, bge, bltu, bgeu}
use simple_risc_v_emulator.Emulator.Execute.{to_u64}
use simple_risc_v_emulator.Emulator.Manual.{jumps, target, result}
use simple_risc_v_emulator.Emulator.Run.{Outcome, finished, failed, faulted, running}
pub mod Written
pub mod Steps
pub mod Refinement

pub record Machine : Type 0 where
  pub registers : ℕ → ℕ
  pub counter : ℕ
  pub cycles : ℕ

-- How a number of its steps ends: behind the program, at an instruction that it does not have, or
-- before the next step.
pub data Ending : Type 0 where
  halted going : Machine → Ending
  refused : Ending

abbrev pub is_supported : InstructionType → Bool
is_supported lui = true
is_supported auipc = true
is_supported jal = true
is_supported jalr = true
is_supported beq = true
is_supported bne = true
is_supported blt = true
is_supported bge = true
is_supported bltu = true
is_supported bgeu = true
is_supported _ = false

abbrev pub immediate_of : Payload → ℕ
immediate_of (immediate x) = to_u64 x
immediate_of (float_op mode register) = 0

-- x0 stays as it is.
abbrev pub write : ℕ → Option ℕ → (ℕ → ℕ) → ℕ → ℕ
write rd none registers j = registers j
write rd (some value) registers j =
    if rd == 0 then registers j else if rd == j then value else registers j

-- A jump that is taken slips by a number of bytes; `JALR` may write the return address before it
-- reads its source.
pub record Departures : Type 0 where
  pub slip : ℕ
  pub links_first : Bool

abbrev pub manual : Departures
manual = record { slip = 0; links_first = false }

abbrev pub emulator : Departures
emulator = record { slip = 4; links_first = true }

abbrev pub step : Departures → Instruction → Machine → Machine
step d instr m =
    let x = immediate_of instr.payload in
    let rs1 = instr.source_register1 in
    let written = write instr.destination_register (result instr.type m.counter x) m.registers in
    let source = if d.links_first then written rs1 else m.registers rs1 in
    record {
      registers = written;
      counter =
          if jumps instr.type (m.registers rs1) (m.registers instr.source_register2)
          then (target instr.type m.counter x source + d.slip) % 2 ^ 64
          else (m.counter + 4) % 2 ^ 64;
      cycles = (m.cycles + 1) % 2 ^ 64;
    }

-- The instruction at the program counter, if the machine has it.
abbrev pub steps_from : Departures → Option Instruction → Machine → (Machine → Ending) → Ending
steps_from d none m rest = halted m
steps_from d (some instr) m rest =
    let after = rest (step d instr m) in if is_supported instr.type then after else refused

unfoldable pub machine_run : Departures → ℕ → List Instruction → Machine → Ending
machine_run d zero program m = if ltb (m.counter / 4) (length program) then going m else halted m
machine_run d (suc steps) program m =
    steps_from d (get_elem? program (m.counter / 4)) m (machine_run d steps program)

-- The thread holds the machine's state.
pub record Represents (t : Thread) (m : Machine) : Type 0 where
  pub registers : (j : ℕ) → j < register_count → get_register t.registers j ≡ ok (m.registers j)
  pub counter : t.program_counter ≡ m.counter
  pub cycles : t.cycle_counter ≡ m.cycles

-- The loop ends as the machine does.
abbrev pub IsRefined : Outcome → Ending → Type 0
IsRefined (finished t) (halted m) = Represents t m
IsRefined (running t) (going m) = Represents t m
IsRefined (failed e) refused = e ≡ runtime_error unsupported_instruction
IsRefined _ _ = ⊥
