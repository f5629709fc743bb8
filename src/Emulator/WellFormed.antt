-- ===== src/Emulator/WellFormed.antt =====
-- Well-formed threads and the instructions that `Emulator::run` can read, and the types that its
-- switch does not have.
use simple_risc_v_emulator.Common.{◌^◌, ◌<◌, ◌≡◌, refl}
use simple_risc_v_emulator.Common.{throw}
use simple_risc_v_emulator.Common.{runtime_error, unsupported_instruction}
use simple_risc_v_emulator.Hart.{Thread}
use simple_risc_v_emulator.Hart.Registers.{IsFile}
use simple_risc_v_emulator.Instruction.Types.{
  Instruction, InstructionType, Payload, immediate, float_op,
}
use simple_risc_v_emulator.Instruction.Types.{lui, auipc, jal, jalr, beq, bne, blt, bge, bltu, bgeu}
use simple_risc_v_emulator.Emulator.Execute.{execute_type}

pub record IsThread (t : Thread) : Type 0 where
  pub file : IsFile t.registers
  pub counter_lt : t.program_counter < 2 ^ 64
  pub cycles_lt : t.cycle_counter < 2 ^ 64

-- The types without a case in the switch of `run`.
abbrev pub IsUnsupported : InstructionType → Type 0
IsUnsupported lui = ⊥
IsUnsupported auipc = ⊥
IsUnsupported jal = ⊥
IsUnsupported jalr = ⊥
IsUnsupported beq = ⊥
IsUnsupported bne = ⊥
IsUnsupported blt = ⊥
IsUnsupported bge = ⊥
IsUnsupported bltu = ⊥
IsUnsupported bgeu = ⊥
IsUnsupported _ = Unit {0}

abbrev pub PayloadFits : Payload → InstructionType → Type 0
PayloadFits (immediate x) t = x < 2 ^ 32
PayloadFits (float_op mode register) t = IsUnsupported t

-- Register indices below 32, and an `int32_t` immediate where `run` reads one.
pub record IsRunnable (instr : Instruction) : Type 0 where
  pub rd_lt : instr.destination_register < 32
  pub rs1_lt : instr.source_register1 < 32
  pub rs2_lt : instr.source_register2 < 32
  pub payload_fits : PayloadFits instr.payload instr.type

-- A type without a case throws, whatever the payload.
pub execute_type-unsupported :
    (type : InstructionType) (instr : Instruction) (t : Thread)
    → IsUnsupported type
    → execute_type type instr t ≡ throw (runtime_error unsupported_instruction)
unfolding execute_type
execute_type-unsupported lui instr t u = absurd u
execute_type-unsupported auipc instr t u = absurd u
execute_type-unsupported jal instr t u = absurd u
execute_type-unsupported jalr instr t u = absurd u
execute_type-unsupported beq instr t u = absurd u
execute_type-unsupported bne instr t u = absurd u
execute_type-unsupported blt instr t u = absurd u
execute_type-unsupported bge instr t u = absurd u
execute_type-unsupported bltu instr t u = absurd u
execute_type-unsupported bgeu instr t u = absurd u
execute_type-unsupported _ instr t u = refl
