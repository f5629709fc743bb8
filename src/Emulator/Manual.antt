-- ===== src/Emulator/Manual.antt =====
-- The instruction set manual on the supported instructions: when one jumps and where to, and what
-- it writes.
use simple_risc_v_emulator.Common.{ℕ, ◌+◌, ◌*◌, ◌/◌, ◌%◌, ◌^◌, ◌≡◌, ◌≢◌}
use simple_risc_v_emulator.Common.{Bool, true, false, not, ltb, ltb_ℤ, signed, ◌==◌}
use simple_risc_v_emulator.Common.{Result, ok, ◌⊎◌, Option, some, none}
use simple_risc_v_emulator.Common.{ℤ, pos_part, neg_part, leb}
use simple_risc_v_emulator.Hart.{Thread, RegisterFile, set_register}
use simple_risc_v_emulator.Instruction.Types.{Instruction, InstructionType}
use simple_risc_v_emulator.Instruction.Types.{lui, auipc, jal, jalr, beq, bne, blt, bge, bltu, bgeu}

abbrev leb_ℤ : ℤ → ℤ → Bool
leb_ℤ a b = leb (pos_part a + neg_part b) (pos_part b + neg_part a)

-- Whether the manual makes the instruction jump, on the values of its two sources.
abbrev pub jumps : InstructionType → ℕ → ℕ → Bool
jumps jal a b = true
jumps jalr a b = true
jumps beq a b = a == b
jumps bne a b = not (a == b)
jumps blt a b = ltb_ℤ (signed 64 a) (signed 64 b)
jumps bge a b = leb_ℤ (signed 64 b) (signed 64 a)
jumps bltu a b = ltb a b
jumps bgeu a b = leb b a
jumps _ a b = false

-- Where it jumps to, with the immediate `x` extended to 64 bits.
abbrev pub target : InstructionType → ℕ → ℕ → ℕ → ℕ
target jalr pc x a = (a + x) % 2 ^ 64 / 2 * 2
target _ pc x a = (pc + x) % 2 ^ 64

-- What it writes to its destination register.
abbrev pub result : InstructionType → ℕ → ℕ → Option ℕ
result lui pc x = some x
result auipc pc x = some ((pc + x) % 2 ^ 64)
result jal pc x = some ((pc + 4) % 2 ^ 64)
result jalr pc x = some ((pc + 4) % 2 ^ 64)
result _ pc x = none

abbrev pub write_result : Option ℕ → Instruction → RegisterFile → Result RegisterFile
write_result none instr file = ok file
write_result (some value) instr file = set_register file instr.destination_register value

-- The thread after one round: the cycle is counted.
abbrev pub after_round : Thread → RegisterFile → ℕ → Thread
after_round t file pc = record t {
  registers = file;
  cycle_counter = (t.cycle_counter + 1) % 2 ^ 64;
  program_counter = pc;
}

-- The source of `JALR` is not overwritten before it is read.
abbrev pub KeepsSource : Instruction → InstructionType → Type 0
KeepsSource instr jalr =
    (instr.destination_register ≡ 0) ⊎ (instr.destination_register ≢ instr.source_register1)
KeepsSource instr _ = Unit {0}
