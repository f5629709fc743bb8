-- ===== src/Emulator/Decoded/Types.antt =====
-- src/riscv/instruction.cpp: the types that the decoders choose, on any fields.
use simple_risc_v_emulator.Common.{ℕ, arith}
use simple_risc_v_emulator.Common.{Bool}
use simple_risc_v_emulator.Instruction.Types.{InstructionType}
use simple_risc_v_emulator.Instruction.Integer.{
  branch_type, load_type, store_type, op_type, op32_type,
}
use simple_risc_v_emulator.Instruction.System.{
  system_type, amo_word_type, amo_double_type, amo_type,
}
use simple_risc_v_emulator.Instruction.Floating.{
  load_fp_type, store_fp_type, fused_type, op_fp_type,
}
use simple_risc_v_emulator.Emulator.WellFormed.{IsUnsupported}
use simple_risc_v_emulator.Emulator.Decoded.Parts.{Gives}

-- Any type of instruction.
abbrev pub Some : InstructionType → Type 0
Some t = Unit {0}

pub branch_type-Gives : (encoded f3 : ℕ) → Gives Some (branch_type encoded f3)
unfolding branch_type
branch_type-Gives encoded f3 = ground arith

pub load_type-Gives : (encoded f3 : ℕ) → Gives Some (load_type encoded f3)
unfolding load_type
load_type-Gives encoded f3 = ground arith

pub store_type-Gives : (encoded f3 : ℕ) → Gives Some (store_type encoded f3)
unfolding store_type
store_type-Gives encoded f3 = ground arith

pub op_type-Gives :
    (encoded : ℕ) (t : InstructionType) (f7 f3 : ℕ) → Gives Some (op_type encoded t f7 f3)
unfolding op_type
op_type-Gives encoded t f7 f3 = ground arith

pub op32_type-Gives : (encoded f7 f3 : ℕ) → Gives Some (op32_type encoded f7 f3)
unfolding op32_type
op32_type-Gives encoded f7 f3 = ground arith

pub system_type-Gives : (encoded value f3 : ℕ) → Gives Some (system_type encoded value f3)
unfolding system_type
system_type-Gives encoded value f3 = ground arith

pub amo_type-Gives : (encoded f5 f3 : ℕ) → Gives Some (amo_type encoded f5 f3)
unfolding amo_type amo_word_type amo_double_type
amo_type-Gives encoded f5 f3 = ground arith

pub load_fp_type-Gives : (encoded f3 : ℕ) → Gives Some (load_fp_type encoded f3)
unfolding load_fp_type
load_fp_type-Gives encoded f3 = ground arith

pub store_fp_type-Gives : (encoded f3 : ℕ) → Gives Some (store_fp_type encoded f3)
unfolding store_fp_type
store_fp_type-Gives encoded f3 = ground arith

pub fused_type-Gives : (encoded f2 opcode : ℕ) → Gives IsUnsupported (fused_type encoded f2 opcode)
unfolding fused_type
fused_type-Gives encoded f2 opcode = ground arith

pub op_fp_type-Gives :
    (encoded : ℕ) (s : Bool) (rs2 f7 f3 : ℕ) → Gives IsUnsupported (op_fp_type encoded s rs2 f7 f3)
unfolding op_fp_type
op_fp_type-Gives encoded s rs2 f7 f3 = ground arith
