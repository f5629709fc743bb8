-- ===== src/Instruction/Decode.antt =====
-- src/riscv/instruction.cpp: `Opcode`, `decodeInstruction` and `decodeInstructions`.
use simple_risc_v_emulator.Common.{
  ℕ, ◌%◌, ◌==◌, ◌||◌, if◌then◌else◌, Bool, not, bit_and, List, [], ◌∷◌, ◌++◌,
}
use simple_risc_v_emulator.Common.{length, Result, ok, throw, undefined, ◌>>=◌, ◌>>◌, throw_if}
use simple_risc_v_emulator.Common.{unknown_instruction, unknown_class, runtime_error}
use simple_risc_v_emulator.Common.{size_not_divisible, compressed_unsupported}
use simple_risc_v_emulator.Memory.{Endian, load_u32}
use simple_risc_v_emulator.Instruction.Types.{Instruction, empty_instruction, lui, auipc, jal, jalr}
use simple_risc_v_emulator.Instruction.Fields.{
  get_opcode, read_fields_i, read_fields_u, read_fields_j,
}
use simple_risc_v_emulator.Instruction.Integer.{
  decode_branch, decode_load, decode_store, decode_op_imm,
}
use simple_risc_v_emulator.Instruction.Integer.{decode_op_imm32, decode_op, decode_op32}
use simple_risc_v_emulator.Instruction.System.{decode_misc_mem, decode_system, decode_amo}
use simple_risc_v_emulator.Instruction.Floating.{decode_load_fp, decode_store_fp, decode_op_fp}
use simple_risc_v_emulator.Instruction.Floating.{decode_fp_fused_multiply_add}
use simple_risc_v_emulator.Instruction.Floating.{
  madd_opcode, msub_opcode, nmsub_opcode, nmadd_opcode,
}

-- The other enumerators of `Opcode` with a case in `decodeInstruction`.
abbrev pub load_opcode : ℕ
load_opcode = 0b0000011

abbrev pub load_fp_opcode : ℕ
load_fp_opcode = 0b0000111

abbrev pub misc_mem_opcode : ℕ
misc_mem_opcode = 0b0001111

abbrev pub op_imm_opcode : ℕ
op_imm_opcode = 0b0010011

abbrev pub auipc_opcode : ℕ
auipc_opcode = 0b0010111

abbrev pub op_imm32_opcode : ℕ
op_imm32_opcode = 0b0011011

abbrev pub store_opcode : ℕ
store_opcode = 0b0100011

abbrev pub store_fp_opcode : ℕ
store_fp_opcode = 0b0100111

abbrev pub amo_opcode : ℕ
amo_opcode = 0b0101111

abbrev pub op_opcode : ℕ
op_opcode = 0b0110011

abbrev pub lui_opcode : ℕ
lui_opcode = 0b0110111

abbrev pub op32_opcode : ℕ
op32_opcode = 0b0111011

abbrev pub op_fp_opcode : ℕ
op_fp_opcode = 0b1010011

abbrev pub branch_opcode : ℕ
branch_opcode = 0b1100011

abbrev pub jalr_opcode : ℕ
jalr_opcode = 0b1100111

abbrev pub jal_opcode : ℕ
jal_opcode = 0b1101111

abbrev pub system_opcode : ℕ
system_opcode = 0b1110011

-- The argument `opcode` is the one that `decodeInstruction` reads.
unfoldable pub decode_by_opcode : ℕ → ℕ → Instruction → Result Instruction
decode_by_opcode opcode encoded instr =
    if opcode == lui_opcode
    then ok (record (read_fields_u encoded instr) { type = lui })
    else if opcode == auipc_opcode
    then ok (record (read_fields_u encoded instr) { type = auipc })
    else if opcode == jal_opcode
    then ok (record (read_fields_j encoded instr) { type = jal })
    else if opcode == jalr_opcode
    then ok (record ((read_fields_i encoded instr).instr) { type = jalr })
    else if opcode == branch_opcode
    then decode_branch encoded instr
    else if opcode == load_opcode
    then decode_load encoded instr
    else if opcode == store_opcode
    then decode_store encoded instr
    else if opcode == op_imm_opcode
    then decode_op_imm encoded instr
    else if opcode == op_imm32_opcode
    then decode_op_imm32 encoded instr
    else if opcode == op_opcode
    then decode_op encoded instr
    else if opcode == op32_opcode
    then decode_op32 encoded instr
    else if opcode == misc_mem_opcode
    then decode_misc_mem encoded instr
    else if opcode == system_opcode
    then decode_system encoded instr
    else if opcode == amo_opcode
    then decode_amo encoded instr
    else if opcode == load_fp_opcode
    then decode_load_fp encoded instr
    else if opcode == store_fp_opcode
    then decode_store_fp encoded instr
    else if opcode == madd_opcode
        || opcode == msub_opcode
        || opcode == nmadd_opcode
        || opcode == nmsub_opcode
    then decode_fp_fused_multiply_add encoded opcode instr
    else if opcode == op_fp_opcode
    then decode_op_fp encoded instr
    else throw (unknown_instruction encoded unknown_class)

unfoldable pub decode_instruction : Instruction → ℕ → Result Instruction
unfolding decode_by_opcode
decode_instruction instr encoded = decode_by_opcode (get_opcode encoded) encoded instr

unfoldable pub is_encoding_compressed : ℕ → Bool
is_encoding_compressed lowest_byte = not (bit_and lowest_byte 0b11 == 0b11)

-- The loop of `decodeInstructions`. The list is the program from `programOffset` on; the size was
-- found divisible by four, so the last clause, a load past the end, is not reached.
unfoldable pub decode_loop : Endian → List ℕ → List Instruction → Result (List Instruction)
unfolding is_encoding_compressed
decode_loop native [] instructions = ok instructions
decode_loop native (b0 ∷ b1 ∷ b2 ∷ b3 ∷ rest) instructions =
    if is_encoding_compressed b0 then throw (runtime_error compressed_unsupported) else (do
      encoded ← load_u32 native (b0 ∷ b1 ∷ b2 ∷ b3 ∷ rest)
      instruction ← decode_instruction empty_instruction encoded
      decode_loop native rest (instructions ++ (instruction ∷ [])))
decode_loop native _ instructions = undefined

unfoldable pub decode_instructions : Endian → List ℕ → Result (List Instruction)
unfolding decode_loop
decode_instructions native program = do
  throw_if (not (length program % 4 == 0)) (runtime_error (size_not_divisible (length program)))
  decode_loop native program []
