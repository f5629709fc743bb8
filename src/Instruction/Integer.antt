-- ===== src/Instruction/Integer.antt =====
-- src/riscv/instruction.cpp: branches, loads, stores and integer arithmetic.
use simple_risc_v_emulator.Common.{ℕ, ◌==◌, if◌then◌else◌, Result, ok, throw, ◌>>=◌}
use simple_risc_v_emulator.Common.{unknown_instruction}
use simple_risc_v_emulator.Common.{
  branch_class, load_class, store_class, op_imm32_class, op_class, op32_class,
}
use simple_risc_v_emulator.Bits.{has_bit, clear_bit}
use simple_risc_v_emulator.Instruction.Types.{Instruction, InstructionType, immediate}
use simple_risc_v_emulator.Instruction.Types.{read_immediate}
use simple_risc_v_emulator.Instruction.Types.{beq, bne, blt, bge, bltu, bgeu, lb, lh, lw, lbu}
use simple_risc_v_emulator.Instruction.Types.{lhu, lwu, ld, sb, sh, sw, sd, srai, srli, sraiw}
use simple_risc_v_emulator.Instruction.Types.{
  srliw, addi, slli, slti, sltiu, xori, ori, andi, addiw, slliw,
}
use simple_risc_v_emulator.Instruction.Types.{add, sll, slt, sltu, xor, srl, or, and, sub, sra}
use simple_risc_v_emulator.Instruction.Types.{
  mul, mulh, mulhsu, mulhu, div, divu, rem, remu, addw, sllw,
}
use simple_risc_v_emulator.Instruction.Types.{srlw, subw, sraw, mulw, divw, divuw, remw, remuw}
use simple_risc_v_emulator.Instruction.Fields.{
  read_fields_r, read_fields_i, read_fields_s, read_fields_b,
}

-- The switch of each decoder is a function from the function code to the type.
unfoldable pub branch_type : ℕ → ℕ → Result InstructionType
branch_type encoded funct3 =
    if funct3 == 0b000
    then ok beq
    else if funct3 == 0b001
    then ok bne
    else if funct3 == 0b100
    then ok blt
    else if funct3 == 0b101
    then ok bge
    else if funct3 == 0b110
    then ok bltu
    else if funct3 == 0b111
    then ok bgeu
    else throw (unknown_instruction encoded branch_class)

unfoldable pub decode_branch : ℕ → Instruction → Result Instruction
decode_branch encoded instr = do
  let fields = read_fields_b encoded instr
  type ← branch_type encoded fields.funct3
  ok (record fields.instr { type = type })

unfoldable pub load_type : ℕ → ℕ → Result InstructionType
load_type encoded funct3 =
    if funct3 == 0b000
    then ok lb
    else if funct3 == 0b001
    then ok lh
    else if funct3 == 0b010
    then ok lw
    else if funct3 == 0b100
    then ok lbu
    else if funct3 == 0b101
    then ok lhu
    else if funct3 == 0b110
    then ok lwu
    else if funct3 == 0b011
    then ok ld
    else throw (unknown_instruction encoded load_class)

unfoldable pub decode_load : ℕ → Instruction → Result Instruction
decode_load encoded instr = do
  let fields = read_fields_i encoded instr
  type ← load_type encoded fields.funct3
  ok (record fields.instr { type = type })

unfoldable pub store_type : ℕ → ℕ → Result InstructionType
store_type encoded funct3 =
    if funct3 == 0b000
    then ok sb
    else if funct3 == 0b001
    then ok sh
    else if funct3 == 0b010
    then ok sw
    else if funct3 == 0b011
    then ok sd
    else throw (unknown_instruction encoded store_class)

unfoldable pub decode_store : ℕ → Instruction → Result Instruction
decode_store encoded instr = do
  let fields = read_fields_s encoded instr
  type ← store_type encoded fields.funct3
  ok (record fields.instr { type = type })

-- `case 0b101`: bit 10 of the immediate tells the shifts to the right apart.
unfoldable pub shift_right_immediate :
    InstructionType → InstructionType → Instruction → Result Instruction
shift_right_immediate arithmetic logical instr = do
  value ← read_immediate instr
  if has_bit value 10
      then ok (record instr { payload = immediate (clear_bit 32 value 10); type = arithmetic })
      else ok (record instr { type = logical })

-- The switch of each of the next two decoders writes into the instruction itself.
unfoldable pub op_imm_switch : ℕ → Instruction → Result Instruction
unfolding shift_right_immediate
op_imm_switch funct3 instr =
    if funct3 == 0b000
    then ok (record instr { type = addi })
    else if funct3 == 0b001
    then ok (record instr { type = slli })
    else if funct3 == 0b010
    then ok (record instr { type = slti })
    else if funct3 == 0b011
    then ok (record instr { type = sltiu })
    else if funct3 == 0b100
    then ok (record instr { type = xori })
    else if funct3 == 0b101
    then shift_right_immediate srai srli instr
    else if funct3 == 0b110
    then ok (record instr { type = ori })
    else if funct3 == 0b111
    then ok (record instr { type = andi })
    else ok instr

unfoldable pub decode_op_imm : ℕ → Instruction → Result Instruction
decode_op_imm encoded instr =
    let fields = read_fields_i encoded instr in op_imm_switch fields.funct3 fields.instr

unfoldable pub op_imm32_switch : ℕ → ℕ → Instruction → Result Instruction
unfolding shift_right_immediate
op_imm32_switch encoded funct3 instr =
    if funct3 == 0b000
    then ok (record instr { type = addiw })
    else if funct3 == 0b001
    then ok (record instr { type = slliw })
    else if funct3 == 0b101
    then shift_right_immediate sraiw srliw instr
    else throw (unknown_instruction encoded op_imm32_class)

unfoldable pub decode_op_imm32 : ℕ → Instruction → Result Instruction
decode_op_imm32 encoded instr =
    let fields = read_fields_i encoded instr in op_imm32_switch encoded fields.funct3 fields.instr

-- A switch over all eight codes has no default: another code would leave the type unchanged.
unfoldable pub op_type : ℕ → InstructionType → ℕ → ℕ → Result InstructionType
op_type encoded unchanged funct7 funct3 =
    if funct7 == 0b0000000
    then (if funct3 == 0b000
        then ok add
        else if funct3 == 0b001
        then ok sll
        else if funct3 == 0b010
        then ok slt
        else if funct3 == 0b011
        then ok sltu
        else if funct3 == 0b100
        then ok xor
        else if funct3 == 0b101
        then ok srl
        else if funct3 == 0b110
        then ok or
        else if funct3 == 0b111
        then ok and
        else ok unchanged)
    else if funct7 == 0b0100000
    then (if funct3 == 0b000
        then ok sub
        else if funct3 == 0b101
        then ok sra
        else throw (unknown_instruction encoded op_class))
    else if funct7 == 0b0000001
    then (if funct3 == 0b000
        then ok mul
        else if funct3 == 0b001
        then ok mulh
        else if funct3 == 0b010
        then ok mulhsu
        else if funct3 == 0b011
        then ok mulhu
        else if funct3 == 0b100
        then ok div
        else if funct3 == 0b101
        then ok divu
        else if funct3 == 0b110
        then ok rem
        else if funct3 == 0b111
        then ok remu
        else ok unchanged)
    else throw (unknown_instruction encoded op_class)

unfoldable pub decode_op : ℕ → Instruction → Result Instruction
decode_op encoded instr = do
  let fields = read_fields_r encoded instr
  type ← op_type encoded instr.type fields.funct7 fields.funct3
  ok (record fields.instr { type = type })

unfoldable pub op32_type : ℕ → ℕ → ℕ → Result InstructionType
op32_type encoded funct7 funct3 =
    if funct7 == 0b0000000
    then (if funct3 == 0b000
        then ok addw
        else if funct3 == 0b001
        then ok sllw
        else if funct3 == 0b101
        then ok srlw
        else throw (unknown_instruction encoded op32_class))
    else if funct7 == 0b0100000
    then (if funct3 == 0b000
        then ok subw
        else if funct3 == 0b101
        then ok sraw
        else throw (unknown_instruction encoded op32_class))
    else if funct7 == 0b0000001
    then (if funct3 == 0b000
        then ok mulw
        else if funct3 == 0b100
        then ok divw
        else if funct3 == 0b101
        then ok divuw
        else if funct3 == 0b110
        then ok remw
        else if funct3 == 0b111
        then ok remuw
        else throw (unknown_instruction encoded op32_class))
    else throw (unknown_instruction encoded op32_class)

unfoldable pub decode_op32 : ℕ → Instruction → Result Instruction
decode_op32 encoded instr = do
  let fields = read_fields_r encoded instr
  type ← op32_type encoded fields.funct7 fields.funct3
  ok (record fields.instr { type = type })
