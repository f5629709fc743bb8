-- ===== src/Instruction/Floating.antt =====
-- src/riscv/instruction.cpp: floating-point loads, stores and arithmetic.
use simple_risc_v_emulator.Common.{ℕ, ◌/◌, ◌^◌, ◌==◌, if◌then◌else◌, Result, ok, throw, ◌>>=◌}
use simple_risc_v_emulator.Common.{Bool, not, bit_and, some, none}
use simple_risc_v_emulator.Common.{unknown_instruction, unknown_instruction_pointer}
use simple_risc_v_emulator.Common.{
  load_fp_class, store_fp_class, fp_fused_multiply_add_class, op_fp_class,
}
use simple_risc_v_emulator.Bits.{has_bit, clear_bit}
use simple_risc_v_emulator.Instruction.Types.{Instruction, InstructionType, float_op}
use simple_risc_v_emulator.Instruction.Types.{
  flw, fld, fsw, fsd, fmadds, fmsubs, fnmadds, fnmsubs, fmaddd, fmsubd,
}
use simple_risc_v_emulator.Instruction.Types.{
  fnmaddd, fnmsubd, fadds, faddd, fsubs, fsubd, fmuls, fmuld, fsqrts, fsqrtd,
}
use simple_risc_v_emulator.Instruction.Types.{
  fdivs, fdivd, fsgnjs, fsgnjd, fsgnjns, fsgnjnd, fsgnjxs, fsgnjxd, fmins, fmind,
}
use simple_risc_v_emulator.Instruction.Types.{
  fmaxs, fmaxd, fcvtsd, fcvtds, fcvtws, fcvtwd, fcvtwus, fcvtwud, fcvtls, fcvtld,
}
use simple_risc_v_emulator.Instruction.Types.{
  fcvtlus, fcvtlud, fmvxw, fmvxd, fclasss, fclassd, feqs, feqd, flts, fltd,
}
use simple_risc_v_emulator.Instruction.Types.{
  fles, fled, fcvtsw, fcvtdw, fcvtswu, fcvtdwu, fcvtsl, fcvtdl, fcvtslu, fcvtdlu,
}
use simple_risc_v_emulator.Instruction.Types.{fmvwx, fmvdx}
use simple_risc_v_emulator.Instruction.Fields.{read_fields_r, read_fields_i, read_fields_s}

unfoldable pub load_fp_type : ℕ → ℕ → Result InstructionType
load_fp_type encoded funct3 =
    if funct3 == 0b010
    then ok flw
    else if funct3 == 0b011
    then ok fld
    else throw (unknown_instruction encoded load_fp_class)

unfoldable pub decode_load_fp : ℕ → Instruction → Result Instruction
decode_load_fp encoded instr = do
  let fields = read_fields_i encoded instr
  type ← load_fp_type encoded fields.funct3
  ok (record fields.instr { type = type })

unfoldable pub store_fp_type : ℕ → ℕ → Result InstructionType
store_fp_type encoded funct3 =
    if funct3 == 0b010
    then ok fsw
    else if funct3 == 0b011
    then ok fsd
    else throw (unknown_instruction encoded store_fp_class)

unfoldable pub decode_store_fp : ℕ → Instruction → Result Instruction
decode_store_fp encoded instr = do
  let fields = read_fields_s encoded instr
  type ← store_fp_type encoded fields.funct3
  ok (record fields.instr { type = type })

-- The enumerators of `Opcode` that this decoder tells apart.
abbrev pub madd_opcode : ℕ
madd_opcode = 0b1000011

abbrev pub msub_opcode : ℕ
msub_opcode = 0b1000111

abbrev pub nmsub_opcode : ℕ
nmsub_opcode = 0b1001011

abbrev pub nmadd_opcode : ℕ
nmadd_opcode = 0b1001111

unfoldable pub fused_type : ℕ → ℕ → ℕ → Result InstructionType
fused_type encoded funct2 opcode =
    if funct2 == 0b00
    then (if opcode == madd_opcode
        then ok fmadds
        else if opcode == msub_opcode
        then ok fmsubs
        else if opcode == nmadd_opcode
        then ok fnmadds
        else if opcode == nmsub_opcode
        then ok fnmsubs
        else throw (unknown_instruction encoded fp_fused_multiply_add_class))
    else if funct2 == 0b01
    then (if opcode == madd_opcode
        then ok fmaddd
        else if opcode == msub_opcode
        then ok fmsubd
        else if opcode == nmadd_opcode
        then ok fnmaddd
        else if opcode == nmsub_opcode
        then ok fnmsubd
        else throw (unknown_instruction encoded fp_fused_multiply_add_class))
    else throw (unknown_instruction encoded fp_fused_multiply_add_class)

unfoldable pub decode_fp_fused_multiply_add : ℕ → ℕ → Instruction → Result Instruction
decode_fp_fused_multiply_add encoded opcode instr = do
  let fields = read_fields_r encoded instr
  let funct2 = bit_and fields.funct7 0b11
  type ← fused_type encoded funct2 opcode
  ok (record fields.instr {
    payload = float_op fields.funct3 (some (fields.funct7 / 2 ^ 2));
    type = type;
  })

-- `isSingle ? single : double`
abbrev pub choose : Bool → InstructionType → InstructionType → Result InstructionType
choose is_single single double = ok (if is_single then single else double)

-- The argument `funct7` has its lowest bit cleared already.
unfoldable pub op_fp_type : ℕ → Bool → ℕ → ℕ → ℕ → Result InstructionType
op_fp_type encoded is_single source_register2 funct7 funct3 =
    if funct7 == 0b0000000
    then choose is_single fadds faddd
    else if funct7 == 0b0000100
    then choose is_single fsubs fsubd
    else if funct7 == 0b0001000
    then choose is_single fmuls fmuld
    else if funct7 == 0b0001100
    then (if source_register2 == 0
        then choose is_single fsqrts fsqrtd
        else choose is_single fdivs fdivd)
    else if funct7 == 0b0010000
    then (if funct3 == 0b000
        then choose is_single fsgnjs fsgnjd
        else if funct3 == 0b001
        then choose is_single fsgnjns fsgnjnd
        else if funct3 == 0b010
        then choose is_single fsgnjxs fsgnjxd
        else throw (unknown_instruction encoded op_fp_class))
    else if funct7 == 0b0010100
    then (if funct3 == 0b000
        then choose is_single fmins fmind
        else if funct3 == 0b001
        then choose is_single fmaxs fmaxd
        else throw (unknown_instruction encoded op_fp_class))
    else if funct7 == 0b0100000
    then (if source_register2 == 0b00001
        then choose is_single fcvtsd fcvtds
        else throw (unknown_instruction encoded op_fp_class))
    else if funct7 == 0b1100000
    then (if source_register2 == 0b00000
        then choose is_single fcvtws fcvtwd
        else if source_register2 == 0b00001
        then choose is_single fcvtwus fcvtwud
        else if source_register2 == 0b00010
        then choose is_single fcvtls fcvtld
        else if source_register2 == 0b00011
        then choose is_single fcvtlus fcvtlud
        else throw (unknown_instruction encoded op_fp_class))
    else if funct7 == 0b1110000
    then (if funct3 == 0b000
        then choose is_single fmvxw fmvxd
        else if funct3 == 0b001
        then choose is_single fclasss fclassd
        else throw (unknown_instruction_pointer encoded op_fp_class))
    else if funct7 == 0b1010000
    then (if funct3 == 0b010
        then choose is_single feqs feqd
        else if funct3 == 0b001
        then choose is_single flts fltd
        else if funct3 == 0b000
        then choose is_single fles fled
        else throw (unknown_instruction encoded op_fp_class))
    else if funct7 == 0b1101000
    then (if source_register2 == 0b00000
        then choose is_single fcvtsw fcvtdw
        else if source_register2 == 0b00001
        then choose is_single fcvtswu fcvtdwu
        else if source_register2 == 0b00010
        then choose is_single fcvtsl fcvtdl
        else if source_register2 == 0b00011
        then choose is_single fcvtslu fcvtdlu
        else throw (unknown_instruction encoded op_fp_class))
    else if funct7 == 0b1111000
    then (if funct3 == 0b000
        then choose is_single fmvwx fmvdx
        else throw (unknown_instruction encoded op_fp_class))
    else throw (unknown_instruction encoded op_fp_class)

unfoldable pub decode_op_fp : ℕ → Instruction → Result Instruction
decode_op_fp encoded instr = do
  let fields = read_fields_r encoded instr
  let is_single = not (has_bit fields.funct7 0)
  let funct7 = clear_bit 8 fields.funct7 0
  type ← op_fp_type encoded is_single fields.instr.source_register2 funct7 fields.funct3
  ok (record fields.instr { payload = float_op fields.funct3 none; type = type })
