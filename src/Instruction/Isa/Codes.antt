-- ===== src/Instruction/Isa/Codes.antt =====
-- The encodings of RV64G as the instruction set manual lists them, independent of the decoder:
-- for each type of instruction its code, that is its format and the fixed parts of the word.
use simple_risc_v_emulator.Common.{ℕ}
use simple_risc_v_emulator.Instruction.Types.{InstructionType}
use simple_risc_v_emulator.Instruction.Types.{lui, auipc, jal, jalr, beq, bne, blt, bge, bltu, bgeu}
use simple_risc_v_emulator.Instruction.Types.{lb, lh, lw, lbu, lhu, sb, sh, sw, addi, slti}
use simple_risc_v_emulator.Instruction.Types.{
  sltiu, xori, ori, andi, slli, srli, srai, add, sub, sll,
}
use simple_risc_v_emulator.Instruction.Types.{
  slt, sltu, xor, srl, sra, or, and, fence, fencetso, pause,
}
use simple_risc_v_emulator.Instruction.Types.{
  ecall, ebreak, lwu, ld, sd, addiw, slliw, srliw, sraiw, addw,
}
use simple_risc_v_emulator.Instruction.Types.{
  subw, sllw, srlw, sraw, fencei, csrrw, csrrs, csrrc, csrrwi, csrrsi,
}
use simple_risc_v_emulator.Instruction.Types.{
  csrrci, mul, mulh, mulhsu, mulhu, div, divu, rem, remu, mulw,
}
use simple_risc_v_emulator.Instruction.Types.{
  divw, divuw, remw, remuw, lrw, scw, amoswapw, amoaddw, amoxorw, amoandw,
}
use simple_risc_v_emulator.Instruction.Types.{
  amoorw, amominw, amomaxw, amominuw, amomaxuw, lrd, scd, amoswapd, amoaddd, amoxord,
}
use simple_risc_v_emulator.Instruction.Types.{
  amoandd, amoord, amomind, amomaxd, amominud, amomaxud, flw, fsw, fmadds, fmsubs,
}
use simple_risc_v_emulator.Instruction.Types.{
  fnmadds, fnmsubs, fadds, fsubs, fmuls, fdivs, fsqrts, fsgnjs, fsgnjns, fsgnjxs,
}
use simple_risc_v_emulator.Instruction.Types.{
  fmins, fmaxs, feqs, flts, fles, fclasss, fcvtws, fcvtsw, fcvtwus, fcvtswu,
}
use simple_risc_v_emulator.Instruction.Types.{
  fmvxw, fmvwx, fcvtls, fcvtsl, fcvtlus, fcvtslu, fld, fsd, fmaddd, fmsubd,
}
use simple_risc_v_emulator.Instruction.Types.{
  fnmaddd, fnmsubd, faddd, fsubd, fmuld, fdivd, fsqrtd, fsgnjd, fsgnjnd, fsgnjxd,
}
use simple_risc_v_emulator.Instruction.Types.{
  fmind, fmaxd, feqd, fltd, fled, fclassd, fcvtsd, fcvtds, fcvtwd, fcvtdw,
}
use simple_risc_v_emulator.Instruction.Types.{
  fcvtwud, fcvtdwu, fcvtld, fcvtdl, fcvtlud, fcvtdlu, fmvxd, fmvdx,
}

-- Numbers are fixed fields: opcodes, funct3, funct7, funct5 (of an atomic operation), fmt (of a
-- fused operation), the bit that marks an arithmetic shift, a fixed second source register.
pub data Code : Type 0 where
  upper_code : ℕ → Code
  jump_code jump_register_code : Code
  branch_code load_code store_code op_imm_code : ℕ → Code
  shift_code shift32_code : ℕ → ℕ → Code
  op_imm32_code : Code
  op_code op32_code : ℕ → ℕ → Code
  fence_code fence_i_code : Code
  fence_exact_code environment_code csr_code : ℕ → Code
  amo_code : ℕ → ℕ → Code
  load_fp_code store_fp_code : ℕ → Code
  fused_code : ℕ → ℕ → Code
  fp_arithmetic_code : ℕ → Code
  fp_select_code fp_unary_code : ℕ → ℕ → Code
  fp_move_code : ℕ → ℕ → ℕ → Code

unfoldable pub isa : InstructionType → Code
isa lui = upper_code 0b0110111
isa auipc = upper_code 0b0010111
isa jal = jump_code
isa jalr = jump_register_code
isa beq = branch_code 0b000
isa bne = branch_code 0b001
isa blt = branch_code 0b100
isa bge = branch_code 0b101
isa bltu = branch_code 0b110
isa bgeu = branch_code 0b111
isa lb = load_code 0b000
isa lh = load_code 0b001
isa lw = load_code 0b010
isa lbu = load_code 0b100
isa lhu = load_code 0b101
isa sb = store_code 0b000
isa sh = store_code 0b001
isa sw = store_code 0b010
isa addi = op_imm_code 0b000
isa slti = op_imm_code 0b010
isa sltiu = op_imm_code 0b011
isa xori = op_imm_code 0b100
isa ori = op_imm_code 0b110
isa andi = op_imm_code 0b111
isa slli = shift_code 0b001 0
isa srli = shift_code 0b101 0
isa srai = shift_code 0b101 1
isa add = op_code 0b0000000 0b000
isa sub = op_code 0b0100000 0b000
isa sll = op_code 0b0000000 0b001
isa slt = op_code 0b0000000 0b010
isa sltu = op_code 0b0000000 0b011
isa xor = op_code 0b0000000 0b100
isa srl = op_code 0b0000000 0b101
isa sra = op_code 0b0100000 0b101
isa or = op_code 0b0000000 0b110
isa and = op_code 0b0000000 0b111
isa fence = fence_code
isa fencetso = fence_exact_code 0b1000_0011_0011
isa pause = fence_exact_code 0b0000_0001_0000
isa ecall = environment_code 0
isa ebreak = environment_code 1
isa lwu = load_code 0b110
isa ld = load_code 0b011
isa sd = store_code 0b011
isa addiw = op_imm32_code
isa slliw = shift32_code 0b001 0
isa srliw = shift32_code 0b101 0
isa sraiw = shift32_code 0b101 1
isa addw = op32_code 0b0000000 0b000
isa subw = op32_code 0b0100000 0b000
isa sllw = op32_code 0b0000000 0b001
isa srlw = op32_code 0b0000000 0b101
isa sraw = op32_code 0b0100000 0b101
isa fencei = fence_i_code
isa csrrw = csr_code 0b001
isa csrrs = csr_code 0b010
isa csrrc = csr_code 0b011
isa csrrwi = csr_code 0b101
isa csrrsi = csr_code 0b110
isa csrrci = csr_code 0b111
isa mul = op_code 0b0000001 0b000
isa mulh = op_code 0b0000001 0b001
isa mulhsu = op_code 0b0000001 0b010
isa mulhu = op_code 0b0000001 0b011
isa div = op_code 0b0000001 0b100
isa divu = op_code 0b0000001 0b101
isa rem = op_code 0b0000001 0b110
isa remu = op_code 0b0000001 0b111
isa mulw = op32_code 0b0000001 0b000
isa divw = op32_code 0b0000001 0b100
isa divuw = op32_code 0b0000001 0b101
isa remw = op32_code 0b0000001 0b110
isa remuw = op32_code 0b0000001 0b111
isa lrw = amo_code 0b00010 0b010
isa scw = amo_code 0b00011 0b010
isa amoswapw = amo_code 0b00001 0b010
isa amoaddw = amo_code 0b00000 0b010
isa amoxorw = amo_code 0b00100 0b010
isa amoandw = amo_code 0b01100 0b010
isa amoorw = amo_code 0b01000 0b010
isa amominw = amo_code 0b10000 0b010
isa amomaxw = amo_code 0b10100 0b010
isa amominuw = amo_code 0b11000 0b010
isa amomaxuw = amo_code 0b11100 0b010
isa lrd = amo_code 0b00010 0b011
isa scd = amo_code 0b00011 0b011
isa amoswapd = amo_code 0b00001 0b011
isa amoaddd = amo_code 0b00000 0b011
isa amoxord = amo_code 0b00100 0b011
isa amoandd = amo_code 0b01100 0b011
isa amoord = amo_code 0b01000 0b011
isa amomind = amo_code 0b10000 0b011
isa amomaxd = amo_code 0b10100 0b011
isa amominud = amo_code 0b11000 0b011
isa amomaxud = amo_code 0b11100 0b011
isa flw = load_fp_code 0b010
isa fsw = store_fp_code 0b010
isa fmadds = fused_code 0b1000011 0b00
isa fmsubs = fused_code 0b1000111 0b00
isa fnmadds = fused_code 0b1001111 0b00
isa fnmsubs = fused_code 0b1001011 0b00
isa fadds = fp_arithmetic_code 0b0000000
isa fsubs = fp_arithmetic_code 0b0000100
isa fmuls = fp_arithmetic_code 0b0001000
isa fdivs = fp_arithmetic_code 0b0001100
isa fsqrts = fp_unary_code 0b0101100 0b00000
isa fsgnjs = fp_select_code 0b0010000 0b000
isa fsgnjns = fp_select_code 0b0010000 0b001
isa fsgnjxs = fp_select_code 0b0010000 0b010
isa fmins = fp_select_code 0b0010100 0b000
isa fmaxs = fp_select_code 0b0010100 0b001
isa feqs = fp_select_code 0b1010000 0b010
isa flts = fp_select_code 0b1010000 0b001
isa fles = fp_select_code 0b1010000 0b000
isa fclasss = fp_move_code 0b1110000 0b00000 0b001
isa fcvtws = fp_unary_code 0b1100000 0b00000
isa fcvtsw = fp_unary_code 0b1101000 0b00000
isa fcvtwus = fp_unary_code 0b1100000 0b00001
isa fcvtswu = fp_unary_code 0b1101000 0b00001
isa fmvxw = fp_move_code 0b1110000 0b00000 0b000
isa fmvwx = fp_move_code 0b1111000 0b00000 0b000
isa fcvtls = fp_unary_code 0b1100000 0b00010
isa fcvtsl = fp_unary_code 0b1101000 0b00010
isa fcvtlus = fp_unary_code 0b1100000 0b00011
isa fcvtslu = fp_unary_code 0b1101000 0b00011
isa fld = load_fp_code 0b011
isa fsd = store_fp_code 0b011
isa fmaddd = fused_code 0b1000011 0b01
isa fmsubd = fused_code 0b1000111 0b01
isa fnmaddd = fused_code 0b1001111 0b01
isa fnmsubd = fused_code 0b1001011 0b01
isa faddd = fp_arithmetic_code 0b0000001
isa fsubd = fp_arithmetic_code 0b0000101
isa fmuld = fp_arithmetic_code 0b0001001
isa fdivd = fp_arithmetic_code 0b0001101
isa fsqrtd = fp_unary_code 0b0101101 0b00000
isa fsgnjd = fp_select_code 0b0010001 0b000
isa fsgnjnd = fp_select_code 0b0010001 0b001
isa fsgnjxd = fp_select_code 0b0010001 0b010
isa fmind = fp_select_code 0b0010101 0b000
isa fmaxd = fp_select_code 0b0010101 0b001
isa feqd = fp_select_code 0b1010001 0b010
isa fltd = fp_select_code 0b1010001 0b001
isa fled = fp_select_code 0b1010001 0b000
isa fclassd = fp_move_code 0b1110001 0b00000 0b001
isa fcvtsd = fp_unary_code 0b0100000 0b00001
isa fcvtds = fp_unary_code 0b0100001 0b00000
isa fcvtwd = fp_unary_code 0b1100001 0b00000
isa fcvtdw = fp_unary_code 0b1101001 0b00000
isa fcvtwud = fp_unary_code 0b1100001 0b00001
isa fcvtdwu = fp_unary_code 0b1101001 0b00001
isa fcvtld = fp_unary_code 0b1100001 0b00010
isa fcvtdl = fp_unary_code 0b1101001 0b00010
isa fcvtlud = fp_unary_code 0b1100001 0b00011
isa fcvtdlu = fp_unary_code 0b1101001 0b00011
isa fmvxd = fp_move_code 0b1110001 0b00000 0b000
isa fmvdx = fp_move_code 0b1111001 0b00000 0b000
