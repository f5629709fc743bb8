-- ===== src/Instruction/Isa/Assemble.antt =====
-- The word of an instruction with given operands, by the formats of the instruction set manual,
-- and the instruction that is to be read from it.
use simple_risc_v_emulator.Common.{ℕ, ◌+◌, ◌*◌, ◌%◌, ◌^◌, ◌<◌, ◌≡◌, ◌≢◌, some, none, ℤ}
use simple_risc_v_emulator.Bits.Sign.{pattern, FitsSigned}
use simple_risc_v_emulator.Instruction.Types.{
  Instruction, InstructionType, immediate, float_op, Payload,
}
use simple_risc_v_emulator.Instruction.Fields.Values.{slice}
use simple_risc_v_emulator.Instruction.Fields.Layout.{layout}
use simple_risc_v_emulator.Instruction.Isa.Codes.{
  Code, upper_code, jump_code, jump_register_code, branch_code, load_code, store_code, op_imm_code,
  shift_code, shift32_code, op_imm32_code, op_code, op32_code, fence_code, fence_i_code,
  fence_exact_code, environment_code, csr_code, amo_code, load_fp_code, store_fp_code, fused_code,
  fp_arithmetic_code, fp_select_code, fp_unary_code, fp_move_code,
}

-- `offset` is a signed immediate, `bits` an unsigned one: the upper 20 bits of U-type, a shift
-- amount, the sets of a fence, the number of a control register.
pub record Operands : Type 0 where
  pub rd : ℕ
  pub rs1 : ℕ
  pub rs2 : ℕ
  pub rs3 : ℕ
  pub rounding_mode : ℕ
  pub acquire_release : ℕ
  pub offset : ℤ
  pub bits : ℕ

pub record IsOperands (o : Operands) : Type 0 where
  pub rd_lt : o.rd < 32
  pub rs1_lt : o.rs1 < 32
  pub rs2_lt : o.rs2 < 32
  pub rs3_lt : o.rs3 < 32
  pub rounding_mode_lt : o.rounding_mode < 8
  pub acquire_release_lt : o.acquire_release < 4

-- The immediate fits the format. A plain fence is none of the two that have a name of their own.
abbrev pub Fits : Code → Operands → Type 0
Fits (upper_code op) o = o.bits < 2 ^ 20
Fits jump_code o = FitsSigned 21 o.offset × (pattern 21 o.offset % 2 ≡ 0)
Fits jump_register_code o = FitsSigned 12 o.offset
Fits (branch_code f3) o = FitsSigned 13 o.offset × (pattern 13 o.offset % 2 ≡ 0)
Fits (load_code f3) o = FitsSigned 12 o.offset
Fits (store_code f3) o = FitsSigned 12 o.offset
Fits (op_imm_code f3) o = FitsSigned 12 o.offset
Fits (shift_code f3 a) o = o.bits < 64
Fits (shift32_code f3 a) o = o.bits < 32
Fits op_imm32_code o = FitsSigned 12 o.offset
Fits fence_code o = (o.bits < 2 ^ 12) × (o.bits ≢ 0b1000_0011_0011) × (o.bits ≢ 0b0000_0001_0000)
Fits fence_i_code o = FitsSigned 12 o.offset
Fits (csr_code f3) o = o.bits < 2 ^ 12
Fits (load_fp_code f3) o = FitsSigned 12 o.offset
Fits (store_fp_code f3) o = FitsSigned 12 o.offset
Fits _ o = Unit {0}

abbrev pub i_format : ℕ → ℕ → ℕ → ℕ → ℕ → ℕ
i_format opcode rd funct3 rs1 imm = layout opcode rd funct3 rs1 (slice imm 0 5) (slice imm 5 7)

abbrev pub s_format : ℕ → ℕ → ℕ → ℕ → ℕ → ℕ
s_format opcode funct3 rs1 rs2 imm = layout opcode (slice imm 0 5) funct3 rs1 rs2 (slice imm 5 7)

-- imm[12|10:5] above, imm[4:1|11] in the place of rd.
abbrev pub b_format : ℕ → ℕ → ℕ → ℕ → ℕ
b_format funct3 rs1 rs2 imm =
    layout 0b1100011 (slice imm 11 1 + slice imm 1 4 * 2) funct3 rs1 rs2
      (slice imm 5 6 + slice imm 12 1 * 2 ^ 6)

abbrev pub u_format : ℕ → ℕ → ℕ → ℕ
u_format opcode rd imm =
    layout opcode rd (slice imm 0 3) (slice imm 3 5) (slice imm 8 5) (slice imm 13 7)

-- imm[20|10:1|11|19:12]
abbrev pub j_format : ℕ → ℕ → ℕ
j_format rd imm =
    layout 0b1101111 rd (slice imm 12 3) (slice imm 15 5) (slice imm 11 1 + slice imm 1 4 * 2)
      (slice imm 5 6 + slice imm 20 1 * 2 ^ 6)

unfoldable pub assemble : Code → Operands → ℕ
assemble (upper_code op) o = u_format op o.rd o.bits
assemble jump_code o = j_format o.rd (pattern 21 o.offset)
assemble jump_register_code o = i_format 0b1100111 o.rd 0 o.rs1 (pattern 12 o.offset)
assemble (branch_code f3) o = b_format f3 o.rs1 o.rs2 (pattern 13 o.offset)
assemble (load_code f3) o = i_format 0b0000011 o.rd f3 o.rs1 (pattern 12 o.offset)
assemble (store_code f3) o = s_format 0b0100011 f3 o.rs1 o.rs2 (pattern 12 o.offset)
assemble (op_imm_code f3) o = i_format 0b0010011 o.rd f3 o.rs1 (pattern 12 o.offset)
assemble (shift_code f3 a) o = i_format 0b0010011 o.rd f3 o.rs1 (o.bits + a * 2 ^ 10)
assemble (shift32_code f3 a) o = i_format 0b0011011 o.rd f3 o.rs1 (o.bits + a * 2 ^ 10)
assemble op_imm32_code o = i_format 0b0011011 o.rd 0 o.rs1 (pattern 12 o.offset)
assemble (op_code f7 f3) o = layout 0b0110011 o.rd f3 o.rs1 o.rs2 f7
assemble (op32_code f7 f3) o = layout 0b0111011 o.rd f3 o.rs1 o.rs2 f7
assemble fence_code o = i_format 0b0001111 o.rd 0 o.rs1 o.bits
assemble fence_i_code o = i_format 0b0001111 o.rd 1 o.rs1 (pattern 12 o.offset)
assemble (fence_exact_code imm) o = i_format 0b0001111 0 0 0 imm
assemble (environment_code imm) o = i_format 0b1110011 0 0 0 imm
assemble (csr_code f3) o = i_format 0b1110011 o.rd f3 o.rs1 o.bits
assemble (amo_code f5 f3) o = layout 0b0101111 o.rd f3 o.rs1 o.rs2 (o.acquire_release + f5 * 2 ^ 2)
assemble (load_fp_code f3) o = i_format 0b0000111 o.rd f3 o.rs1 (pattern 12 o.offset)
assemble (store_fp_code f3) o = s_format 0b0100111 f3 o.rs1 o.rs2 (pattern 12 o.offset)
assemble (fused_code op fmt) o = layout op o.rd o.rounding_mode o.rs1 o.rs2 (fmt + o.rs3 * 2 ^ 2)
assemble (fp_arithmetic_code f7) o = layout 0b1010011 o.rd o.rounding_mode o.rs1 o.rs2 f7
assemble (fp_select_code f7 f3) o = layout 0b1010011 o.rd f3 o.rs1 o.rs2 f7
assemble (fp_unary_code f7 rs2) o = layout 0b1010011 o.rd o.rounding_mode o.rs1 rs2 f7
assemble (fp_move_code f7 rs2 f3) o = layout 0b1010011 o.rd f3 o.rs1 rs2 f7

abbrev made : InstructionType → Payload → ℕ → ℕ → ℕ → Instruction
made type payload rd rs1 rs2 = record {
  payload = payload;
  destination_register = rd;
  source_register1 = rs1;
  source_register2 = rs2;
  type = type;
}

-- A field that the format lacks is zero, as in a fresh `Instruction`.
unfoldable pub decoded : InstructionType → Code → Operands → Instruction
decoded t (upper_code op) o = made t (immediate (o.bits * 2 ^ 12)) o.rd 0 0
decoded t jump_code o = made t (immediate (pattern 32 o.offset)) o.rd 0 0
decoded t jump_register_code o = made t (immediate (pattern 32 o.offset)) o.rd o.rs1 0
decoded t (branch_code f3) o = made t (immediate (pattern 32 o.offset)) 0 o.rs1 o.rs2
decoded t (load_code f3) o = made t (immediate (pattern 32 o.offset)) o.rd o.rs1 0
decoded t (store_code f3) o = made t (immediate (pattern 32 o.offset)) 0 o.rs1 o.rs2
decoded t (op_imm_code f3) o = made t (immediate (pattern 32 o.offset)) o.rd o.rs1 0
decoded t (shift_code f3 a) o = made t (immediate o.bits) o.rd o.rs1 0
decoded t (shift32_code f3 a) o = made t (immediate o.bits) o.rd o.rs1 0
decoded t op_imm32_code o = made t (immediate (pattern 32 o.offset)) o.rd o.rs1 0
decoded t (op_code f7 f3) o = made t (immediate 0) o.rd o.rs1 o.rs2
decoded t (op32_code f7 f3) o = made t (immediate 0) o.rd o.rs1 o.rs2
decoded t fence_code o = made t (immediate o.bits) o.rd o.rs1 0
decoded t fence_i_code o = made t (immediate (pattern 32 o.offset)) o.rd o.rs1 0
decoded t (fence_exact_code imm) o = made t (immediate imm) 0 0 0
decoded t (environment_code imm) o = made t (immediate 0) 0 0 0
decoded t (csr_code f3) o = made t (immediate o.bits) o.rd o.rs1 0
decoded t (amo_code f5 f3) o = made t (immediate o.acquire_release) o.rd o.rs1 o.rs2
decoded t (load_fp_code f3) o = made t (immediate (pattern 32 o.offset)) o.rd o.rs1 0
decoded t (store_fp_code f3) o = made t (immediate (pattern 32 o.offset)) 0 o.rs1 o.rs2
decoded t (fused_code op fmt) o = made t (float_op o.rounding_mode (some o.rs3)) o.rd o.rs1 o.rs2
decoded t (fp_arithmetic_code f7) o = made t (float_op o.rounding_mode none) o.rd o.rs1 o.rs2
decoded t (fp_select_code f7 f3) o = made t (float_op f3 none) o.rd o.rs1 o.rs2
decoded t (fp_unary_code f7 rs2) o = made t (float_op o.rounding_mode none) o.rd o.rs1 rs2
decoded t (fp_move_code f7 rs2 f3) o = made t (float_op f3 none) o.rd o.rs1 rs2
