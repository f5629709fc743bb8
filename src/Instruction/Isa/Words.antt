-- ===== src/Instruction/Isa/Words.antt =====
-- The words of the instruction set manual have 32 bits, of which the lowest two are set.
use simple_risc_v_emulator.Common.{ℕ, ◌+◌, ◌*◌, ◌%◌, ◌^◌, ◌<◌, ◌≡◌, arith}
use simple_risc_v_emulator.Bits.Sign.{pattern}
use simple_risc_v_emulator.Instruction.Types.{InstructionType, lui}
use simple_risc_v_emulator.Instruction.Fields.Layout.{layout, IsLayout, layout-lt}
use simple_risc_v_emulator.Instruction.Isa.Codes.{
  Code, isa, upper_code, jump_code, jump_register_code, branch_code, load_code, store_code,
  op_imm_code, shift_code, shift32_code, op_imm32_code, op_code, op32_code, fence_code,
  fence_i_code, fence_exact_code, environment_code, csr_code, amo_code, load_fp_code, store_fp_code,
  fused_code, fp_arithmetic_code, fp_select_code, fp_unary_code, fp_move_code,
}
use simple_risc_v_emulator.Instruction.Isa.Assemble.{
  Operands, IsOperands, assemble, i_format, s_format,
}

-- The fixed fields are as wide as their places.
abbrev IsCode : Code → Type 0
IsCode (upper_code op) = (op < 2 ^ 7) × (op % 4 ≡ 3)
IsCode (branch_code f3) = f3 < 8
IsCode (load_code f3) = f3 < 8
IsCode (store_code f3) = f3 < 8
IsCode (op_imm_code f3) = f3 < 8
IsCode (shift_code f3 a) = f3 < 8
IsCode (shift32_code f3 a) = f3 < 8
IsCode (op_code f7 f3) = (f7 < 2 ^ 7) × (f3 < 8)
IsCode (op32_code f7 f3) = (f7 < 2 ^ 7) × (f3 < 8)
IsCode (csr_code f3) = f3 < 8
IsCode (amo_code f5 f3) = (f5 < 2 ^ 5) × (f3 < 8)
IsCode (load_fp_code f3) = f3 < 8
IsCode (store_fp_code f3) = f3 < 8
IsCode (fused_code op fmt) = ((op < 2 ^ 7) × (op % 4 ≡ 3)) × (fmt < 4)
IsCode (fp_arithmetic_code f7) = f7 < 2 ^ 7
IsCode (fp_select_code f7 f3) = (f7 < 2 ^ 7) × (f3 < 8)
IsCode (fp_unary_code f7 rs2) = (f7 < 2 ^ 7) × (rs2 < 32)
IsCode (fp_move_code f7 rs2 f3) = (f7 < 2 ^ 7) × (rs2 < 32) × (f3 < 8)
IsCode _ = Unit {0}

isa-IsCode : (t : InstructionType) → IsCode (isa t)
unfolding isa
isa-IsCode lui = omega arith
isa-IsCode t = ground arith

-- A word that is not compressed.
abbrev pub IsWord : ℕ → Type 0
IsWord w = (w < 2 ^ 32) × (w % 4 ≡ 3)

layout-IsWord :
    (op rd f3 rs1 rs2 f7 : ℕ)
    → op % 4 ≡ 3
    → IsLayout op rd f3 rs1 rs2 f7
    → IsWord (layout op rd f3 rs1 rs2 f7)
layout-IsWord op rd f3 rs1 rs2 f7 low l = (layout-lt op rd f3 rs1 rs2 f7 l, omega (arith, low))

i_format-IsWord :
    (op rd f3 rs1 imm : ℕ)
    → (op < 2 ^ 7) × (op % 4 ≡ 3)
    → rd < 32
    → f3 < 8
    → rs1 < 32
    → IsWord (i_format op rd f3 rs1 imm)
i_format-IsWord op rd f3 rs1 imm low a b c = (omega arith, omega arith)

s_format-IsWord :
    (op f3 rs1 rs2 imm : ℕ)
    → (op < 2 ^ 7) × (op % 4 ≡ 3)
    → f3 < 8
    → rs1 < 32
    → rs2 < 32
    → IsWord (s_format op f3 rs1 rs2 imm)
s_format-IsWord op f3 rs1 rs2 imm low a b c = (omega arith, omega arith)

module _ (o : Operands) (v : IsOperands o) where
  code-IsWord : (c : Code) → IsCode c → IsWord (assemble c o)
  unfolding assemble
  code-IsWord (upper_code op) g = (omega arith, omega arith)
  code-IsWord jump_code g = (omega arith, omega arith)
  code-IsWord jump_register_code g =
      i_format-IsWord 0b1100111 o.rd 0 o.rs1 (pattern 12 o.offset) (omega arith, omega arith)
        (omega arith) (omega arith) (omega arith)
  code-IsWord (branch_code f3) g = (omega arith, omega arith)
  code-IsWord (load_code f3) g =
      i_format-IsWord 0b0000011 o.rd f3 o.rs1 (pattern 12 o.offset) (omega arith, omega arith)
        (omega arith) (omega arith) (omega arith)
  code-IsWord (store_code f3) g =
      s_format-IsWord 0b0100011 f3 o.rs1 o.rs2 (pattern 12 o.offset) (omega arith, omega arith)
        (omega arith) (omega arith) (omega arith)
  code-IsWord (op_imm_code f3) g =
      i_format-IsWord 0b0010011 o.rd f3 o.rs1 (pattern 12 o.offset) (omega arith, omega arith)
        (omega arith) (omega arith) (omega arith)
  code-IsWord (shift_code f3 a) g =
      i_format-IsWord 0b0010011 o.rd f3 o.rs1 (o.bits + a * 2 ^ 10) (omega arith, omega arith)
        (omega arith) (omega arith) (omega arith)
  code-IsWord (shift32_code f3 a) g =
      i_format-IsWord 0b0011011 o.rd f3 o.rs1 (o.bits + a * 2 ^ 10) (omega arith, omega arith)
        (omega arith) (omega arith) (omega arith)
  code-IsWord op_imm32_code g =
      i_format-IsWord 0b0011011 o.rd 0 o.rs1 (pattern 12 o.offset) (omega arith, omega arith)
        (omega arith) (omega arith) (omega arith)
  code-IsWord (op_code f7 f3) g =
      layout-IsWord 0b0110011 o.rd f3 o.rs1 o.rs2 f7 (omega arith) (omega arith)
  code-IsWord (op32_code f7 f3) g =
      layout-IsWord 0b0111011 o.rd f3 o.rs1 o.rs2 f7 (omega arith) (omega arith)
  code-IsWord fence_code g =
      i_format-IsWord 0b0001111 o.rd 0 o.rs1 o.bits (omega arith, omega arith) (omega arith)
        (omega arith) (omega arith)
  code-IsWord fence_i_code g =
      i_format-IsWord 0b0001111 o.rd 1 o.rs1 (pattern 12 o.offset) (omega arith, omega arith)
        (omega arith) (omega arith) (omega arith)
  code-IsWord (fence_exact_code imm) g =
      i_format-IsWord 0b0001111 0 0 0 imm (omega arith, omega arith) (omega arith) (omega arith)
        (omega arith)
  code-IsWord (environment_code imm) g =
      i_format-IsWord 0b1110011 0 0 0 imm (omega arith, omega arith) (omega arith) (omega arith)
        (omega arith)
  code-IsWord (csr_code f3) g =
      i_format-IsWord 0b1110011 o.rd f3 o.rs1 o.bits (omega arith, omega arith) (omega arith)
        (omega arith) (omega arith)
  code-IsWord (amo_code f5 f3) g =
      layout-IsWord 0b0101111 o.rd f3 o.rs1 o.rs2 (o.acquire_release + f5 * 2 ^ 2) (omega arith)
        (omega arith)
  code-IsWord (load_fp_code f3) g =
      i_format-IsWord 0b0000111 o.rd f3 o.rs1 (pattern 12 o.offset) (omega arith, omega arith)
        (omega arith) (omega arith) (omega arith)
  code-IsWord (store_fp_code f3) g =
      s_format-IsWord 0b0100111 f3 o.rs1 o.rs2 (pattern 12 o.offset) (omega arith, omega arith)
        (omega arith) (omega arith) (omega arith)
  code-IsWord (fused_code op fmt) g =
      layout-IsWord op o.rd o.rounding_mode o.rs1 o.rs2 (fmt + o.rs3 * 2 ^ 2) (omega arith)
        (omega arith)
  code-IsWord (fp_arithmetic_code f7) g =
      layout-IsWord 0b1010011 o.rd o.rounding_mode o.rs1 o.rs2 f7 (omega arith) (omega arith)
  code-IsWord (fp_select_code f7 f3) g =
      layout-IsWord 0b1010011 o.rd f3 o.rs1 o.rs2 f7 (omega arith) (omega arith)
  code-IsWord (fp_unary_code f7 rs2) g =
      layout-IsWord 0b1010011 o.rd o.rounding_mode o.rs1 rs2 f7 (omega arith) (omega arith)
  code-IsWord (fp_move_code f7 rs2 f3) g =
      layout-IsWord 0b1010011 o.rd f3 o.rs1 rs2 f7 (omega arith) (omega arith)

pub assemble-IsWord :
    (t : InstructionType) (o : Operands) → IsOperands o → IsWord (assemble (isa t) o)
assemble-IsWord t o v = code-IsWord o v (isa t) (isa-IsCode t)
