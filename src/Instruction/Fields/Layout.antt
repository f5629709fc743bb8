-- ===== src/Instruction/Fields/Layout.antt =====
-- Every format lays its fields out like the R-type: seven bits of opcode, then fields of 5, 3, 5,
-- 5 and 7 bits. The getters give these fields back.
use simple_risc_v_emulator.Common.{ℕ, ◌+◌, ◌*◌, ◌^◌, ◌<◌, ◌≡◌, ap, ◌∙◌, arith}
use simple_risc_v_emulator.Bits.{sign_extend}
use simple_risc_v_emulator.Instruction.Fields.{get_opcode, get_funct3, get_funct7}
use simple_risc_v_emulator.Instruction.Fields.{get_destination_register, get_source_register1}
use simple_risc_v_emulator.Instruction.Fields.{get_source_register2, get_immediate_i}
use simple_risc_v_emulator.Instruction.Fields.{get_immediate_s, get_immediate_b, get_immediate_u}
use simple_risc_v_emulator.Instruction.Fields.Values.{slice, offset_b}
use simple_risc_v_emulator.Instruction.Fields.Values.{get_opcode-eq, get_funct3-eq, get_funct7-eq}
use simple_risc_v_emulator.Instruction.Fields.Values.{get_destination_register-eq}
use simple_risc_v_emulator.Instruction.Fields.Values.{get_source_register1-eq}
use simple_risc_v_emulator.Instruction.Fields.Values.{get_source_register2-eq, get_immediate_i-eq}
use simple_risc_v_emulator.Instruction.Fields.Values.{get_immediate_s-eq, get_immediate_b-eq}
use simple_risc_v_emulator.Instruction.Fields.Values.{get_immediate_u-eq}

abbrev pub layout : ℕ → ℕ → ℕ → ℕ → ℕ → ℕ → ℕ
layout opcode rd funct3 rs1 rs2 funct7 =
    opcode + rd * 2 ^ 7 + funct3 * 2 ^ 12 + rs1 * 2 ^ 15 + rs2 * 2 ^ 20 + funct7 * 2 ^ 25

-- The fields are as narrow as the layout wants them.
pub record IsLayout (opcode rd funct3 rs1 rs2 funct7 : ℕ) : Type 0 where
  pub opcode_lt : opcode < 2 ^ 7
  pub rd_lt : rd < 2 ^ 5
  pub funct3_lt : funct3 < 2 ^ 3
  pub rs1_lt : rs1 < 2 ^ 5
  pub rs2_lt : rs2 < 2 ^ 5
  pub funct7_lt : funct7 < 2 ^ 7

module _ (op rd f3 rs1 rs2 f7 : ℕ) (l : IsLayout op rd f3 rs1 rs2 f7) where
  abbrev word : ℕ
  word = layout op rd f3 rs1 rs2 f7

  pub layout-lt : layout op rd f3 rs1 rs2 f7 < 2 ^ 32
  layout-lt = omega arith

  pub get_opcode-layout : get_opcode word ≡ op
  get_opcode-layout = get_opcode-eq word ∙ omega arith

  pub get_funct3-layout : get_funct3 word ≡ f3
  get_funct3-layout = get_funct3-eq word ∙ omega arith

  pub get_funct7-layout : get_funct7 word ≡ f7
  get_funct7-layout = get_funct7-eq word ∙ omega arith

  pub get_destination_register-layout : get_destination_register word ≡ rd
  get_destination_register-layout = get_destination_register-eq word ∙ omega arith

  pub get_source_register1-layout : get_source_register1 word ≡ rs1
  get_source_register1-layout = get_source_register1-eq word ∙ omega arith

  pub get_source_register2-layout : get_source_register2 word ≡ rs2
  get_source_register2-layout = get_source_register2-eq word ∙ omega arith

  pub get_immediate_i-layout : get_immediate_i word ≡ sign_extend 32 (rs2 + f7 * 2 ^ 5) 11
  get_immediate_i-layout = get_immediate_i-eq word ∙ ap (λ (t : ℕ). sign_extend 32 t 11) inner
    where
      inner : slice word 20 12 ≡ rs2 + f7 * 2 ^ 5
      inner = omega arith

  pub get_immediate_s-layout : get_immediate_s word ≡ sign_extend 32 (rd + f7 * 2 ^ 5) 11
  get_immediate_s-layout = get_immediate_s-eq word ∙ ap (λ (t : ℕ). sign_extend 32 t 11) inner
    where
      inner : slice word 7 5 + slice word 25 7 * 2 ^ 5 ≡ rd + f7 * 2 ^ 5
      inner = omega arith

  pub get_immediate_b-layout :
      get_immediate_b word
      ≡ sign_extend 32
          (slice rd 1 4 * 2 ^ 1
            + slice f7 0 6 * 2 ^ 5
            + slice rd 0 1 * 2 ^ 11
            + slice f7 6 1 * 2 ^ 12)
          12
  get_immediate_b-layout = get_immediate_b-eq word ∙ ap (λ (t : ℕ). sign_extend 32 t 12) inner
    where
      inner :
          offset_b word
          ≡ slice rd 1 4 * 2 ^ 1
            + slice f7 0 6 * 2 ^ 5
            + slice rd 0 1 * 2 ^ 11
            + slice f7 6 1 * 2 ^ 12
      inner = omega arith

  pub get_immediate_u-layout :
      get_immediate_u word ≡ (f3 + rs1 * 2 ^ 3 + rs2 * 2 ^ 8 + f7 * 2 ^ 13) * 2 ^ 12
  get_immediate_u-layout = get_immediate_u-eq word ∙ omega arith
