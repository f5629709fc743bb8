-- ===== src/Instruction/Isa/Formats.antt =====
-- Each format reader of src/riscv/instruction.cpp on a word of its format.
use simple_risc_v_emulator.Common.{ℕ, ◌+◌, ◌*◌, ◌%◌, ◌^◌, ◌<◌, ◌≡◌, ap, ◌∙◌, arith}
use simple_risc_v_emulator.Common.{ℤ}
use simple_risc_v_emulator.Bits.{sign_extend}
use simple_risc_v_emulator.Bits.Sign.{pattern, FitsSigned, pattern-lt, sign_extend-pattern}
use simple_risc_v_emulator.Instruction.Types.{Instruction, immediate}
use simple_risc_v_emulator.Instruction.Fields.{read_fields_r, read_fields_i}
use simple_risc_v_emulator.Instruction.Fields.{read_fields_s, read_fields_b, read_fields_u}
use simple_risc_v_emulator.Instruction.Fields.{read_fields_j, get_opcode, get_immediate_j}
use simple_risc_v_emulator.Instruction.Fields.Values.{slice, get_immediate_j-eq, offset_j}
use simple_risc_v_emulator.Instruction.Fields.Layout.{
  layout, IsLayout, get_opcode-layout, get_funct3-layout, get_funct7-layout,
  get_destination_register-layout, get_source_register1-layout, get_source_register2-layout,
  get_immediate_i-layout, get_immediate_s-layout, get_immediate_b-layout, get_immediate_u-layout,
}
use simple_risc_v_emulator.Instruction.Isa.Assemble.{
  i_format, s_format, b_format, u_format, j_format,
}

pub read_fields_r-layout :
    (op rd f3 rs1 rs2 f7 : ℕ) (l : IsLayout op rd f3 rs1 rs2 f7) (instr : Instruction)
    → read_fields_r (layout op rd f3 rs1 rs2 f7) instr ≡ record {
      instr = record instr {
        source_register1 = rs1;
        source_register2 = rs2;
        destination_register = rd;
      };
      funct3 = f3;
      funct7 = f7;
    }
unfolding read_fields_r
read_fields_r-layout op rd f3 rs1 rs2 f7 l instr = rw (
  get_source_register1-layout op rd f3 rs1 rs2 f7 l,
  get_source_register2-layout op rd f3 rs1 rs2 f7 l,
  get_destination_register-layout op rd f3 rs1 rs2 f7 l,
  get_funct3-layout op rd f3 rs1 rs2 f7 l,
  get_funct7-layout op rd f3 rs1 rs2 f7 l,
)

module _ (op rd f3 rs1 imm : ℕ) (op_lt : op < 128) (rd_lt : rd < 32) (f3_lt : f3 < 8)
    (rs1_lt : rs1 < 32) (imm_lt : imm < 2 ^ 12) where
  i-IsLayout : IsLayout op rd f3 rs1 (slice imm 0 5) (slice imm 5 7)
  i-IsLayout = omega arith

  pub get_opcode-i_format : get_opcode (i_format op rd f3 rs1 imm) ≡ op
  get_opcode-i_format = get_opcode-layout op rd f3 rs1 (slice imm 0 5) (slice imm 5 7) i-IsLayout

  pub read_fields_i-i_format :
      (instr : Instruction)
      → read_fields_i (i_format op rd f3 rs1 imm) instr ≡ record {
        instr = record instr {
          source_register1 = rs1;
          destination_register = rd;
          payload = immediate (sign_extend 32 imm 11);
        };
        funct3 = f3;
      }
  unfolding read_fields_i
  read_fields_i-i_format instr = rw (
    get_source_register1-layout op rd f3 rs1 (slice imm 0 5) (slice imm 5 7) i-IsLayout,
    get_destination_register-layout op rd f3 rs1 (slice imm 0 5) (slice imm 5 7) i-IsLayout,
    get_immediate_i-layout op rd f3 rs1 (slice imm 0 5) (slice imm 5 7) i-IsLayout,
    get_funct3-layout op rd f3 rs1 (slice imm 0 5) (slice imm 5 7) i-IsLayout,
    joined,
  )
    where
      joined : slice imm 0 5 + slice imm 5 7 * 2 ^ 5 ≡ imm
      joined = omega arith

module _ (op rd f3 rs1 : ℕ) (z : ℤ) (op_lt : op < 128) (rd_lt : rd < 32) (f3_lt : f3 < 8)
    (rs1_lt : rs1 < 32) (fits : FitsSigned 12 z) where
  pub get_opcode-i_offset : get_opcode (i_format op rd f3 rs1 (pattern 12 z)) ≡ op
  get_opcode-i_offset =
      get_opcode-i_format op rd f3 rs1 (pattern 12 z) op_lt rd_lt f3_lt rs1_lt
        (pattern-lt 11 z fits)

  -- A signed immediate of I-type arrives as its 32-bit pattern.
  pub read_fields_i-i_offset :
      (instr : Instruction)
      → read_fields_i (i_format op rd f3 rs1 (pattern 12 z)) instr ≡ record {
        instr = record instr {
          source_register1 = rs1;
          destination_register = rd;
          payload = immediate (pattern 32 z);
        };
        funct3 = f3;
      }
  read_fields_i-i_offset instr =
      read_fields_i-i_format op rd f3 rs1 (pattern 12 z) op_lt rd_lt f3_lt rs1_lt
        (pattern-lt 11 z fits) instr
      ∙ rw (sign_extend-pattern 32 11 z (omega arith) fits)

module _ (op f3 rs1 rs2 : ℕ) (z : ℤ) (op_lt : op < 128) (f3_lt : f3 < 8) (rs1_lt : rs1 < 32)
    (rs2_lt : rs2 < 32) (fits : FitsSigned 12 z) where
  abbrev imm_s : ℕ
  imm_s = pattern 12 z

  s-IsLayout : IsLayout op (slice imm_s 0 5) f3 rs1 rs2 (slice imm_s 5 7)
  s-IsLayout = omega arith

  pub get_opcode-s_format : get_opcode (s_format op f3 rs1 rs2 (pattern 12 z)) ≡ op
  get_opcode-s_format =
      get_opcode-layout op (slice imm_s 0 5) f3 rs1 rs2 (slice imm_s 5 7) s-IsLayout

  pub read_fields_s-s_format :
      (instr : Instruction)
      → read_fields_s (s_format op f3 rs1 rs2 (pattern 12 z)) instr ≡ record {
        instr = record instr {
          source_register1 = rs1;
          source_register2 = rs2;
          payload = immediate (pattern 32 z);
        };
        funct3 = f3;
      }
  unfolding read_fields_s
  read_fields_s-s_format instr = rw (
    get_source_register1-layout op (slice imm_s 0 5) f3 rs1 rs2 (slice imm_s 5 7) s-IsLayout,
    get_source_register2-layout op (slice imm_s 0 5) f3 rs1 rs2 (slice imm_s 5 7) s-IsLayout,
    get_immediate_s-layout op (slice imm_s 0 5) f3 rs1 rs2 (slice imm_s 5 7) s-IsLayout,
    get_funct3-layout op (slice imm_s 0 5) f3 rs1 rs2 (slice imm_s 5 7) s-IsLayout,
    joined,
    sign_extend-pattern 32 11 z (omega arith) fits,
  )
    where
      joined : slice imm_s 0 5 + slice imm_s 5 7 * 2 ^ 5 ≡ imm_s
      joined = omega (arith, pattern-lt 11 z fits)

module _ (f3 rs1 rs2 : ℕ) (z : ℤ) (f3_lt : f3 < 8) (rs1_lt : rs1 < 32) (rs2_lt : rs2 < 32)
    (fits : FitsSigned 13 z) (even : pattern 13 z % 2 ≡ 0) where
  abbrev imm_b : ℕ
  imm_b = pattern 13 z

  abbrev low_b : ℕ
  low_b = slice imm_b 11 1 + slice imm_b 1 4 * 2

  abbrev high_b : ℕ
  high_b = slice imm_b 5 6 + slice imm_b 12 1 * 2 ^ 6

  b-IsLayout : IsLayout 0b1100011 low_b f3 rs1 rs2 high_b
  b-IsLayout = omega arith

  pub get_opcode-b_format : get_opcode (b_format f3 rs1 rs2 (pattern 13 z)) ≡ 0b1100011
  get_opcode-b_format = get_opcode-layout 0b1100011 low_b f3 rs1 rs2 high_b b-IsLayout

  -- The scattered bits of a branch offset come back in order.
  pub read_fields_b-b_format :
      (instr : Instruction)
      → read_fields_b (b_format f3 rs1 rs2 (pattern 13 z)) instr ≡ record {
        instr = record instr {
          source_register1 = rs1;
          source_register2 = rs2;
          payload = immediate (pattern 32 z);
        };
        funct3 = f3;
      }
  unfolding read_fields_b
  read_fields_b-b_format instr = rw (
    get_source_register1-layout 0b1100011 low_b f3 rs1 rs2 high_b b-IsLayout,
    get_source_register2-layout 0b1100011 low_b f3 rs1 rs2 high_b b-IsLayout,
    get_immediate_b-layout 0b1100011 low_b f3 rs1 rs2 high_b b-IsLayout,
    get_funct3-layout 0b1100011 low_b f3 rs1 rs2 high_b b-IsLayout,
    joined,
    sign_extend-pattern 32 12 z (omega arith) fits,
  )
    where
      joined :
          slice low_b 1 4 * 2 ^ 1
            + slice high_b 0 6 * 2 ^ 5
            + slice low_b 0 1 * 2 ^ 11
            + slice high_b 6 1 * 2 ^ 12
          ≡ imm_b
      joined = omega (arith, pattern-lt 12 z fits)

module _ (op rd imm : ℕ) (op_lt : op < 128) (rd_lt : rd < 32) (imm_lt : imm < 2 ^ 20) where
  u-IsLayout : IsLayout op rd (slice imm 0 3) (slice imm 3 5) (slice imm 8 5) (slice imm 13 7)
  u-IsLayout = omega arith

  pub get_opcode-u_format : get_opcode (u_format op rd imm) ≡ op
  get_opcode-u_format =
      get_opcode-layout op rd (slice imm 0 3) (slice imm 3 5) (slice imm 8 5) (slice imm 13 7)
        u-IsLayout

  pub read_fields_u-u_format :
      (instr : Instruction)
      → read_fields_u (u_format op rd imm) instr
        ≡ record instr { destination_register = rd; payload = immediate (imm * 2 ^ 12) }
  unfolding read_fields_u
  read_fields_u-u_format instr = rw (
    get_destination_register-layout op rd (slice imm 0 3) (slice imm 3 5) (slice imm 8 5)
        (slice imm 13 7) u-IsLayout,
    get_immediate_u-layout op rd (slice imm 0 3) (slice imm 3 5) (slice imm 8 5) (slice imm 13 7)
        u-IsLayout,
    joined,
  )
    where
      joined :
          slice imm 0 3 + slice imm 3 5 * 2 ^ 3 + slice imm 8 5 * 2 ^ 8 + slice imm 13 7 * 2 ^ 13
          ≡ imm
      joined = omega arith

module _ (rd : ℕ) (z : ℤ) (rd_lt : rd < 32) (fits : FitsSigned 21 z)
    (even : pattern 21 z % 2 ≡ 0) where
  abbrev imm_j : ℕ
  imm_j = pattern 21 z

  abbrev rs2_j : ℕ
  rs2_j = slice imm_j 11 1 + slice imm_j 1 4 * 2

  abbrev f7_j : ℕ
  f7_j = slice imm_j 5 6 + slice imm_j 20 1 * 2 ^ 6

  j-IsLayout : IsLayout 0b1101111 rd (slice imm_j 12 3) (slice imm_j 15 5) rs2_j f7_j
  j-IsLayout = omega arith

  pub get_opcode-j_format : get_opcode (j_format rd (pattern 21 z)) ≡ 0b1101111
  get_opcode-j_format =
      get_opcode-layout 0b1101111 rd (slice imm_j 12 3) (slice imm_j 15 5) rs2_j f7_j j-IsLayout

  get_immediate_j-j_format : get_immediate_j (j_format rd (pattern 21 z)) ≡ pattern 32 z
  get_immediate_j-j_format =
      get_immediate_j-eq (j_format rd imm_j)
      ∙ ap (λ (t : ℕ). sign_extend 32 t 20) joined
      ∙ sign_extend-pattern 32 20 z (omega arith) fits
    where
      joined : offset_j (j_format rd imm_j) ≡ imm_j
      joined = omega (arith, pattern-lt 20 z fits, even)

  -- The scattered bits of a jump offset come back in order.
  pub read_fields_j-j_format :
      (instr : Instruction)
      → read_fields_j (j_format rd (pattern 21 z)) instr
        ≡ record instr { destination_register = rd; payload = immediate (pattern 32 z) }
  unfolding read_fields_j
  read_fields_j-j_format instr = rw (
    get_destination_register-layout 0b1101111 rd (slice imm_j 12 3) (slice imm_j 15 5) rs2_j f7_j
        j-IsLayout,
    get_immediate_j-j_format,
  )
