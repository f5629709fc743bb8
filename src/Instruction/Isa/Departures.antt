-- ===== src/Instruction/Isa/Departures.antt =====
-- Where `decodeOpFP` and `decodeSystem` of src/riscv/instruction.cpp depart from the manual.
use simple_risc_v_emulator.Common.{ℕ, ◌^◌, ◌<◌, ◌≡◌, ◌∙◌, arith}
use simple_risc_v_emulator.Common.{ok, throw, ◌>>=◌, none}
use simple_risc_v_emulator.Common.{unknown_instruction, op_fp_class}
use simple_risc_v_emulator.Instruction.Types.{InstructionType, empty_instruction}
use simple_risc_v_emulator.Instruction.Types.{fsqrts, fsqrtd, fcvtds, fdivs, fdivd, float_op}
use simple_risc_v_emulator.Instruction.Fields.Layout.{layout, IsLayout, get_opcode-layout}
use simple_risc_v_emulator.Instruction.Floating.{decode_op_fp, op_fp_type}
use simple_risc_v_emulator.Instruction.Decode.{decode_instruction}
use simple_risc_v_emulator.Instruction.Isa.Codes.{isa, csr_code}
use simple_risc_v_emulator.Instruction.Isa.Assemble.{Operands, IsOperands, assemble, decoded}
use simple_risc_v_emulator.Instruction.Isa.Formats.{read_fields_r-layout}
use simple_risc_v_emulator.Instruction.Isa.Parts.{is_single_value, cleared_value}
use simple_risc_v_emulator.Instruction.Isa.Tables.OpFp.{op_fp_select}
use simple_risc_v_emulator.Instruction.Isa.Reads.System.{csr-reads}

-- A word of OP-FP through its switch.
op_fp_word :
    (rd f3 rs1 rs2 f7 : ℕ)
    → IsLayout 0b1010011 rd f3 rs1 rs2 f7
    → decode_instruction empty_instruction (layout 0b1010011 rd f3 rs1 rs2 f7) ≡ (
        op_fp_select (layout 0b1010011 rd f3 rs1 rs2 f7) rs2 f7 f3 >>= λ t. ok (record {
          payload = float_op f3 none;
          destination_register = rd;
          source_register1 = rs1;
          source_register2 = rs2;
          type = t;
        }))
unfolding decode_instruction decode_op_fp
op_fp_word rd f3 rs1 rs2 f7 l = rw (
  get_opcode-layout 0b1010011 rd f3 rs1 rs2 f7 l,
  read_fields_r-layout 0b1010011 rd f3 rs1 rs2 f7 l,
  is_single_value f7 l.funct7_lt,
  cleared_value f7 l.funct7_lt,
)

-- The words that the manual gives to the two square roots and to `FCVT.D.S` are refused, whatever
-- their operands.
pub square_roots_refused :
    (o : Operands)
    → IsOperands o
    → (decode_instruction empty_instruction (assemble (isa fsqrts) o)
        ≡ throw (unknown_instruction (assemble (isa fsqrts) o) op_fp_class))
      × (decode_instruction empty_instruction (assemble (isa fsqrtd) o)
          ≡ throw (unknown_instruction (assemble (isa fsqrtd) o) op_fp_class))
      × (decode_instruction empty_instruction (assemble (isa fcvtds) o)
          ≡ throw (unknown_instruction (assemble (isa fcvtds) o) op_fp_class))
unfolding isa assemble op_fp_type
square_roots_refused o v = (
  op_fp_word o.rd o.rounding_mode o.rs1 0 0b0101100 (omega arith),
  op_fp_word o.rd o.rounding_mode o.rs1 0 0b0101101 (omega arith),
  op_fp_word o.rd o.rounding_mode o.rs1 0 0b0100001 (omega arith),
)

-- A division whose second source is f0 is read as the square root of the first source.
pub division_by_f0 :
    (o : Operands)
    → IsOperands o
    → o.rs2 ≡ 0
    → (decode_instruction empty_instruction (assemble (isa fdivs) o)
        ≡ ok (decoded fsqrts (isa fdivs) o))
      × (decode_instruction empty_instruction (assemble (isa fdivd) o)
          ≡ ok (decoded fsqrtd (isa fdivd) o))
unfolding isa assemble decoded op_fp_type
division_by_f0 o v z = (
  op_fp_word o.rd o.rounding_mode o.rs1 o.rs2 0b0001100 (omega arith) ∙ rw z,
  op_fp_word o.rd o.rounding_mode o.rs1 o.rs2 0b0001101 (omega arith) ∙ rw z,
)

-- Two control register instructions that differ in the number of the register alone decode to the
-- same instruction.
pub control_register_lost :
    (t : InstructionType) (f3 : ℕ) (o : Operands) (other : ℕ)
    → IsOperands o
    → isa t ≡ csr_code f3
    → o.bits < 2 ^ 12
    → other < 2 ^ 12
    → decode_instruction empty_instruction (assemble (isa t) o)
      ≡ decode_instruction empty_instruction (assemble (isa t) (record o { bits = other }))
control_register_lost t f3 o other v e h k =
    rw (e, csr-reads t o v f3 e h, csr-reads t (record o { bits = other }) (omega arith) f3 e k)
