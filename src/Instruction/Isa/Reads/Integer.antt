-- ===== src/Instruction/Isa/Reads/Integer.antt =====
-- The decoder on loads, stores, branches and integer arithmetic.
use simple_risc_v_emulator.Common.{ℕ, ◌<◌, ◌≡◌, arith}
use simple_risc_v_emulator.Common.{ok}
use simple_risc_v_emulator.Instruction.Types.{InstructionType, empty_instruction}
use simple_risc_v_emulator.Instruction.Fields.Layout.{IsLayout, get_opcode-layout}
use simple_risc_v_emulator.Instruction.Integer.{decode_branch, decode_load, decode_store, decode_op}
use simple_risc_v_emulator.Instruction.Integer.{decode_op32, decode_op_imm}
use simple_risc_v_emulator.Instruction.Decode.{decode_instruction}
use simple_risc_v_emulator.Instruction.Isa.Codes.{
  isa, branch_code, load_code, store_code, op_imm_code, op_code, op32_code,
}
use simple_risc_v_emulator.Instruction.Isa.Assemble.{Operands, IsOperands, Fits, assemble, decoded}
use simple_risc_v_emulator.Instruction.Isa.Formats.{read_fields_r-layout}
use simple_risc_v_emulator.Instruction.Isa.Formats.{get_opcode-i_offset}
use simple_risc_v_emulator.Instruction.Isa.Formats.{read_fields_i-i_offset, get_opcode-s_format}
use simple_risc_v_emulator.Instruction.Isa.Formats.{read_fields_s-s_format, get_opcode-b_format}
use simple_risc_v_emulator.Instruction.Isa.Formats.{read_fields_b-b_format}
use simple_risc_v_emulator.Instruction.Isa.Tables.Integer.{branch_table, load_table, store_table}
use simple_risc_v_emulator.Instruction.Isa.Tables.Integer.{op_table, op32_table, op_imm_table}

module _ (t : InstructionType) (o : Operands) (v : IsOperands o) where
  pub load-reads :
      (f3 : ℕ)
      → isa t ≡ load_code f3
      → Fits (load_code f3) o
      → decode_instruction empty_instruction (assemble (load_code f3) o)
        ≡ ok (decoded t (load_code f3) o)
  unfolding decode_instruction assemble decoded decode_load
  load-reads f3 e fits =
      let (f3_lt, chosen) = load_table t (assemble (load_code f3) o) f3 e in
      rw (
        get_opcode-i_offset 0b0000011 o.rd f3 o.rs1 o.offset (omega arith) v.rd_lt f3_lt v.rs1_lt
            fits,
        read_fields_i-i_offset 0b0000011 o.rd f3 o.rs1 o.offset (omega arith) v.rd_lt f3_lt v.rs1_lt
            fits,
        chosen,
      )

  pub store-reads :
      (f3 : ℕ)
      → isa t ≡ store_code f3
      → Fits (store_code f3) o
      → decode_instruction empty_instruction (assemble (store_code f3) o)
        ≡ ok (decoded t (store_code f3) o)
  unfolding decode_instruction assemble decoded decode_store
  store-reads f3 e fits =
      let (f3_lt, chosen) = store_table t (assemble (store_code f3) o) f3 e in
      rw (
        get_opcode-s_format 0b0100011 f3 o.rs1 o.rs2 o.offset (omega arith) f3_lt v.rs1_lt v.rs2_lt
            fits,
        read_fields_s-s_format 0b0100011 f3 o.rs1 o.rs2 o.offset (omega arith) f3_lt v.rs1_lt
            v.rs2_lt fits,
        chosen,
      )

  pub branch-reads :
      (f3 : ℕ)
      → isa t ≡ branch_code f3
      → Fits (branch_code f3) o
      → decode_instruction empty_instruction (assemble (branch_code f3) o)
        ≡ ok (decoded t (branch_code f3) o)
  unfolding decode_instruction assemble decoded decode_branch
  branch-reads f3 e (fits, even) =
      let (f3_lt, chosen) = branch_table t (assemble (branch_code f3) o) f3 e in
      rw (
        get_opcode-b_format f3 o.rs1 o.rs2 o.offset f3_lt v.rs1_lt v.rs2_lt fits even,
        read_fields_b-b_format f3 o.rs1 o.rs2 o.offset f3_lt v.rs1_lt v.rs2_lt fits even,
        chosen,
      )

  pub op-reads :
      (f7 f3 : ℕ)
      → isa t ≡ op_code f7 f3
      → decode_instruction empty_instruction (assemble (op_code f7 f3) o)
        ≡ ok (decoded t (op_code f7 f3) o)
  unfolding decode_instruction assemble decoded decode_op
  op-reads f7 f3 e =
      let (f7_lt, f3_lt, chosen) = op_table t (assemble (op_code f7 f3) o) f7 f3 e in
      let l : IsLayout 0b0110011 o.rd f3 o.rs1 o.rs2 f7 = omega arith in
      rw (
        get_opcode-layout 0b0110011 o.rd f3 o.rs1 o.rs2 f7 l,
        read_fields_r-layout 0b0110011 o.rd f3 o.rs1 o.rs2 f7 l,
        chosen,
      )

  pub op32-reads :
      (f7 f3 : ℕ)
      → isa t ≡ op32_code f7 f3
      → decode_instruction empty_instruction (assemble (op32_code f7 f3) o)
        ≡ ok (decoded t (op32_code f7 f3) o)
  unfolding decode_instruction assemble decoded decode_op32
  op32-reads f7 f3 e =
      let (f7_lt, f3_lt, chosen) = op32_table t (assemble (op32_code f7 f3) o) f7 f3 e in
      let l : IsLayout 0b0111011 o.rd f3 o.rs1 o.rs2 f7 = omega arith in
      rw (
        get_opcode-layout 0b0111011 o.rd f3 o.rs1 o.rs2 f7 l,
        read_fields_r-layout 0b0111011 o.rd f3 o.rs1 o.rs2 f7 l,
        chosen,
      )

  pub op_imm-reads :
      (f3 : ℕ)
      → isa t ≡ op_imm_code f3
      → Fits (op_imm_code f3) o
      → decode_instruction empty_instruction (assemble (op_imm_code f3) o)
        ≡ ok (decoded t (op_imm_code f3) o)
  unfolding decode_instruction assemble decoded decode_op_imm
  op_imm-reads f3 e fits =
      rw
        (
          get_opcode-i_offset 0b0010011 o.rd f3 o.rs1 o.offset (omega arith) v.rd_lt f3_lt v.rs1_lt
              fits,
          read_fields_i-i_offset 0b0010011 o.rd f3 o.rs1 o.offset (omega arith) v.rd_lt f3_lt
              v.rs1_lt fits,
        )
        (op_imm_table t f3 _ e).1
    where
      f3_lt : f3 < 8
      f3_lt = (op_imm_table t f3 empty_instruction e).0
