-- ===== src/Instruction/Isa/Reads/Floating.antt =====
-- The decoder on floating-point instructions.
use simple_risc_v_emulator.Instruction.Isa.Parts.{upper_part, lower_part}
use simple_risc_v_emulator.Instruction.Isa.Parts.{is_single_value, cleared_value}
use simple_risc_v_emulator.Common.{ℕ, ◌+◌, ◌*◌, ◌/◌, ◌^◌, ◌≡◌, ◌≢◌, ◌∙◌, arith}
use simple_risc_v_emulator.Common.{ok, inl, inr}
use simple_risc_v_emulator.Instruction.Types.{InstructionType, empty_instruction}
use simple_risc_v_emulator.Instruction.Types.{fsqrts, fsqrtd, fcvtds}
use simple_risc_v_emulator.Instruction.Fields.Layout.{IsLayout, get_opcode-layout}
use simple_risc_v_emulator.Instruction.Floating.{decode_load_fp, decode_store_fp, decode_op_fp}
use simple_risc_v_emulator.Instruction.Floating.{decode_fp_fused_multiply_add}
use simple_risc_v_emulator.Instruction.Decode.{decode_instruction}
use simple_risc_v_emulator.Instruction.Isa.Codes.{
  isa, load_fp_code, store_fp_code, fused_code, fp_arithmetic_code, fp_select_code, fp_unary_code,
  fp_move_code,
}
use simple_risc_v_emulator.Instruction.Isa.Assemble.{Operands, IsOperands, Fits, assemble, decoded}
use simple_risc_v_emulator.Instruction.Isa.Formats.{read_fields_r-layout}
use simple_risc_v_emulator.Instruction.Isa.Formats.{get_opcode-i_offset}
use simple_risc_v_emulator.Instruction.Isa.Formats.{read_fields_i-i_offset, get_opcode-s_format}
use simple_risc_v_emulator.Instruction.Isa.Formats.{read_fields_s-s_format}
use simple_risc_v_emulator.Instruction.Isa.Tables.Floating.{
  load_fp_table, store_fp_table, fused_table, fused_opcode,
}
use simple_risc_v_emulator.Instruction.Isa.Tables.OpFp.{
  fp_arithmetic_table, fp_select_table, fp_unary_table, fp_move_table,
}
use simple_risc_v_emulator.Common.{◌⊎◌}
use simple_risc_v_emulator.Instruction.Fields.{get_opcode}
use simple_risc_v_emulator.Instruction.Floating.{
  madd_opcode, msub_opcode, nmadd_opcode, nmsub_opcode,
}

fused_dispatch :
    (op w : ℕ)
    → (op ≡ madd_opcode) ⊎ (op ≡ msub_opcode) ⊎ (op ≡ nmadd_opcode) ⊎ (op ≡ nmsub_opcode)
    → get_opcode w ≡ op
    → decode_instruction empty_instruction w ≡ decode_fp_fused_multiply_add w op empty_instruction
unfolding decode_instruction
fused_dispatch op w (inl h) e = rw (e, h)
fused_dispatch op w (inr (inl h)) e = rw (e, h)
fused_dispatch op w (inr (inr (inl h))) e = rw (e, h)
fused_dispatch op w (inr (inr (inr h))) e = rw (e, h)

module _ (t : InstructionType) (o : Operands) (v : IsOperands o) where
  pub load_fp-reads :
      (f3 : ℕ)
      → isa t ≡ load_fp_code f3
      → Fits (load_fp_code f3) o
      → decode_instruction empty_instruction (assemble (load_fp_code f3) o)
        ≡ ok (decoded t (load_fp_code f3) o)
  unfolding decode_instruction assemble decoded decode_load_fp
  load_fp-reads f3 e fits =
      let (f3_lt, chosen) = load_fp_table t (assemble (load_fp_code f3) o) f3 e in
      rw (
        get_opcode-i_offset 0b0000111 o.rd f3 o.rs1 o.offset (omega arith) v.rd_lt f3_lt v.rs1_lt
            fits,
        read_fields_i-i_offset 0b0000111 o.rd f3 o.rs1 o.offset (omega arith) v.rd_lt f3_lt v.rs1_lt
            fits,
        chosen,
      )

  pub store_fp-reads :
      (f3 : ℕ)
      → isa t ≡ store_fp_code f3
      → Fits (store_fp_code f3) o
      → decode_instruction empty_instruction (assemble (store_fp_code f3) o)
        ≡ ok (decoded t (store_fp_code f3) o)
  unfolding decode_instruction assemble decoded decode_store_fp
  store_fp-reads f3 e fits =
      let (f3_lt, chosen) = store_fp_table t (assemble (store_fp_code f3) o) f3 e in
      rw (
        get_opcode-s_format 0b0100111 f3 o.rs1 o.rs2 o.offset (omega arith) f3_lt v.rs1_lt v.rs2_lt
            fits,
        read_fields_s-s_format 0b0100111 f3 o.rs1 o.rs2 o.offset (omega arith) f3_lt v.rs1_lt
            v.rs2_lt fits,
        chosen,
      )

  pub fp_arithmetic-reads :
      (f7 : ℕ)
      → isa t ≡ fp_arithmetic_code f7
      → (f7 / 2 ≡ 0b000110 → o.rs2 ≢ 0)
      → decode_instruction empty_instruction (assemble (fp_arithmetic_code f7) o)
        ≡ ok (decoded t (fp_arithmetic_code f7) o)
  unfolding decode_instruction assemble decoded decode_op_fp
  fp_arithmetic-reads f7 e h =
      let (f7_lt, chosen) =
        fp_arithmetic_table t (assemble (fp_arithmetic_code f7) o) o.rs2 f7 o.rounding_mode e h in
      let l : IsLayout 0b1010011 o.rd o.rounding_mode o.rs1 o.rs2 f7 = omega arith in
      rw (
        get_opcode-layout 0b1010011 o.rd o.rounding_mode o.rs1 o.rs2 f7 l,
        read_fields_r-layout 0b1010011 o.rd o.rounding_mode o.rs1 o.rs2 f7 l,
        is_single_value f7 f7_lt,
        cleared_value f7 f7_lt,
        chosen,
      )

  pub fp_select-reads :
      (f7 f3 : ℕ)
      → isa t ≡ fp_select_code f7 f3
      → decode_instruction empty_instruction (assemble (fp_select_code f7 f3) o)
        ≡ ok (decoded t (fp_select_code f7 f3) o)
  unfolding decode_instruction assemble decoded decode_op_fp
  fp_select-reads f7 f3 e =
      let (f7_lt, f3_lt, chosen) =
        fp_select_table t (assemble (fp_select_code f7 f3) o) o.rs2 f7 f3 e in
      let l : IsLayout 0b1010011 o.rd f3 o.rs1 o.rs2 f7 = omega arith in
      rw (
        get_opcode-layout 0b1010011 o.rd f3 o.rs1 o.rs2 f7 l,
        read_fields_r-layout 0b1010011 o.rd f3 o.rs1 o.rs2 f7 l,
        is_single_value f7 f7_lt,
        cleared_value f7 f7_lt,
        chosen,
      )

  pub fp_unary-reads :
      (f7 rs2 : ℕ)
      → isa t ≡ fp_unary_code f7 rs2
      → t ≢ fsqrts
      → t ≢ fsqrtd
      → t ≢ fcvtds
      → decode_instruction empty_instruction (assemble (fp_unary_code f7 rs2) o)
        ≡ ok (decoded t (fp_unary_code f7 rs2) o)
  unfolding decode_instruction assemble decoded decode_op_fp
  fp_unary-reads f7 rs2 e n1 n2 n3 =
      let (f7_lt, rs2_lt, chosen) =
        fp_unary_table t (assemble (fp_unary_code f7 rs2) o) f7 rs2 o.rounding_mode e n1 n2 n3 in
      let l : IsLayout 0b1010011 o.rd o.rounding_mode o.rs1 rs2 f7 = omega arith in
      rw (
        get_opcode-layout 0b1010011 o.rd o.rounding_mode o.rs1 rs2 f7 l,
        read_fields_r-layout 0b1010011 o.rd o.rounding_mode o.rs1 rs2 f7 l,
        is_single_value f7 f7_lt,
        cleared_value f7 f7_lt,
        chosen,
      )

  pub fp_move-reads :
      (f7 rs2 f3 : ℕ)
      → isa t ≡ fp_move_code f7 rs2 f3
      → decode_instruction empty_instruction (assemble (fp_move_code f7 rs2 f3) o)
        ≡ ok (decoded t (fp_move_code f7 rs2 f3) o)
  unfolding decode_instruction assemble decoded decode_op_fp
  fp_move-reads f7 rs2 f3 e =
      let (f7_lt, rs2_lt, f3_lt, chosen) =
        fp_move_table t (assemble (fp_move_code f7 rs2 f3) o) f7 rs2 f3 e in
      let l : IsLayout 0b1010011 o.rd f3 o.rs1 rs2 f7 = omega arith in
      rw (
        get_opcode-layout 0b1010011 o.rd f3 o.rs1 rs2 f7 l,
        read_fields_r-layout 0b1010011 o.rd f3 o.rs1 rs2 f7 l,
        is_single_value f7 f7_lt,
        cleared_value f7 f7_lt,
        chosen,
      )

  pub fused-reads :
      (op fmt : ℕ)
      → isa t ≡ fused_code op fmt
      → decode_instruction empty_instruction (assemble (fused_code op fmt) o)
        ≡ ok (decoded t (fused_code op fmt) o)
  unfolding assemble decoded
  fused-reads op fmt e =
      let (op_lt, fmt_lt, chosen) = fused_table t (assemble (fused_code op fmt) o) op fmt e in
      let f7 : ℕ = fmt + o.rs3 * 2 ^ 2 in
      let l : IsLayout op o.rd o.rounding_mode o.rs1 o.rs2 f7 = omega arith in
      fused_dispatch op (assemble (fused_code op fmt) o) (fused_opcode t op fmt e)
        (get_opcode-layout op o.rd o.rounding_mode o.rs1 o.rs2 f7 l)
      ∙ unfold decode_fp_fused_multiply_add in
        rw (
          read_fields_r-layout op o.rd o.rounding_mode o.rs1 o.rs2 f7 l,
          upper_part fmt o.rs3 fmt_lt,
          lower_part fmt o.rs3 fmt_lt,
          chosen,
        )
