-- ===== src/Emulator/Decoded/Fields.antt =====
-- src/riscv/instruction.cpp: the decoders that only choose a type behind the fields of a format.
use simple_risc_v_emulator.Common.{ℕ, ◌/◌, ◌^◌, arith}
use simple_risc_v_emulator.Common.{bit_and, not}
use simple_risc_v_emulator.Bits.{has_bit, clear_bit}
use simple_risc_v_emulator.Bits.Digits.{bit_and-mask}
use simple_risc_v_emulator.Instruction.Types.{empty_instruction}
use simple_risc_v_emulator.Instruction.Types.{lui}
use simple_risc_v_emulator.Instruction.Fields.{
  read_fields_r, read_fields_i, read_fields_s, read_fields_b, get_funct3, get_funct7,
  get_immediate_i, get_source_register2,
}
use simple_risc_v_emulator.Instruction.Integer.{
  branch_type, decode_branch, load_type, decode_load, store_type, decode_store, op_type, decode_op,
  op32_type, decode_op32,
}
use simple_risc_v_emulator.Instruction.System.{system_type, decode_system, amo_type, decode_amo}
use simple_risc_v_emulator.Instruction.Floating.{
  load_fp_type, decode_load_fp, store_fp_type, decode_store_fp, fused_type,
  decode_fp_fused_multiply_add, op_fp_type, decode_op_fp,
}
use simple_risc_v_emulator.Emulator.WellFormed.{IsRunnable, IsUnsupported}
use simple_risc_v_emulator.Emulator.Decoded.Formats.{read_r, read_i, read_s}
use simple_risc_v_emulator.Emulator.Decoded.Parts.{
  Gives, Gives-bind, get_immediate_i-lt, get_immediate_s-lt, get_immediate_b-lt,
}
use simple_risc_v_emulator.Emulator.Decoded.Types.{
  Some, branch_type-Gives, load_type-Gives, store_type-Gives, op_type-Gives, op32_type-Gives,
  system_type-Gives, amo_type-Gives, load_fp_type-Gives, store_fp_type-Gives, fused_type-Gives,
  op_fp_type-Gives,
}

module _ (w : ℕ) where
  pub decode_branch-IsRunnable : Gives IsRunnable (decode_branch w empty_instruction)
  unfolding decode_branch read_fields_b
  decode_branch-IsRunnable =
      Gives-bind Some IsRunnable (branch_type w (get_funct3 w)) _
        (branch_type-Gives w (get_funct3 w)) (λ t u. read_s w _ _ (get_immediate_b-lt w))

  pub decode_load-IsRunnable : Gives IsRunnable (decode_load w empty_instruction)
  unfolding decode_load read_fields_i
  decode_load-IsRunnable =
      Gives-bind Some IsRunnable (load_type w (get_funct3 w)) _ (load_type-Gives w (get_funct3 w))
        (λ t u. read_i w _ _ (get_immediate_i-lt w))

  pub decode_store-IsRunnable : Gives IsRunnable (decode_store w empty_instruction)
  unfolding decode_store read_fields_s
  decode_store-IsRunnable =
      Gives-bind Some IsRunnable (store_type w (get_funct3 w)) _ (store_type-Gives w (get_funct3 w))
        (λ t u. read_s w _ _ (get_immediate_s-lt w))

  pub decode_op-IsRunnable : Gives IsRunnable (decode_op w empty_instruction)
  unfolding decode_op read_fields_r
  decode_op-IsRunnable =
      Gives-bind Some IsRunnable (op_type w lui (get_funct7 w) (get_funct3 w)) _
        (op_type-Gives w lui (get_funct7 w) (get_funct3 w)) (λ t u. read_r w _ _ (omega arith))

  pub decode_op32-IsRunnable : Gives IsRunnable (decode_op32 w empty_instruction)
  unfolding decode_op32 read_fields_r
  decode_op32-IsRunnable =
      Gives-bind Some IsRunnable (op32_type w (get_funct7 w) (get_funct3 w)) _
        (op32_type-Gives w (get_funct7 w) (get_funct3 w)) (λ t u. read_r w _ _ (omega arith))

  pub decode_system-IsRunnable : Gives IsRunnable (decode_system w empty_instruction)
  unfolding decode_system read_fields_i
  decode_system-IsRunnable =
      Gives-bind Some IsRunnable (system_type w (get_immediate_i w) (get_funct3 w)) _
        (system_type-Gives w (get_immediate_i w) (get_funct3 w)) (λ t u. read_i w _ _ (omega arith))

  pub decode_amo-IsRunnable : Gives IsRunnable (decode_amo w empty_instruction)
  unfolding decode_amo read_fields_r
  decode_amo-IsRunnable =
      Gives-bind Some IsRunnable (amo_type w (get_funct7 w / 2 ^ 2) (get_funct3 w)) _
        (amo_type-Gives w (get_funct7 w / 2 ^ 2) (get_funct3 w))
        (λ t u. read_r w _ _ (omega (arith, bit_and-mask 2 (get_funct7 w))))

  pub decode_load_fp-IsRunnable : Gives IsRunnable (decode_load_fp w empty_instruction)
  unfolding decode_load_fp read_fields_i
  decode_load_fp-IsRunnable =
      Gives-bind Some IsRunnable (load_fp_type w (get_funct3 w)) _
        (load_fp_type-Gives w (get_funct3 w)) (λ t u. read_i w _ _ (get_immediate_i-lt w))

  pub decode_store_fp-IsRunnable : Gives IsRunnable (decode_store_fp w empty_instruction)
  unfolding decode_store_fp read_fields_s
  decode_store_fp-IsRunnable =
      Gives-bind Some IsRunnable (store_fp_type w (get_funct3 w)) _
        (store_fp_type-Gives w (get_funct3 w)) (λ t u. read_s w _ _ (get_immediate_s-lt w))

  pub decode_fp_fused_multiply_add-IsRunnable :
      (opcode : ℕ) → Gives IsRunnable (decode_fp_fused_multiply_add w opcode empty_instruction)
  unfolding decode_fp_fused_multiply_add read_fields_r
  decode_fp_fused_multiply_add-IsRunnable opcode =
      Gives-bind IsUnsupported IsRunnable (fused_type w (bit_and (get_funct7 w) 0b11) opcode) _
        (fused_type-Gives w (bit_and (get_funct7 w) 0b11) opcode) (λ t u. read_r w _ _ u)

  pub decode_op_fp-IsRunnable : Gives IsRunnable (decode_op_fp w empty_instruction)
  unfolding decode_op_fp read_fields_r
  decode_op_fp-IsRunnable =
      Gives-bind IsUnsupported IsRunnable
        (op_fp_type w (not (has_bit (get_funct7 w) 0)) (get_source_register2 w)
          (clear_bit 8 (get_funct7 w) 0) (get_funct3 w))
        _
        (op_fp_type-Gives w (not (has_bit (get_funct7 w) 0)) (get_source_register2 w)
          (clear_bit 8 (get_funct7 w) 0) (get_funct3 w))
        (λ t u. read_r w _ _ u)
