-- ===== src/Emulator/Decoded/Decode.antt =====
-- src/riscv/instruction.cpp: what `decodeInstruction` returns on any word.
use simple_risc_v_emulator.Common.{ℕ}
use simple_risc_v_emulator.Common.{◌==◌}
use simple_risc_v_emulator.Instruction.Types.{empty_instruction}
use simple_risc_v_emulator.Instruction.Types.{jalr}
use simple_risc_v_emulator.Instruction.Fields.{
  read_fields_i, read_fields_u, read_fields_j, get_opcode,
}
use simple_risc_v_emulator.Instruction.Decode.{decode_instruction, decode_by_opcode}
use simple_risc_v_emulator.Instruction.Decode.{
  lui_opcode, auipc_opcode, jal_opcode, jalr_opcode, branch_opcode, load_opcode, store_opcode,
  op_imm_opcode, op_imm32_opcode, op_opcode, op32_opcode, misc_mem_opcode, system_opcode,
  amo_opcode, load_fp_opcode, store_fp_opcode, op_fp_opcode,
}
use simple_risc_v_emulator.Instruction.Floating.{
  madd_opcode, msub_opcode, nmadd_opcode, nmsub_opcode,
}
use simple_risc_v_emulator.Common.{◌||◌}
use simple_risc_v_emulator.Emulator.WellFormed.{IsRunnable}
use simple_risc_v_emulator.Emulator.Decoded.Formats.{read_u}
use simple_risc_v_emulator.Emulator.Decoded.Parts.{
  Gives, Gives-if, get_immediate_u-lt, get_immediate_j-lt,
}
use simple_risc_v_emulator.Emulator.Decoded.Fields.{
  decode_branch-IsRunnable, decode_load-IsRunnable, decode_store-IsRunnable, decode_op-IsRunnable,
  decode_op32-IsRunnable, decode_system-IsRunnable, decode_amo-IsRunnable,
  decode_load_fp-IsRunnable, decode_store_fp-IsRunnable, decode_fp_fused_multiply_add-IsRunnable,
  decode_op_fp-IsRunnable,
}
use simple_risc_v_emulator.Emulator.Decoded.Immediates.{
  decode_misc_mem-IsRunnable, immediate_read, decode_op_imm-IsRunnable, decode_op_imm32-IsRunnable,
}

module _ (w : ℕ) where
  decode_by_opcode-IsRunnable :
      (opcode : ℕ) → Gives IsRunnable (decode_by_opcode opcode w empty_instruction)
  unfolding decode_by_opcode read_fields_u read_fields_j read_fields_i
  decode_by_opcode-IsRunnable opcode =
      (Gives-if IsRunnable (opcode == lui_opcode) _ _ (read_u w _ _ (get_immediate_u-lt w)) (
        Gives-if IsRunnable (opcode == auipc_opcode) _ _ (read_u w _ _ (get_immediate_u-lt w)) (
          Gives-if IsRunnable (opcode == jal_opcode) _ _ (read_u w _ _ (get_immediate_j-lt w)) (
            Gives-if IsRunnable (opcode == jalr_opcode) _ _ (immediate_read w jalr) (
              Gives-if IsRunnable (opcode == branch_opcode) _ _ (decode_branch-IsRunnable w) (
                Gives-if IsRunnable (opcode == load_opcode) _ _ (decode_load-IsRunnable w) (
                  Gives-if IsRunnable (opcode == store_opcode) _ _ (decode_store-IsRunnable w) (
                    Gives-if IsRunnable (opcode == op_imm_opcode) _ _ (decode_op_imm-IsRunnable w) (
                      Gives-if IsRunnable (opcode == op_imm32_opcode) _ _
                        (decode_op_imm32-IsRunnable w)
                        (Gives-if IsRunnable (opcode == op_opcode) _ _ (decode_op-IsRunnable w) (
                          Gives-if IsRunnable (opcode == op32_opcode) _ _ (decode_op32-IsRunnable w)
                            (Gives-if IsRunnable (opcode == misc_mem_opcode) _ _
                              (decode_misc_mem-IsRunnable w)
                              (Gives-if IsRunnable (opcode == system_opcode) _ _
                                (decode_system-IsRunnable w)
                                (Gives-if IsRunnable (opcode == amo_opcode) _ _
                                  (decode_amo-IsRunnable w)
                                  (Gives-if IsRunnable (opcode == load_fp_opcode) _ _
                                    (decode_load_fp-IsRunnable w)
                                    (Gives-if IsRunnable (opcode == store_fp_opcode) _ _
                                      (decode_store_fp-IsRunnable w)
                                      (Gives-if IsRunnable
                                        (opcode == madd_opcode
                                          || opcode == msub_opcode
                                          || opcode == nmadd_opcode
                                          || opcode == nmsub_opcode)
                                        _ _ (decode_fp_fused_multiply_add-IsRunnable w opcode)
                                        (Gives-if IsRunnable (opcode == op_fp_opcode) _ _
                                          (decode_op_fp-IsRunnable w) tt))))))))))))))))))

  -- Every word decodes to an instruction that the loop can run, or is refused by an exception.
  pub decode_instruction-IsRunnable : Gives IsRunnable (decode_instruction empty_instruction w)
  unfolding decode_instruction
  decode_instruction-IsRunnable = decode_by_opcode-IsRunnable (get_opcode w)
