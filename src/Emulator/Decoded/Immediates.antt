-- ===== src/Emulator/Decoded/Immediates.antt =====
-- src/riscv/instruction.cpp: the decoders that change the immediate that was read.
use simple_risc_v_emulator.Common.{ℕ, ◌^◌, ◌<◌, arith}
use simple_risc_v_emulator.Common.{bit_and, ◌==◌}
use simple_risc_v_emulator.Bits.{has_bit, clear_bit}
use simple_risc_v_emulator.Bits.Digits.{bit_and-mask}
use simple_risc_v_emulator.Instruction.Types.{InstructionType, empty_instruction}
use simple_risc_v_emulator.Instruction.Types.{
  lui, addi, slli, slti, sltiu, xori, srai, srli, ori, andi, addiw, slliw, sraiw, srliw,
}
use simple_risc_v_emulator.Instruction.Fields.{read_fields_i, get_funct3, get_immediate_i}
use simple_risc_v_emulator.Instruction.Integer.{
  shift_right_immediate, op_imm_switch, decode_op_imm, op_imm32_switch, decode_op_imm32,
}
use simple_risc_v_emulator.Instruction.System.{decode_misc_mem}
use simple_risc_v_emulator.Emulator.WellFormed.{IsRunnable}
use simple_risc_v_emulator.Emulator.Decoded.Formats.{read_i}
use simple_risc_v_emulator.Emulator.Decoded.Parts.{Gives, Gives-if, get_immediate_i-lt}

module _ (w : ℕ) where
  pub decode_misc_mem-IsRunnable : Gives IsRunnable (decode_misc_mem w empty_instruction)
  unfolding decode_misc_mem read_fields_i
  decode_misc_mem-IsRunnable =
      let masked : bit_and (get_immediate_i w) 0b1111_1111_1111 < 2 ^ 32 =
        omega (arith, bit_and-mask 12 (get_immediate_i w)) in
      Gives-if IsRunnable (get_funct3 w == 0b000) _ _ (read_i w _ _ masked)
        (Gives-if IsRunnable (get_funct3 w == 0b001) _ _ (read_i w _ _ (get_immediate_i-lt w)) tt)

  -- An instruction whose immediate was read, with any type.
  pub immediate_read :
      (t : InstructionType)
      → IsRunnable (record (read_fields_i w empty_instruction).instr { type = t })
  unfolding read_fields_i
  immediate_read t = read_i w _ _ (get_immediate_i-lt w)

  pub shift_right_immediate-IsRunnable :
      (arithmetic logical : InstructionType)
      → Gives IsRunnable
          (shift_right_immediate arithmetic logical (read_fields_i w empty_instruction).instr)
  unfolding shift_right_immediate clear_bit read_fields_i
  shift_right_immediate-IsRunnable arithmetic logical =
      Gives-if IsRunnable (has_bit (get_immediate_i w) 10) _ _ (read_i w _ _ (omega arith))
        (immediate_read logical)

  pub op_imm_switch-IsRunnable :
      (f3 : ℕ) → Gives IsRunnable (op_imm_switch f3 (read_fields_i w empty_instruction).instr)
  unfolding op_imm_switch read_fields_i
  op_imm_switch-IsRunnable f3 = Gives-if IsRunnable (f3 == 0b000) _ _ (immediate_read addi) (
      Gives-if IsRunnable (f3 == 0b001) _ _ (immediate_read slli) (
        Gives-if IsRunnable (f3 == 0b010) _ _ (immediate_read slti) (
          Gives-if IsRunnable (f3 == 0b011) _ _ (immediate_read sltiu) (
            Gives-if IsRunnable (f3 == 0b100) _ _ (immediate_read xori) (
              Gives-if IsRunnable (f3 == 0b101) _ _ (shift_right_immediate-IsRunnable srai srli) (
                Gives-if IsRunnable (f3 == 0b110) _ _ (immediate_read ori) (
                  Gives-if IsRunnable (f3 == 0b111) _ _ (immediate_read andi)
                    (immediate_read lui))))))))

  pub decode_op_imm-IsRunnable : Gives IsRunnable (decode_op_imm w empty_instruction)
  unfolding decode_op_imm
  decode_op_imm-IsRunnable = op_imm_switch-IsRunnable (read_fields_i w empty_instruction).funct3

  pub decode_op_imm32-IsRunnable : Gives IsRunnable (decode_op_imm32 w empty_instruction)
  unfolding decode_op_imm32 op_imm32_switch
  decode_op_imm32-IsRunnable =
      let f3 : ℕ = (read_fields_i w empty_instruction).funct3 in
      Gives-if IsRunnable (f3 == 0b000) _ _ (immediate_read addiw) (
        Gives-if IsRunnable (f3 == 0b001) _ _ (immediate_read slliw)
          (Gives-if IsRunnable (f3 == 0b101) _ _ (shift_right_immediate-IsRunnable sraiw srliw) tt))
