-- ===== src/Instruction/Isa/Reads/Upper.antt =====
-- The decoder on upper immediates, jumps and `ADDIW`.
use simple_risc_v_emulator.Common.{ℕ, ◌^◌, ◌<◌, ◌≡◌, arith}
use simple_risc_v_emulator.Common.{ok, inl, inr}
use simple_risc_v_emulator.Instruction.Types.{InstructionType, empty_instruction}
use simple_risc_v_emulator.Instruction.Types.{lui, auipc, jal, jalr}
use simple_risc_v_emulator.Instruction.Types.{addiw}
use simple_risc_v_emulator.Instruction.Integer.{decode_op_imm32}
use simple_risc_v_emulator.Instruction.Integer.{op_imm32_switch}
use simple_risc_v_emulator.Instruction.Decode.{decode_instruction}
use simple_risc_v_emulator.Instruction.Isa.Codes.{
  isa, upper_code, jump_code, jump_register_code, op_imm32_code,
}
use simple_risc_v_emulator.Instruction.Isa.Assemble.{Operands, IsOperands, Fits, assemble, decoded}
use simple_risc_v_emulator.Instruction.Isa.Formats.{get_opcode-i_offset}
use simple_risc_v_emulator.Instruction.Isa.Formats.{read_fields_i-i_offset}
use simple_risc_v_emulator.Instruction.Isa.Formats.{get_opcode-u_format}
use simple_risc_v_emulator.Instruction.Isa.Formats.{read_fields_u-u_format, get_opcode-j_format}
use simple_risc_v_emulator.Instruction.Isa.Formats.{read_fields_j-j_format}
use simple_risc_v_emulator.Common.{◌⊎◌}

upper_cases :
    (t : InstructionType) (op : ℕ)
    → isa t ≡ upper_code op
    → ((t ≡ lui) × (op ≡ 0b0110111)) ⊎ ((t ≡ auipc) × (op ≡ 0b0010111))
unfolding isa
upper_cases lui op e = grind arith
upper_cases t op e = grind arith

jump_only : (t : InstructionType) → isa t ≡ jump_code → t ≡ jal
unfolding isa
jump_only lui e = absurd (cc)
jump_only t e = grind arith

jump_register_only : (t : InstructionType) → isa t ≡ jump_register_code → t ≡ jalr
unfolding isa
jump_register_only lui e = absurd (cc)
jump_register_only t e = grind arith

addiw_only : (t : InstructionType) → isa t ≡ op_imm32_code → t ≡ addiw
unfolding isa
addiw_only lui e = absurd (cc)
addiw_only t e = grind arith

module _ (t : InstructionType) (o : Operands) (v : IsOperands o) where
  lui-reads :
      o.bits < 2 ^ 20
      → decode_instruction empty_instruction (assemble (upper_code 0b0110111) o)
        ≡ ok (decoded lui (upper_code 0b0110111) o)
  unfolding decode_instruction assemble decoded
  lui-reads h = rw (
    get_opcode-u_format 0b0110111 o.rd o.bits (omega arith) v.rd_lt h,
    read_fields_u-u_format 0b0110111 o.rd o.bits (omega arith) v.rd_lt h,
  )

  auipc-reads :
      o.bits < 2 ^ 20
      → decode_instruction empty_instruction (assemble (upper_code 0b0010111) o)
        ≡ ok (decoded auipc (upper_code 0b0010111) o)
  unfolding decode_instruction assemble decoded
  auipc-reads h = rw (
    get_opcode-u_format 0b0010111 o.rd o.bits (omega arith) v.rd_lt h,
    read_fields_u-u_format 0b0010111 o.rd o.bits (omega arith) v.rd_lt h,
  )

  pub upper-reads :
      (op : ℕ)
      → isa t ≡ upper_code op
      → Fits (upper_code op) o
      → decode_instruction empty_instruction (assemble (upper_code op) o)
        ≡ ok (decoded t (upper_code op) o)
  upper-reads op e fits = elim (upper_cases t op e) [
    | inl (p, q) ↦ rw (p, q) (lui-reads fits)
    | inr (p, q) ↦ rw (p, q) (auipc-reads fits)
  ]

  pub jump-reads :
      isa t ≡ jump_code
      → Fits (jump_code) o
      → decode_instruction empty_instruction (assemble (jump_code) o) ≡ ok (decoded t (jump_code) o)
  unfolding decode_instruction assemble decoded
  jump-reads e (fits, even) = rw (
    jump_only t e,
    get_opcode-j_format o.rd o.offset v.rd_lt fits even,
    read_fields_j-j_format o.rd o.offset v.rd_lt fits even,
  )

  pub jump_register-reads :
      isa t ≡ jump_register_code
      → Fits (jump_register_code) o
      → decode_instruction empty_instruction (assemble (jump_register_code) o)
        ≡ ok (decoded t (jump_register_code) o)
  unfolding decode_instruction assemble decoded
  jump_register-reads e fits = rw (
    jump_register_only t e,
    get_opcode-i_offset 0b1100111 o.rd 0 o.rs1 o.offset (omega arith) v.rd_lt (omega arith) v.rs1_lt
        fits,
    read_fields_i-i_offset 0b1100111 o.rd 0 o.rs1 o.offset (omega arith) v.rd_lt (omega arith)
        v.rs1_lt fits,
  )

  pub addiw-reads :
      isa t ≡ op_imm32_code
      → Fits (op_imm32_code) o
      → decode_instruction empty_instruction (assemble (op_imm32_code) o)
        ≡ ok (decoded t (op_imm32_code) o)
  unfolding decode_instruction assemble decoded decode_op_imm32 op_imm32_switch
  addiw-reads e fits = rw (
    addiw_only t e,
    get_opcode-i_offset 0b0011011 o.rd 0 o.rs1 o.offset (omega arith) v.rd_lt (omega arith) v.rs1_lt
        fits,
    read_fields_i-i_offset 0b0011011 o.rd 0 o.rs1 o.offset (omega arith) v.rd_lt (omega arith)
        v.rs1_lt fits,
  )
