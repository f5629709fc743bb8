-- ===== src/Instruction/Isa/Reads/Shift.antt =====
-- The decoder on shifts by an immediate, where a bit marks an arithmetic shift.
use simple_risc_v_emulator.Instruction.Isa.Parts.{
  shift_value, logical_bit, arithmetic_bit, cleared_bit,
}
use simple_risc_v_emulator.Common.{ℕ, ◌+◌, ◌*◌, ◌^◌, ◌<◌, ◌≡◌, ap, arith}
use simple_risc_v_emulator.Common.{ok, inl, inr}
use simple_risc_v_emulator.Instruction.Types.{InstructionType, empty_instruction}
use simple_risc_v_emulator.Instruction.Types.{lui, slli, srli, srai, slliw, srliw, sraiw}
use simple_risc_v_emulator.Instruction.Integer.{decode_op_imm, decode_op_imm32}
use simple_risc_v_emulator.Instruction.Integer.{op_imm_switch, op_imm32_switch}
use simple_risc_v_emulator.Instruction.Decode.{decode_instruction}
use simple_risc_v_emulator.Instruction.Isa.Codes.{isa, shift_code, shift32_code}
use simple_risc_v_emulator.Instruction.Isa.Assemble.{Operands, IsOperands, Fits, assemble, decoded}
use simple_risc_v_emulator.Instruction.Isa.Formats.{get_opcode-i_format}
use simple_risc_v_emulator.Instruction.Isa.Formats.{read_fields_i-i_format}
use simple_risc_v_emulator.Common.{◌⊎◌}

-- The types with these codes.
shift_cases :
    (t : InstructionType) (f3 a : ℕ)
    → isa t ≡ shift_code f3 a
    → ((t ≡ slli) × (f3 ≡ 1) × (a ≡ 0))
      ⊎ ((t ≡ srli) × (f3 ≡ 5) × (a ≡ 0))
      ⊎ ((t ≡ srai) × (f3 ≡ 5) × (a ≡ 1))
unfolding isa
shift_cases lui f3 a e = absurd (cc)
shift_cases t f3 a e = grind arith

shift32_cases :
    (t : InstructionType) (f3 a : ℕ)
    → isa t ≡ shift32_code f3 a
    → ((t ≡ slliw) × (f3 ≡ 1) × (a ≡ 0))
      ⊎ ((t ≡ srliw) × (f3 ≡ 5) × (a ≡ 0))
      ⊎ ((t ≡ sraiw) × (f3 ≡ 5) × (a ≡ 1))
unfolding isa
shift32_cases lui f3 a e = absurd (cc)
shift32_cases t f3 a e = grind arith

module _ (t : InstructionType) (o : Operands) (v : IsOperands o) where
  slli-reads :
      o.bits < 64
      → decode_instruction empty_instruction (assemble (shift_code 1 0) o)
        ≡ ok (decoded slli (shift_code 1 0) o)
  unfolding decode_instruction assemble decoded decode_op_imm op_imm_switch
  slli-reads h =
      rw
        (
          get_opcode-i_format 0b0010011 o.rd 1 o.rs1 (o.bits + 0 * 2 ^ 10) (omega arith) v.rd_lt
              (omega arith) v.rs1_lt (omega arith),
          read_fields_i-i_format 0b0010011 o.rd 1 o.rs1 (o.bits + 0 * 2 ^ 10) (omega arith) v.rd_lt
              (omega arith) v.rs1_lt (omega arith),
          shift_value o.bits 0 h (omega arith),
        )
        (ap (λ (x : ℕ). ok (decoded slli (shift_code 1 0) (record o { bits = x }))) (omega arith))

  srli-reads :
      o.bits < 64
      → decode_instruction empty_instruction (assemble (shift_code 5 0) o)
        ≡ ok (decoded srli (shift_code 5 0) o)
  unfolding decode_instruction assemble decoded decode_op_imm op_imm_switch
  srli-reads h =
      rw
        (
          get_opcode-i_format 0b0010011 o.rd 5 o.rs1 (o.bits + 0 * 2 ^ 10) (omega arith) v.rd_lt
              (omega arith) v.rs1_lt (omega arith),
          read_fields_i-i_format 0b0010011 o.rd 5 o.rs1 (o.bits + 0 * 2 ^ 10) (omega arith) v.rd_lt
              (omega arith) v.rs1_lt (omega arith),
          shift_value o.bits 0 h (omega arith),
          logical_bit o.bits h,
        )
        (ap (λ (x : ℕ). ok (decoded srli (shift_code 5 0) (record o { bits = x }))) (omega arith))

  srai-reads :
      o.bits < 64
      → decode_instruction empty_instruction (assemble (shift_code 5 1) o)
        ≡ ok (decoded srai (shift_code 5 1) o)
  unfolding decode_instruction assemble decoded decode_op_imm op_imm_switch
  srai-reads h = rw (
    get_opcode-i_format 0b0010011 o.rd 5 o.rs1 (o.bits + 1 * 2 ^ 10) (omega arith) v.rd_lt
        (omega arith) v.rs1_lt (omega arith),
    read_fields_i-i_format 0b0010011 o.rd 5 o.rs1 (o.bits + 1 * 2 ^ 10) (omega arith) v.rd_lt
        (omega arith) v.rs1_lt (omega arith),
    shift_value o.bits 1 h (omega arith),
    arithmetic_bit o.bits h,
    cleared_bit o.bits h,
  )

  pub shift-reads :
      (f3 a : ℕ)
      → isa t ≡ shift_code f3 a
      → Fits (shift_code f3 a) o
      → decode_instruction empty_instruction (assemble (shift_code f3 a) o)
        ≡ ok (decoded t (shift_code f3 a) o)
  shift-reads f3 a e fits = elim (shift_cases t f3 a e) [
    | inl (p, q, r) ↦ rw (p, q, r) (slli-reads (omega arith))
    | inr (inl (p, q, r)) ↦ rw (p, q, r) (srli-reads (omega arith))
    | inr (inr (p, q, r)) ↦ rw (p, q, r) (srai-reads (omega arith))
  ]

  slliw-reads :
      o.bits < 64
      → decode_instruction empty_instruction (assemble (shift32_code 1 0) o)
        ≡ ok (decoded slliw (shift32_code 1 0) o)
  unfolding decode_instruction assemble decoded decode_op_imm32 op_imm32_switch
  slliw-reads h =
      rw
        (
          get_opcode-i_format 0b0011011 o.rd 1 o.rs1 (o.bits + 0 * 2 ^ 10) (omega arith) v.rd_lt
              (omega arith) v.rs1_lt (omega arith),
          read_fields_i-i_format 0b0011011 o.rd 1 o.rs1 (o.bits + 0 * 2 ^ 10) (omega arith) v.rd_lt
              (omega arith) v.rs1_lt (omega arith),
          shift_value o.bits 0 h (omega arith),
        )
        (ap (λ (x : ℕ). ok (decoded slliw (shift32_code 1 0) (record o { bits = x })))
          (omega arith))

  srliw-reads :
      o.bits < 64
      → decode_instruction empty_instruction (assemble (shift32_code 5 0) o)
        ≡ ok (decoded srliw (shift32_code 5 0) o)
  unfolding decode_instruction assemble decoded decode_op_imm32 op_imm32_switch
  srliw-reads h =
      rw
        (
          get_opcode-i_format 0b0011011 o.rd 5 o.rs1 (o.bits + 0 * 2 ^ 10) (omega arith) v.rd_lt
              (omega arith) v.rs1_lt (omega arith),
          read_fields_i-i_format 0b0011011 o.rd 5 o.rs1 (o.bits + 0 * 2 ^ 10) (omega arith) v.rd_lt
              (omega arith) v.rs1_lt (omega arith),
          shift_value o.bits 0 h (omega arith),
          logical_bit o.bits h,
        )
        (ap (λ (x : ℕ). ok (decoded srliw (shift32_code 5 0) (record o { bits = x })))
          (omega arith))

  sraiw-reads :
      o.bits < 64
      → decode_instruction empty_instruction (assemble (shift32_code 5 1) o)
        ≡ ok (decoded sraiw (shift32_code 5 1) o)
  unfolding decode_instruction assemble decoded decode_op_imm32 op_imm32_switch
  sraiw-reads h = rw (
    get_opcode-i_format 0b0011011 o.rd 5 o.rs1 (o.bits + 1 * 2 ^ 10) (omega arith) v.rd_lt
        (omega arith) v.rs1_lt (omega arith),
    read_fields_i-i_format 0b0011011 o.rd 5 o.rs1 (o.bits + 1 * 2 ^ 10) (omega arith) v.rd_lt
        (omega arith) v.rs1_lt (omega arith),
    shift_value o.bits 1 h (omega arith),
    arithmetic_bit o.bits h,
    cleared_bit o.bits h,
  )

  pub shift32-reads :
      (f3 a : ℕ)
      → isa t ≡ shift32_code f3 a
      → Fits (shift32_code f3 a) o
      → decode_instruction empty_instruction (assemble (shift32_code f3 a) o)
        ≡ ok (decoded t (shift32_code f3 a) o)
  shift32-reads f3 a e fits = elim (shift32_cases t f3 a e) [
    | inl (p, q, r) ↦ rw (p, q, r) (slliw-reads (omega arith))
    | inr (inl (p, q, r)) ↦ rw (p, q, r) (srliw-reads (omega arith))
    | inr (inr (p, q, r)) ↦ rw (p, q, r) (sraiw-reads (omega arith))
  ]
