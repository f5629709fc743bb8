-- ===== src/Instruction/Isa/Reads/System.antt =====
-- The decoder on fences, environment calls, control registers and atomic operations.
use simple_risc_v_emulator.Instruction.Isa.Parts.{masked_value, small_value, upper_part, lower_part}
use simple_risc_v_emulator.Common.{ℕ, ◌+◌, ◌*◌, ◌^◌, ◌<◌, ◌≡◌, arith}
use simple_risc_v_emulator.Common.{ok, ◌==◌, if◌then◌else◌, inl, inr}
use simple_risc_v_emulator.Bits.{sign_extend}
use simple_risc_v_emulator.Instruction.Types.{InstructionType, empty_instruction}
use simple_risc_v_emulator.Instruction.Types.{lui}
use simple_risc_v_emulator.Instruction.Types.{fencetso, pause, fence, fencei, immediate}
use simple_risc_v_emulator.Instruction.Fields.Layout.{IsLayout, get_opcode-layout}
use simple_risc_v_emulator.Instruction.System.{decode_misc_mem, decode_system, decode_amo}
use simple_risc_v_emulator.Instruction.Decode.{decode_instruction}
use simple_risc_v_emulator.Instruction.Isa.Codes.{
  isa, fence_code, fence_i_code, fence_exact_code, environment_code, csr_code, amo_code,
}
use simple_risc_v_emulator.Instruction.Isa.Assemble.{
  Operands, IsOperands, Fits, assemble, decoded, i_format,
}
use simple_risc_v_emulator.Instruction.Isa.Formats.{read_fields_r-layout, get_opcode-i_format}
use simple_risc_v_emulator.Instruction.Isa.Formats.{read_fields_i-i_format, get_opcode-i_offset}
use simple_risc_v_emulator.Instruction.Isa.Formats.{read_fields_i-i_offset}
use simple_risc_v_emulator.Instruction.Isa.Tables.System.{amo_table, csr_table, environment_table}
use simple_risc_v_emulator.Common.{◌⊎◌, ==-false}

fence_only : (t : InstructionType) → isa t ≡ fence_code → t ≡ fence
unfolding isa
fence_only lui e = absurd (cc)
fence_only t e = grind arith

fence_i_only : (t : InstructionType) → isa t ≡ fence_i_code → t ≡ fencei
unfolding isa
fence_i_only lui e = absurd (cc)
fence_i_only t e = grind arith

fence_exact_cases :
    (t : InstructionType) (imm : ℕ)
    → isa t ≡ fence_exact_code imm
    → ((t ≡ fencetso) × (imm ≡ 0b1000_0011_0011)) ⊎ ((t ≡ pause) × (imm ≡ 0b0000_0001_0000))
unfolding isa
fence_exact_cases lui imm e = absurd (cc)
fence_exact_cases t imm e = grind arith

module _ (t : InstructionType) (o : Operands) (v : IsOperands o) where
  -- A word of MISC-MEM with funct3 zero.
  fence_word :
      (rd rs1 imm : ℕ)
      → rd < 32
      → rs1 < 32
      → imm < 2 ^ 12
      → decode_instruction empty_instruction (i_format 0b0001111 rd 0 rs1 imm)
        ≡ ok (record empty_instruction {
          payload = immediate imm;
          destination_register = rd;
          source_register1 = rs1;
          type =
              if imm == 0b1000_0011_0011
              then fencetso
              else if imm == 0b0000_0001_0000
              then pause
              else fence;
        })
  unfolding decode_instruction decode_misc_mem
  fence_word rd rs1 imm rd_lt rs1_lt h = rw (
    get_opcode-i_format 0b0001111 rd 0 rs1 imm (omega arith) rd_lt (omega arith) rs1_lt h,
    read_fields_i-i_format 0b0001111 rd 0 rs1 imm (omega arith) rd_lt (omega arith) rs1_lt h,
    masked_value imm h,
  )

  pub fence-reads :
      isa t ≡ fence_code
      → Fits (fence_code) o
      → decode_instruction empty_instruction (assemble (fence_code) o)
        ≡ ok (decoded t (fence_code) o)
  unfolding assemble decoded
  fence-reads e (h, not_tso, not_pause) = rw (
    fence_only t e,
    fence_word o.rd o.rs1 o.bits v.rd_lt v.rs1_lt h,
    ==-false o.bits 0b1000_0011_0011 not_tso,
    ==-false o.bits 0b0000_0001_0000 not_pause,
  )

  pub fence_exact-reads :
      (imm : ℕ)
      → isa t ≡ fence_exact_code imm
      → decode_instruction empty_instruction (assemble (fence_exact_code imm) o)
        ≡ ok (decoded t (fence_exact_code imm) o)
  unfolding assemble decoded
  fence_exact-reads imm e = elim (fence_exact_cases t imm e) [
    | inl (p, q) ↦
        rw (p, q) (fence_word 0 0 0b1000_0011_0011 (omega arith) (omega arith) (omega arith))
    | inr (p, q) ↦
        rw (p, q) (fence_word 0 0 0b0000_0001_0000 (omega arith) (omega arith) (omega arith))
  ]

  pub fence_i-reads :
      isa t ≡ fence_i_code
      → Fits (fence_i_code) o
      → decode_instruction empty_instruction (assemble (fence_i_code) o)
        ≡ ok (decoded t (fence_i_code) o)
  unfolding decode_instruction assemble decoded decode_misc_mem
  fence_i-reads e fits = rw (
    fence_i_only t e,
    get_opcode-i_offset 0b0001111 o.rd 1 o.rs1 o.offset (omega arith) v.rd_lt (omega arith) v.rs1_lt
        fits,
    read_fields_i-i_offset 0b0001111 o.rd 1 o.rs1 o.offset (omega arith) v.rd_lt (omega arith)
        v.rs1_lt fits,
  )

  pub environment-reads :
      (imm : ℕ)
      → isa t ≡ environment_code imm
      → decode_instruction empty_instruction (assemble (environment_code imm) o)
        ≡ ok (decoded t (environment_code imm) o)
  unfolding decode_instruction assemble decoded decode_system
  environment-reads imm e =
      let (imm_lt, chosen) = environment_table t (assemble (environment_code imm) o) imm e in
      rw (
        get_opcode-i_format 0b1110011 0 0 0 imm (omega arith) (omega arith) (omega arith)
            (omega arith) (omega arith),
        read_fields_i-i_format 0b1110011 0 0 0 imm (omega arith) (omega arith) (omega arith)
            (omega arith) (omega arith),
        small_value imm (omega arith),
        chosen,
      )

  -- The number of the control register is lost: the immediate is zero, whatever it was.
  pub csr-reads :
      (f3 : ℕ)
      → isa t ≡ csr_code f3
      → o.bits < 2 ^ 12
      → decode_instruction empty_instruction (assemble (csr_code f3) o)
        ≡ ok (decoded t (csr_code f3) (record o { bits = 0 }))
  unfolding decode_instruction assemble decoded decode_system
  csr-reads f3 e h =
      let (f3_lt, chosen) =
        csr_table t (assemble (csr_code f3) o) (sign_extend 32 o.bits 11) f3 e in
      rw (
        get_opcode-i_format 0b1110011 o.rd f3 o.rs1 o.bits (omega arith) v.rd_lt f3_lt v.rs1_lt h,
        read_fields_i-i_format 0b1110011 o.rd f3 o.rs1 o.bits (omega arith) v.rd_lt f3_lt v.rs1_lt
            h,
        chosen,
      )

  pub amo-reads :
      (f5 f3 : ℕ)
      → isa t ≡ amo_code f5 f3
      → decode_instruction empty_instruction (assemble (amo_code f5 f3) o)
        ≡ ok (decoded t (amo_code f5 f3) o)
  unfolding decode_instruction assemble decoded decode_amo
  amo-reads f5 f3 e =
      let (f5_lt, f3_lt, chosen) = amo_table t (assemble (amo_code f5 f3) o) f5 f3 e in
      let f7 : ℕ = o.acquire_release + f5 * 2 ^ 2 in
      let l : IsLayout 0b0101111 o.rd f3 o.rs1 o.rs2 f7 = omega arith in
      rw (
        get_opcode-layout 0b0101111 o.rd f3 o.rs1 o.rs2 f7 l,
        read_fields_r-layout 0b0101111 o.rd f3 o.rs1 o.rs2 f7 l,
        upper_part o.acquire_release f5 v.acquire_release_lt,
        lower_part o.acquire_release f5 v.acquire_release_lt,
        chosen,
      )
