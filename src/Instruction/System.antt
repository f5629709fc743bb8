-- ===== src/Instruction/System.antt =====
-- src/riscv/instruction.cpp: fences, system instructions and atomic memory operations.
use simple_risc_v_emulator.Common.{ℕ, ◌/◌, ◌^◌, ◌==◌, if◌then◌else◌, Result, ok, throw, ◌>>=◌}
use simple_risc_v_emulator.Common.{bit_and}
use simple_risc_v_emulator.Common.{unknown_instruction}
use simple_risc_v_emulator.Common.{misc_mem_class, system_class, amo_class}
use simple_risc_v_emulator.Instruction.Types.{Instruction, InstructionType, immediate}
use simple_risc_v_emulator.Instruction.Types.{read_immediate}
use simple_risc_v_emulator.Instruction.Types.{
  fencetso, pause, fence, fencei, ecall, ebreak, csrrw, csrrs, csrrc, csrrwi,
}
use simple_risc_v_emulator.Instruction.Types.{
  csrrsi, csrrci, amoaddw, amoswapw, lrw, scw, amoxorw, amoorw, amoandw, amominw,
}
use simple_risc_v_emulator.Instruction.Types.{
  amomaxw, amominuw, amomaxuw, amoaddd, amoswapd, lrd, scd, amoxord, amoord, amoandd,
}
use simple_risc_v_emulator.Instruction.Types.{amomind, amomaxd, amominud, amomaxud}
use simple_risc_v_emulator.Instruction.Fields.{read_fields_r, read_fields_i}

unfoldable pub decode_misc_mem : ℕ → Instruction → Result Instruction
decode_misc_mem encoded instr =
    let fields = read_fields_i encoded instr in
    if fields.funct3 == 0b000
    then (do
      value ← read_immediate fields.instr
      let masked = bit_and value 0b1111_1111_1111
      ok (record fields.instr {
        payload = immediate masked;
        type =
            if masked == 0b1000_0011_0011
            then fencetso
            else if masked == 0b0000_0001_0000
            then pause
            else fence;
      }))
    else if fields.funct3 == 0b001
    then ok (record fields.instr { type = fencei })
    else throw (unknown_instruction encoded misc_mem_class)

-- The argument `value` is the immediate that was read before the field was reset.
unfoldable pub system_type : ℕ → ℕ → ℕ → Result InstructionType
system_type encoded value funct3 =
    if funct3 == 0b000
    then (if value == 0b0
        then ok ecall
        else if value == 0b1
        then ok ebreak
        else throw (unknown_instruction encoded system_class))
    else if funct3 == 0b001
    then ok csrrw
    else if funct3 == 0b010
    then ok csrrs
    else if funct3 == 0b011
    then ok csrrc
    else if funct3 == 0b101
    then ok csrrwi
    else if funct3 == 0b110
    then ok csrrsi
    else if funct3 == 0b111
    then ok csrrci
    else throw (unknown_instruction encoded system_class)

unfoldable pub decode_system : ℕ → Instruction → Result Instruction
decode_system encoded instr = do
  let fields = read_fields_i encoded instr
  value ← read_immediate fields.instr
  type ← system_type encoded value fields.funct3
  ok (record fields.instr { payload = immediate 0; type = type })

unfoldable pub amo_word_type : ℕ → ℕ → Result InstructionType
amo_word_type encoded funct5 =
    if funct5 == 0b00000
    then ok amoaddw
    else if funct5 == 0b00001
    then ok amoswapw
    else if funct5 == 0b00010
    then ok lrw
    else if funct5 == 0b00011
    then ok scw
    else if funct5 == 0b00100
    then ok amoxorw
    else if funct5 == 0b01000
    then ok amoorw
    else if funct5 == 0b01100
    then ok amoandw
    else if funct5 == 0b10000
    then ok amominw
    else if funct5 == 0b10100
    then ok amomaxw
    else if funct5 == 0b11000
    then ok amominuw
    else if funct5 == 0b11100
    then ok amomaxuw
    else throw (unknown_instruction encoded amo_class)

unfoldable pub amo_double_type : ℕ → ℕ → Result InstructionType
amo_double_type encoded funct5 =
    if funct5 == 0b00000
    then ok amoaddd
    else if funct5 == 0b00001
    then ok amoswapd
    else if funct5 == 0b00010
    then ok lrd
    else if funct5 == 0b00011
    then ok scd
    else if funct5 == 0b00100
    then ok amoxord
    else if funct5 == 0b01000
    then ok amoord
    else if funct5 == 0b01100
    then ok amoandd
    else if funct5 == 0b10000
    then ok amomind
    else if funct5 == 0b10100
    then ok amomaxd
    else if funct5 == 0b11000
    then ok amominud
    else if funct5 == 0b11100
    then ok amomaxud
    else throw (unknown_instruction encoded amo_class)

unfoldable pub amo_type : ℕ → ℕ → ℕ → Result InstructionType
amo_type encoded funct5 funct3 =
    if funct3 == 0b010
    then amo_word_type encoded funct5
    else if funct3 == 0b011
    then amo_double_type encoded funct5
    else throw (unknown_instruction encoded amo_class)

unfoldable pub decode_amo : ℕ → Instruction → Result Instruction
decode_amo encoded instr = do
  let fields = read_fields_r encoded instr
  let funct5 = fields.funct7 / 2 ^ 2
  type ← amo_type encoded funct5 fields.funct3
  ok (record fields.instr { payload = immediate (bit_and fields.funct7 0b11); type = type })
