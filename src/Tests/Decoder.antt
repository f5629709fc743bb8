-- ===== src/Tests/Decoder.antt =====
-- src/riscv/instruction.cpp on words of the instruction set.
use simple_risc_v_emulator.Common.{All, ℕ, List, [], ◌∷◌, ◌≡◌, refl, arith, ok, throw}
use simple_risc_v_emulator.Common.{negsuc, unknown_instruction, op_fp_class}
use simple_risc_v_emulator.Memory.{big}
use simple_risc_v_emulator.Instruction.Types.{empty_instruction}
use simple_risc_v_emulator.Instruction.Types.{add, beq, fdivs, fdivd, fsqrts, fsqrtd, fcvtds, csrrw}
use simple_risc_v_emulator.Instruction.Decode.{decode_instruction, decode_instructions}
use simple_risc_v_emulator.Instruction.Program.{decode_program, decode_instructions-eq}
use simple_risc_v_emulator.Instruction.Isa.Codes.{isa, csr_code}
use simple_risc_v_emulator.Instruction.Isa.Assemble.{Operands, IsOperands, Fits, assemble, decoded}
use simple_risc_v_emulator.Instruction.Isa.RoundTrip.{decode_instruction-assemble}
use simple_risc_v_emulator.Instruction.Isa.Programs.{
  Line, IsLine, program_of, instructions_of, decode_instructions-program_of,
}
use simple_risc_v_emulator.Instruction.Isa.Departures.{
  square_roots_refused, division_by_f0, control_register_lost,
}

-- `beq x10, x11, -8` among others.
abbrev operands : Operands
operands = record {
  rd = 5;
  rs1 = 10;
  rs2 = 11;
  rs3 = 12;
  rounding_mode = 7;
  acquire_release = 0;
  offset = negsuc 7;
  bits = 0;
}

operands-IsOperands : IsOperands operands
operands-IsOperands = omega arith

branch-Fits : Fits (isa beq) operands
unfolding isa
branch-Fits = (omega arith, refl)

decode_instruction-assemble_example :
    decode_instruction empty_instruction (assemble (isa beq) operands)
    ≡ ok (decoded beq (isa beq) operands)
decode_instruction-assemble_example =
    decode_instruction-assemble beq operands operands-IsOperands branch-Fits tt

-- `lui x1, 1` and a word whose low bits say that it is compressed.
abbrev two_words : List ℕ
two_words = 0xB7 ∷ 0x10 ∷ 0 ∷ 0 ∷ 1 ∷ 0 ∷ 0 ∷ 0 ∷ []

decode_instructions-eq_example : decode_instructions big two_words ≡ decode_program two_words
decode_instructions-eq_example = decode_instructions-eq big two_words (omega arith)

square_roots_refused_example :
    (decode_instruction empty_instruction (assemble (isa fsqrts) operands)
      ≡ throw (unknown_instruction (assemble (isa fsqrts) operands) op_fp_class))
    × (decode_instruction empty_instruction (assemble (isa fsqrtd) operands)
        ≡ throw (unknown_instruction (assemble (isa fsqrtd) operands) op_fp_class))
    × (decode_instruction empty_instruction (assemble (isa fcvtds) operands)
        ≡ throw (unknown_instruction (assemble (isa fcvtds) operands) op_fp_class))
square_roots_refused_example = square_roots_refused operands operands-IsOperands

abbrev by_f0 : Operands
by_f0 = record operands { rs2 = 0 }

division_by_f0_example :
    (decode_instruction empty_instruction (assemble (isa fdivs) by_f0)
      ≡ ok (decoded fsqrts (isa fdivs) by_f0))
    × (decode_instruction empty_instruction (assemble (isa fdivd) by_f0)
        ≡ ok (decoded fsqrtd (isa fdivd) by_f0))
division_by_f0_example = division_by_f0 by_f0 (omega arith) refl

csrrw_isa : isa csrrw ≡ csr_code 1
unfolding isa
csrrw_isa = refl

-- `fcsr` and `cycle`.
control_register_lost_example :
    decode_instruction empty_instruction (assemble (isa csrrw) (record operands { bits = 3 }))
    ≡ decode_instruction empty_instruction (assemble (isa csrrw) (record operands { bits = 0xC00 }))
control_register_lost_example =
    control_register_lost csrrw 1 (record operands { bits = 3 }) 0xC00 (omega arith) csrrw_isa
      (omega arith) (omega arith)

-- Two lines, the second `add x5, x10, x11`.
abbrev lines : List Line
lines = (beq, operands) ∷ (add, operands) ∷ []

lines-IsLine : All IsLine lines
unfolding isa
lines-IsLine = ((operands-IsOperands, branch-Fits, tt), ((operands-IsOperands, tt, tt), tt))

decode_instructions-program_of_example :
    decode_instructions big (program_of lines) ≡ ok (instructions_of lines)
decode_instructions-program_of_example = decode_instructions-program_of big lines lines-IsLine
