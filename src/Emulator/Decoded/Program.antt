-- ===== src/Emulator/Decoded/Program.antt =====
-- src/riscv/instruction.cpp: what `decodeInstructions` returns on any program.
use simple_risc_v_emulator.Common.{ℕ, List, [], ◌∷◌, length, All, ◌%◌, ◌==◌, sym, subst}
use simple_risc_v_emulator.Memory.{Endian}
use simple_risc_v_emulator.Memory.Value.{IsByte}
use simple_risc_v_emulator.Instruction.Types.{empty_instruction}
use simple_risc_v_emulator.Instruction.Decode.{decode_instruction, decode_instructions}
use simple_risc_v_emulator.Instruction.Program.{words, decode_words, decode_instructions-eq}
use simple_risc_v_emulator.Emulator.WellFormed.{IsRunnable}
use simple_risc_v_emulator.Emulator.Decoded.Decode.{decode_instruction-IsRunnable}
use simple_risc_v_emulator.Emulator.Decoded.Parts.{Gives, Gives-bind, Gives-if}

decode_words-IsRunnable : (ws : List ℕ) → Gives (All IsRunnable) (decode_words ws)
decode_words-IsRunnable [] = tt
decode_words-IsRunnable (w ∷ ws) =
    Gives-if (All IsRunnable) (w % 4 == 3) _ _
      (Gives-bind IsRunnable (All IsRunnable) (decode_instruction empty_instruction w) _
        (decode_instruction-IsRunnable w)
        (λ instr first.
          Gives-bind (All IsRunnable) (All IsRunnable) (decode_words ws) _
            (decode_words-IsRunnable ws) (λ instrs rest. (first, rest))))
      tt

-- On every string of bytes and every host decoding a program is defined: it throws, or it gives
-- instructions that the loop can run, with register indices below 32 and immediates of 32 bits.
pub decode_instructions-IsRunnable :
    (native : Endian) (program : List ℕ)
    → All IsByte program
    → Gives (All IsRunnable) (decode_instructions native program)
decode_instructions-IsRunnable native program h =
    subst (Gives (All IsRunnable)) (sym (decode_instructions-eq native program h)) (
      Gives-if (All IsRunnable) (length program % 4 == 0) _ _
        (decode_words-IsRunnable (words program)) tt)
