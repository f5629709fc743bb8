-- ===== src/Instruction/Isa/Programs.antt =====
-- src/riscv/instruction.cpp: `decodeInstructions` on the programs of the instruction set manual.
use simple_risc_v_emulator.Common.{ℕ, ◌+◌, ◌*◌, ◌/◌, ◌%◌, ◌^◌, ◌<◌, ◌≡◌, ◌∙◌, ap, refl, arith}
use simple_risc_v_emulator.Common.{List, [], ◌∷◌, ◌++◌, All, length, eq→==, ok}
use simple_risc_v_emulator.Memory.{Endian, little_endian_bytes}
use simple_risc_v_emulator.Memory.Value.{IsByte}
use simple_risc_v_emulator.Instruction.Types.{Instruction, InstructionType, empty_instruction}
use simple_risc_v_emulator.Instruction.Decode.{decode_instruction, decode_instructions}
use simple_risc_v_emulator.Instruction.Program.{words, decode_words, decode_instructions-eq}
use simple_risc_v_emulator.Instruction.Isa.Codes.{isa}
use simple_risc_v_emulator.Instruction.Isa.Assemble.{Operands, IsOperands, Fits, assemble, decoded}
use simple_risc_v_emulator.Instruction.Isa.RoundTrip.{IsReadAsListed, decode_instruction-assemble}
use simple_risc_v_emulator.Instruction.Isa.Words.{IsWord, assemble-IsWord}

-- A line of an assembly program.
abbrev pub Line : Type 0
Line = InstructionType × Operands

abbrev pub IsLine : Line → Type 0
IsLine (t, o) = IsOperands o × Fits (isa t) o × IsReadAsListed t o

abbrev pub word_of : Line → ℕ
word_of (t, o) = assemble (isa t) o

-- The bytes of the program, each word with its lowest byte first.
abbrev pub program_of : List Line → List ℕ
program_of [] = []
program_of (l ∷ ls) = little_endian_bytes 4 (word_of l) ++ program_of ls

abbrev pub instructions_of : List Line → List Instruction
instructions_of [] = []
instructions_of ((t, o) ∷ ls) = decoded t (isa t) o ∷ instructions_of ls

line-IsWord : (l : Line) → IsLine l → IsWord (word_of l)
line-IsWord (t, o) v = assemble-IsWord t o v.0

program_of-IsByte : (ls : List Line) → All IsByte (program_of ls)
program_of-IsByte [] = tt
program_of-IsByte (l ∷ ls) =
    (omega arith, (omega arith, (omega arith, (omega arith, program_of-IsByte ls))))

length-program_of : (ls : List Line) → length (program_of ls) ≡ 4 * length ls
length-program_of [] = omega arith
length-program_of (l ∷ ls) = omega (arith, length-program_of ls)

bytes_of_word :
    (w : ℕ)
    → w < 2 ^ 32
    → w % 256
        + w / 256 % 256 * 2 ^ 8
        + w / 256 / 256 % 256 * 2 ^ 16
        + w / 256 / 256 / 256 % 256 * 2 ^ 24
      ≡ w
bytes_of_word w lt = omega arith

decode_words-cons :
    (w : ℕ) (ws : List ℕ) (instr : Instruction) (instrs : List Instruction)
    → IsWord w
    → decode_instruction empty_instruction w ≡ ok instr
    → decode_words ws ≡ ok instrs
    → decode_words (w ∷ ws) ≡ ok (instr ∷ instrs)
decode_words-cons w ws instr instrs v first rest = rw (eq→== (w % 4) 3 v.1, first, rest)

words-program_of :
    (w : ℕ) (bytes : List ℕ) → IsWord w → words (little_endian_bytes 4 w ++ bytes) ≡ w ∷ words bytes
words-program_of w bytes v = ap (λ (x : ℕ). x ∷ words bytes) (bytes_of_word w v.0)

decode_words-program_of :
    (ls : List Line)
    → All IsLine ls
    → decode_words (words (program_of ls)) ≡ ok (instructions_of ls)
decode_words-program_of [] v = refl
decode_words-program_of ((t, o) ∷ ls) v =
    let w = assemble (isa t) o in
    ap decode_words (words-program_of w (program_of ls) (line-IsWord (t, o) v.0))
    ∙ decode_words-cons w (words (program_of ls)) (decoded t (isa t) o) (instructions_of ls)
        (line-IsWord (t, o) v.0) (decode_instruction-assemble t o v.0.0 v.0.1 v.0.2)
        (decode_words-program_of ls v.1)

-- Decoding the bytes of any program of instructions of the manual, whatever the byte order of the
-- host, gives back its instructions, in their order and with their operands. Left out are
-- the instructions that the decoder does not read as listed, as for a single word.
pub decode_instructions-program_of :
    (native : Endian) (ls : List Line)
    → All IsLine ls
    → decode_instructions native (program_of ls) ≡ ok (instructions_of ls)
decode_instructions-program_of native ls v =
    decode_instructions-eq native (program_of ls) (program_of-IsByte ls)
    ∙ rw (eq→== (length (program_of ls) % 4) 0 (omega (arith, length-program_of ls)))
        (decode_words-program_of ls v)
