-- ===== src/Instruction/Program.antt =====
-- src/riscv/instruction.cpp: `decodeInstructions` on a whole program, against a reference that
-- reads one word after the other.
use simple_risc_v_emulator.Common.{ℕ, ◌+◌, ◌*◌, ◌%◌, ◌^◌, ◌≡◌, ◌∙◌, ap, refl, sym, arith}
use simple_risc_v_emulator.Common.{Bool, true, false, not, ◌==◌, if◌then◌else◌, Bool-cases}
use simple_risc_v_emulator.Common.{
  List, [], ◌∷◌, ◌++◌, length, All, append_assoc, inl, inr, ltb-false,
}
use simple_risc_v_emulator.Common.{==→eq}
use simple_risc_v_emulator.Common.{Result, ok, throw, undefined, ◌>>=◌, runtime_error}
use simple_risc_v_emulator.Common.{size_not_divisible, compressed_unsupported}
use simple_risc_v_emulator.Bits.Digits.{bit_and-mask}
use simple_risc_v_emulator.Memory.{Endian, load_u32}
use simple_risc_v_emulator.Memory.Value.{IsByte}
use simple_risc_v_emulator.Memory.Host.{load-host}
use simple_risc_v_emulator.Instruction.Types.{Instruction, empty_instruction}
use simple_risc_v_emulator.Instruction.Decode.{
  decode_instruction, decode_instructions, decode_loop, is_encoding_compressed,
}

-- The program as little-endian words of 32 bits.
abbrev pub words : List ℕ → List ℕ
words (b0 ∷ b1 ∷ b2 ∷ b3 ∷ rest) = (b0 + b1 * 2 ^ 8 + b2 * 2 ^ 16 + b3 * 2 ^ 24) ∷ words rest
words _ = []

-- Word by word up to the first that is refused. The low bits of a word that is not compressed are
-- both set.
abbrev pub decode_words : List ℕ → Result (List Instruction)
decode_words [] = ok []
decode_words (w ∷ ws) =
    let rest = decode_words ws in
    if w % 4 == 3
    then decode_instruction empty_instruction w
      >>= (λ instr. rest >>= λ instrs. ok (instr ∷ instrs))
    else throw (runtime_error compressed_unsupported)

abbrev pub decode_program : List ℕ → Result (List Instruction)
decode_program program =
    if length program % 4 == 0
    then decode_words (words program)
    else throw (runtime_error (size_not_divisible (length program)))

is_encoding_compressed-eq :
    (b0 b1 b2 b3 : ℕ)
    → is_encoding_compressed b0 ≡ not ((b0 + b1 * 2 ^ 8 + b2 * 2 ^ 16 + b3 * 2 ^ 24) % 4 == 3)
unfolding is_encoding_compressed
is_encoding_compressed-eq b0 b1 b2 b3 =
    ap (λ (x : ℕ). not (x == 3)) (omega (arith, bit_and-mask 2 b0))

load_word :
    (native : Endian) (b0 b1 b2 b3 : ℕ) (rest : List ℕ)
    → All IsByte (b0 ∷ b1 ∷ b2 ∷ b3 ∷ rest)
    → load_u32 native (b0 ∷ b1 ∷ b2 ∷ b3 ∷ rest) ≡ ok (b0 + b1 * 2 ^ 8 + b2 * 2 ^ 16 + b3 * 2 ^ 24)
unfolding load_u32
load_word native b0 b1 b2 b3 rest h =
    (load-host native (b0 ∷ b1 ∷ b2 ∷ b3 ∷ rest) h).1
    ∙ rw (ltb-false (length (b0 ∷ b1 ∷ b2 ∷ b3 ∷ rest)) 4 (omega arith)) (ap ok (omega arith))

append_nil : (xs : List Instruction) → xs ++ [] ≡ xs
append_nil [] = refl
append_nil (x ∷ xs) = ap (λ (t : List Instruction). x ∷ t) (append_nil xs)

bind_ok : (r : Result (List Instruction)) → (r >>= λ instrs. ok ([] ++ instrs)) ≡ r
bind_ok (ok instrs) = refl
bind_ok (throw e) = refl
bind_ok undefined = refl

one_word :
    (full : Bool) (first : Result Instruction) (rest : Result (List Instruction))
    (loop : List Instruction → Result (List Instruction)) (done : List Instruction)
    → ((acc : List Instruction) → loop acc ≡ (rest >>= λ instrs. ok (acc ++ instrs)))
    → (if not full
        then throw (runtime_error compressed_unsupported)
        else first >>= λ instr. loop (done ++ (instr ∷ [])))
      ≡ ((if full
            then first >>= (λ instr. rest >>= λ instrs. ok (instr ∷ instrs))
            else throw (runtime_error compressed_unsupported))
          >>= λ instrs. ok (done ++ instrs))
one_word false first rest loop done h = refl
one_word true (throw e) rest loop done h = refl
one_word true undefined rest loop done h = refl
one_word true (ok instr) (ok instrs) loop done h =
    h (done ++ (instr ∷ [])) ∙ ap ok (append_assoc done (instr ∷ []) instrs)
one_word true (ok instr) (throw e) loop done h = h (done ++ (instr ∷ []))
one_word true (ok instr) undefined loop done h = h (done ++ (instr ∷ []))

decode_loop-eq :
    (native : Endian) (program : List ℕ) (done : List Instruction)
    → All IsByte program
    → length program % 4 ≡ 0
    → decode_loop native program done
      ≡ (decode_words (words program) >>= λ instrs. ok (done ++ instrs))
unfolding decode_loop
decode_loop-eq native [] done h d = ap ok (sym (append_nil done))
decode_loop-eq native (a ∷ []) done h d = absurd (omega arith)
decode_loop-eq native (a ∷ b ∷ []) done h d = absurd (omega arith)
decode_loop-eq native (a ∷ b ∷ c ∷ []) done h d = absurd (omega arith)
decode_loop-eq native (a ∷ b ∷ c ∷ e ∷ rest) done h d =
    rw (is_encoding_compressed-eq a b c e, load_word native a b c e rest h)
      (one_word ((a + b * 2 ^ 8 + c * 2 ^ 16 + e * 2 ^ 24) % 4 == 3)
        (decode_instruction empty_instruction (a + b * 2 ^ 8 + c * 2 ^ 16 + e * 2 ^ 24))
        (decode_words (words rest)) (decode_loop native rest) done
        (λ acc. decode_loop-eq native rest acc h.1.1.1.1 (omega arith)))

-- On every program of bytes, and whatever the byte order of the host, decoding agrees with the
-- reference: a size that four does not divide is refused, and else the words are decoded in order
-- up to the first that is compressed or unknown, whose exception is thrown.
pub decode_instructions-eq :
    (native : Endian) (program : List ℕ)
    → All IsByte program
    → decode_instructions native program ≡ decode_program program
unfolding decode_instructions
decode_instructions-eq native program h = elim (Bool-cases (length program % 4 == 0)) [
  | inl e ↦
      rw e
        (decode_loop-eq native program [] h (==→eq _ _ e) ∙ bind_ok (decode_words (words program)))
  | inr e ↦ rw e
]
