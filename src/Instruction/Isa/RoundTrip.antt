-- ===== src/Instruction/Isa/RoundTrip.antt =====
-- src/riscv/instruction.cpp: `decodeInstruction` on the words of the instruction set manual.
use simple_risc_v_emulator.Common.{ℕ, ◌/◌, ◌≡◌, ◌≢◌, ◌∙◌, ap, sym, subst, refl, arith, ok}
use simple_risc_v_emulator.Instruction.Types.{InstructionType, empty_instruction}
use simple_risc_v_emulator.Instruction.Types.{fsqrts, fsqrtd, fcvtds, fdivs, fdivd, lui}
use simple_risc_v_emulator.Instruction.Types.{csrrw, csrrs, csrrc, csrrwi, csrrsi, csrrci}
use simple_risc_v_emulator.Instruction.Decode.{decode_instruction}
use simple_risc_v_emulator.Instruction.Isa.Codes.{
  Code, isa, upper_code, jump_code, jump_register_code, branch_code, load_code, store_code,
  op_imm_code, shift_code, shift32_code, op_imm32_code, op_code, op32_code, fence_code,
  fence_i_code, fence_exact_code, environment_code, csr_code, amo_code, load_fp_code, store_fp_code,
  fused_code, fp_arithmetic_code, fp_select_code, fp_unary_code, fp_move_code,
}
use simple_risc_v_emulator.Instruction.Isa.Assemble.{Operands, IsOperands, Fits, assemble, decoded}
use simple_risc_v_emulator.Instruction.Isa.Reads.Integer.{
  load-reads, store-reads, branch-reads, op-reads, op32-reads, op_imm-reads,
}
use simple_risc_v_emulator.Instruction.Isa.Reads.Shift.{shift-reads, shift32-reads}
use simple_risc_v_emulator.Instruction.Isa.Reads.Upper.{
  upper-reads, jump-reads, jump_register-reads, addiw-reads,
}
use simple_risc_v_emulator.Instruction.Isa.Reads.System.{
  fence-reads, fence_exact-reads, fence_i-reads, environment-reads, csr-reads, amo-reads,
}
use simple_risc_v_emulator.Instruction.Isa.Reads.Floating.{
  load_fp-reads, store_fp-reads, fp_arithmetic-reads, fp_select-reads, fp_unary-reads,
  fp_move-reads, fused-reads,
}

-- Where the decoder departs from the manual: the square roots and `FCVT.D.S` are refused, a
-- division by f0 is taken for a square root, and the number of a control register is dropped.
abbrev pub IsReadAsListed : InstructionType → Operands → Type 0
IsReadAsListed fsqrts o = ⊥
IsReadAsListed fsqrtd o = ⊥
IsReadAsListed fcvtds o = ⊥
IsReadAsListed fdivs o = o.rs2 ≢ 0
IsReadAsListed fdivd o = o.rs2 ≢ 0
IsReadAsListed csrrw o = o.bits ≡ 0
IsReadAsListed csrrs o = o.bits ≡ 0
IsReadAsListed csrrc o = o.bits ≡ 0
IsReadAsListed csrrwi o = o.bits ≡ 0
IsReadAsListed csrrsi o = o.bits ≡ 0
IsReadAsListed csrrci o = o.bits ≡ 0
IsReadAsListed _ o = Unit {0}

module _ (o : Operands) where
  csr_zero : (t : InstructionType) (f3 : ℕ) → isa t ≡ csr_code f3 → IsReadAsListed t o → o.bits ≡ 0
  unfolding isa
  csr_zero lui f3 e r = absurd (cc)
  csr_zero t f3 e r = ground arith

  not_by_zero :
      (t : InstructionType) (f7 : ℕ)
      → isa t ≡ fp_arithmetic_code f7
      → IsReadAsListed t o
      → f7 / 2 ≡ 0b000110
      → o.rs2 ≢ 0
  unfolding isa
  not_by_zero lui f7 e r d = absurd (cc)
  not_by_zero t f7 e r d = ground arith

  refused : (t u : InstructionType) → IsReadAsListed t o → (IsReadAsListed u o → ⊥) → t ≢ u
  refused t u r h e = h (subst (λ x. IsReadAsListed x o) e r)

module _ (t : InstructionType) (o : Operands) (v : IsOperands o) (r : IsReadAsListed t o) where
  decode-assemble_code :
      (c : Code)
      → isa t ≡ c
      → Fits c o
      → decode_instruction empty_instruction (assemble c o) ≡ ok (decoded t c o)
  decode-assemble_code (upper_code op) e f = upper-reads t o v op e f
  decode-assemble_code jump_code e f = jump-reads t o v e f
  decode-assemble_code jump_register_code e f = jump_register-reads t o v e f
  decode-assemble_code (branch_code f3) e f = branch-reads t o v f3 e f
  decode-assemble_code (load_code f3) e f = load-reads t o v f3 e f
  decode-assemble_code (store_code f3) e f = store-reads t o v f3 e f
  decode-assemble_code (op_imm_code f3) e f = op_imm-reads t o v f3 e f
  decode-assemble_code (shift_code f3 a) e f = shift-reads t o v f3 a e f
  decode-assemble_code (shift32_code f3 a) e f = shift32-reads t o v f3 a e f
  decode-assemble_code op_imm32_code e f = addiw-reads t o v e f
  decode-assemble_code (op_code f7 f3) e f = op-reads t o v f7 f3 e
  decode-assemble_code (op32_code f7 f3) e f = op32-reads t o v f7 f3 e
  decode-assemble_code fence_code e f = fence-reads t o v e f
  decode-assemble_code fence_i_code e f = fence_i-reads t o v e f
  decode-assemble_code (fence_exact_code imm) e f = fence_exact-reads t o v imm e
  decode-assemble_code (environment_code imm) e f = environment-reads t o v imm e
  decode-assemble_code (csr_code f3) e f =
      csr-reads t o v f3 e f
      ∙ ap (λ (x : ℕ). ok (decoded t (csr_code f3) (record o { bits = x })))
          (sym (csr_zero o t f3 e r))
  decode-assemble_code (amo_code f5 f3) e f = amo-reads t o v f5 f3 e
  decode-assemble_code (load_fp_code f3) e f = load_fp-reads t o v f3 e f
  decode-assemble_code (store_fp_code f3) e f = store_fp-reads t o v f3 e f
  decode-assemble_code (fused_code op fmt) e f = fused-reads t o v op fmt e
  decode-assemble_code (fp_arithmetic_code f7) e f =
      fp_arithmetic-reads t o v f7 e (not_by_zero o t f7 e r)
  decode-assemble_code (fp_select_code f7 f3) e f = fp_select-reads t o v f7 f3 e
  decode-assemble_code (fp_unary_code f7 rs2) e f =
      fp_unary-reads t o v f7 rs2 e (refused o t fsqrts r (λ x. x)) (refused o t fsqrtd r (λ x. x))
        (refused o t fcvtds r (λ x. x))
  decode-assemble_code (fp_move_code f7 rs2 f3) e f = fp_move-reads t o v f7 rs2 f3 e

-- For every type of instruction and all operands within their ranges, the word that the manual
-- gives decodes to that type with exactly those operands, immediates as 32-bit patterns. Left out
-- are the square roots, `FCVT.D.S`, divisions by f0, and control register instructions with
-- another register number than zero.
pub decode_instruction-assemble :
    (t : InstructionType) (o : Operands)
    → IsOperands o
    → Fits (isa t) o
    → IsReadAsListed t o
    → decode_instruction empty_instruction (assemble (isa t) o) ≡ ok (decoded t (isa t) o)
decode_instruction-assemble t o v f r = decode-assemble_code t o v r (isa t) refl f
