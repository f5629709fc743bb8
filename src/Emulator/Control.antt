-- ===== src/Emulator/Control.antt =====
-- src/riscv/emulator.cpp: one round of the loop, held against the instruction set manual.
use simple_risc_v_emulator.Emulator.Manual.{
  jumps, target, result, write_result, after_round, KeepsSource,
}
use simple_risc_v_emulator.Common.{ℕ, ◌+◌, ◌*◌, ◌/◌, ◌%◌, ◌^◌, ◌≡◌, ◌≢◌, ◌∙◌, refl, arith}
use simple_risc_v_emulator.Common.{Bool, true, false, not, ltb, ◌==◌, if◌then◌else◌}
use simple_risc_v_emulator.Common.{ok, throw, undefined, ◌>>=◌, Bool-cases, inl, inr}
use simple_risc_v_emulator.Common.{leb}
use simple_risc_v_emulator.Hart.{
  Thread, RegisterFile, get_register, set_register, get_next_program_counter,
}
use simple_risc_v_emulator.Hart.Registers.{set_register_lem}
use simple_risc_v_emulator.Instruction.Types.{Instruction, InstructionType, immediate}
use simple_risc_v_emulator.Instruction.Types.{lui, auipc, jal, jalr, beq, bne, blt, bge, bltu, bgeu}
use simple_risc_v_emulator.Emulator.Execute.{execute, execute_type, to_u64, branch, set_destination}
use simple_risc_v_emulator.Emulator.Execute.{add_immediate, less_signed}
use simple_risc_v_emulator.Emulator.WellFormed.{IsThread, IsRunnable, IsUnsupported}
use simple_risc_v_emulator.Bits.Digits.{bit_and-even_mask}
use simple_risc_v_emulator.Common.{==-false, eq→==}

module _ (instr : Instruction) (t : Thread) (x a b : ℕ) (payload : instr.payload ≡ immediate x)
    (left : get_register t.registers instr.source_register1 ≡ ok a)
    (right : get_register t.registers instr.source_register2 ≡ ok b) where
  abbrev pc : ℕ
  pc = t.program_counter

  abbrev counted : Thread
  counted = record t { cycle_counter = (t.cycle_counter + 1) % 2 ^ 64 }

  branch_round :
      (test : ℕ → ℕ → Bool) (jump : Bool)
      → test a b ≡ jump
      → (branch test instr counted >>= λ t'.
          ok (record t' { program_counter = (t'.program_counter + 4) % 2 ^ 64 }))
        ≡ ok (
            after_round t t.registers
              (if jump then ((pc + to_u64 x) % 2 ^ 64 + 4) % 2 ^ 64 else (pc + 4) % 2 ^ 64))
  branch_round test true e = rw (left, right, e, payload)
  branch_round test false e = rw (left, right, e)

  set_round :
      (value : ℕ)
      → (set_destination instr value counted >>= λ t'.
          ok (record t' { program_counter = (t'.program_counter + 4) % 2 ^ 64 }))
        ≡ (set_register t.registers instr.destination_register value >>= λ file.
            ok (after_round t file ((pc + 4) % 2 ^ 64)))
  set_round value =
      elim (set_register t.registers instr.destination_register value)
        as (λ r.
          (r >>= (λ file. ok (record counted { registers = file })) >>= λ t'.
          ok (record t' { program_counter = (t'.program_counter + 4) % 2 ^ 64 }))
          ≡ (r >>= λ file. ok (after_round t file ((pc + 4) % 2 ^ 64)))) [
            | ok file ↦ refl
            | throw e ↦ refl
            | undefined ↦ refl
          ]

  jump_round :
      (value : ℕ)
      → ((set_destination instr value counted >>= add_immediate instr) >>= λ t'.
          ok (record t' { program_counter = (t'.program_counter + 4) % 2 ^ 64 }))
        ≡ (set_register t.registers instr.destination_register value >>= λ file.
            ok (after_round t file (((pc + to_u64 x) % 2 ^ 64 + 4) % 2 ^ 64)))
  jump_round value =
      elim (set_register t.registers instr.destination_register value)
        as (λ r.
          ((r >>= (λ file. ok (record counted { registers = file })) >>= add_immediate instr)
            >>= λ t'. ok (record t' { program_counter = (t'.program_counter + 4) % 2 ^ 64 }))
          ≡ (r >>= λ file. ok (after_round t file (((pc + to_u64 x) % 2 ^ 64 + 4) % 2 ^ 64)))) [
            | ok file ↦ rw payload
            | throw e ↦ refl
            | undefined ↦ refl
          ]

  module _ (v : IsThread t) (r : IsRunnable instr) where
    -- The source is the same after the write of the destination.
    source_kept :
        (value : ℕ) (file : RegisterFile)
        → ((j : ℕ)
            → get_register file j ≡ (
                if instr.destination_register == 0
                then get_register t.registers j
                else if instr.destination_register == j
                then ok value
                else get_register t.registers j))
        → KeepsSource instr jalr
        → get_register file instr.source_register1 ≡ ok a
    source_kept value file same (inl zero_rd) = same instr.source_register1 ∙ rw zero_rd left
    source_kept value file same (inr other) =
        same instr.source_register1 ∙ elim (Bool-cases (instr.destination_register == 0)) [
          | inl z ↦ rw z left
          | inr z ↦ rw (z, ==-false instr.destination_register instr.source_register1 other) left
        ]

    jump_register_round :
        KeepsSource instr jalr
        → (execute_type jalr instr counted >>= λ t'.
            ok (record t' { program_counter = (t'.program_counter + 4) % 2 ^ 64 }))
          ≡ (set_register t.registers instr.destination_register ((pc + 4) % 2 ^ 64) >>= λ file.
              ok (after_round t file (((a + to_u64 x) % 2 ^ 64 / 2 * 2 + 4) % 2 ^ 64)))
    unfolding execute_type get_next_program_counter
    jump_register_round keeps =
        let (file, written, good, same) =
          set_register_lem t.registers instr.destination_register ((pc + 4) % 2 ^ 64) v.file r.rd_lt
            (omega arith) in
        rw (
          written,
          source_kept ((pc + 4) % 2 ^ 64) file same keeps,
          payload,
          bit_and-even_mask ((a + to_u64 x) % 2 ^ 64) (omega arith),
        )

    type_round :
        (type : InstructionType)
        → (IsUnsupported type → ⊥)
        → KeepsSource instr type
        → (execute_type type instr counted >>= λ t'.
            ok (record t' { program_counter = (t'.program_counter + 4) % 2 ^ 64 }))
          ≡ (write_result (result type pc (to_u64 x)) instr t.registers >>= λ file. ok (
              after_round t file (
                if jumps type a b
                then (target type pc (to_u64 x) a + 4) % 2 ^ 64
                else (pc + 4) % 2 ^ 64)))
    unfolding execute_type get_next_program_counter
    type_round lui s k = rw payload (set_round (to_u64 x))
    type_round auipc s k = rw payload (set_round ((pc + to_u64 x) % 2 ^ 64))
    type_round jal s k = jump_round ((pc + 4) % 2 ^ 64)
    type_round jalr s k = jump_register_round k
    type_round beq s k = branch_round (λ a b. a == b) (a == b) refl
    type_round bne s k = branch_round (λ a b. not (a == b)) (not (a == b)) refl
    type_round blt s k = branch_round less_signed (less_signed a b) refl
    type_round bge s k = branch_round (λ a b. not (less_signed a b)) (jumps bge a b) (ground arith)
    type_round bltu s k = branch_round ltb (ltb a b) refl
    type_round bgeu s k = branch_round (λ a b. not (ltb a b)) (leb b a) (ground arith)
    type_round type s k = absurd (s tt)

-- One round of a supported instruction on a well-formed thread writes the manual's result to the
-- destination register, counts one cycle, and goes on at the next instruction, or, when the manual
-- makes it jump, four bytes behind the manual's target. A `JALR` that writes its own source, with
-- another register than x0, is left out.
pub execute-manual :
    (instr : Instruction) (t : Thread) (x a b : ℕ)
    → instr.payload ≡ immediate x
    → get_register t.registers instr.source_register1 ≡ ok a
    → get_register t.registers instr.source_register2 ≡ ok b
    → IsThread t
    → IsRunnable instr
    → (IsUnsupported instr.type → ⊥)
    → KeepsSource instr instr.type
    → execute instr t ≡ (
        write_result (result instr.type t.program_counter (to_u64 x)) instr t.registers >>= λ file.
        ok (
          after_round t file (
            if jumps instr.type a b
            then (target instr.type t.program_counter (to_u64 x) a + 4) % 2 ^ 64
            else (t.program_counter + 4) % 2 ^ 64)))
unfolding execute get_next_program_counter
execute-manual instr t x a b payload left right v r s k =
    type_round instr t x a b payload left right v r instr.type s k

-- A `JALR` whose destination is its own source, and not x0, does not read the source: it goes on
-- at the return address plus the immediate, made even, plus four, whatever the register held.
pub jalr_own_source :
    (instr : Instruction) (t : Thread) (x : ℕ)
    → instr.type ≡ jalr
    → instr.payload ≡ immediate x
    → instr.destination_register ≡ instr.source_register1
    → instr.destination_register ≢ 0
    → IsThread t
    → IsRunnable instr
    → execute instr t ≡ (
        set_register t.registers instr.destination_register ((t.program_counter + 4) % 2 ^ 64)
        >>= λ file. ok (
            after_round t file
              ((((t.program_counter + 4) % 2 ^ 64 + to_u64 x) % 2 ^ 64 / 2 * 2 + 4) % 2 ^ 64)))
unfolding execute execute_type get_next_program_counter
jalr_own_source instr t x is_jalr payload own nonzero v r =
    let back : ℕ = (t.program_counter + 4) % 2 ^ 64 in
    let (file, written, good, same) =
      set_register_lem t.registers instr.destination_register back v.file r.rd_lt (omega arith) in
    let read : get_register file instr.source_register1 ≡ ok back =
      same instr.source_register1
      ∙ rw (
        ==-false instr.destination_register 0 nonzero,
        eq→== instr.destination_register instr.source_register1 own,
      ) in
    rw (
      is_jalr,
      written,
      read,
      payload,
      bit_and-even_mask ((back + to_u64 x) % 2 ^ 64) (omega arith),
    )
