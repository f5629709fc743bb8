-- ===== src/Emulator/Machine/Written.antt =====
-- src/riscv/emulator.cpp: what one instruction writes and where it jumps, on both sides.
use simple_risc_v_emulator.Common.{ℕ, ◌*◌, ◌/◌, ◌+◌, ◌%◌, ◌^◌, ◌<◌, ◌≡◌, ◌∙◌, refl, arith}
use simple_risc_v_emulator.Common.{Bool, true, false, ◌==◌, if◌then◌else◌}
use simple_risc_v_emulator.Common.{Option, none, some}
use simple_risc_v_emulator.Common.{inl, inr, ◌⊎◌}
use simple_risc_v_emulator.Common.{Result, ok, ◌>>=◌}
use simple_risc_v_emulator.Hart.{Thread, RegisterFile, get_register, register_count}
use simple_risc_v_emulator.Hart.Registers.{set_register_lem, IsFile}
use simple_risc_v_emulator.Instruction.Types.{Instruction, InstructionType}
use simple_risc_v_emulator.Instruction.Types.{lui, auipc, jal, jalr, beq, bne, blt, bge, bltu, bgeu}
use simple_risc_v_emulator.Emulator.Execute.{to_u64}
use simple_risc_v_emulator.Emulator.WellFormed.{IsUnsupported}
use simple_risc_v_emulator.Emulator.Manual.{jumps, target, result, write_result, KeepsSource}
use simple_risc_v_emulator.Common.{◌≢◌, ◌==◌, Bool-cases, ==→eq, ==-ne, ==-false, eq→==}
use simple_risc_v_emulator.Emulator.Machine.{is_supported, write}

pub is_supported-cases :
    (type : InstructionType)
    → ((is_supported type ≡ true) × (IsUnsupported type → ⊥))
      ⊎ ((is_supported type ≡ false) × IsUnsupported type)
is_supported-cases lui = inl (refl, λ u. u)
is_supported-cases auipc = inl (refl, λ u. u)
is_supported-cases jal = inl (refl, λ u. u)
is_supported-cases jalr = inl (refl, λ u. u)
is_supported-cases beq = inl (refl, λ u. u)
is_supported-cases bne = inl (refl, λ u. u)
is_supported-cases blt = inl (refl, λ u. u)
is_supported-cases bge = inl (refl, λ u. u)
is_supported-cases bltu = inl (refl, λ u. u)
is_supported-cases bgeu = inl (refl, λ u. u)
is_supported-cases _ = inr (refl, tt)

-- A value that an instruction writes is one of 64 bits.
abbrev pub IsValue : Option ℕ → Type 0
IsValue none = Unit {0}
IsValue (some value) = value < 2 ^ 64

pub result-IsValue : (type : InstructionType) (pc x : ℕ) → x < 2 ^ 64 → IsValue (result type pc x)
result-IsValue lui pc x h = h
result-IsValue auipc pc x h = omega arith
result-IsValue jal pc x h = omega arith
result-IsValue jalr pc x h = omega arith
result-IsValue _ pc x h = tt

pub to_u64-lt : (x : ℕ) → x < 2 ^ 32 → to_u64 x < 2 ^ 64
to_u64-lt x h = ground arith

abbrev pub Holds : RegisterFile → (ℕ → ℕ) → Type 0
Holds file registers = (j : ℕ) → j < register_count → get_register file j ≡ ok (registers j)

if_ok :
    (b c : Bool) (r : Result ℕ) (x y : ℕ)
    → r ≡ ok x
    → (if b then r else if c then ok y else r) ≡ ok (if b then x else if c then y else x)
if_ok true c r x y e = e
if_ok false true r x y e = refl
if_ok false false r x y e = e

pub write_result-Holds :
    (value : Option ℕ) (instr : Instruction) (file : RegisterFile) (registers : ℕ → ℕ)
    → IsFile file
    → instr.destination_register < register_count
    → IsValue value
    → Holds file registers
    → (file' : RegisterFile) × (write_result value instr file ≡ ok file')
      × Holds file' (write instr.destination_register value registers)
write_result-Holds none instr file registers v lt small holds = (file, refl, holds)
write_result-Holds (some value) instr file registers v lt small holds =
    let (file', e, good, same) =
      set_register_lem file instr.destination_register value v lt small in
    (
      file',
      e,
      λ j inside.
          same j
          ∙ if_ok (instr.destination_register == 0) (instr.destination_register == j)
              (get_register file j) (registers j) value (holds j inside),
    )

pub bind-ok :
    (r : Result RegisterFile) (file : RegisterFile) (rest : RegisterFile → Result Thread)
    → r ≡ ok file
    → (r >>= rest) ≡ rest file
bind-ok r file rest e = rw e refl

-- A `JALR` that keeps its source finds the same in it after the write.
pub target-kept :
    (instr : Instruction) (type : InstructionType) (pc x : ℕ) (registers : ℕ → ℕ)
    → KeepsSource instr type
    → target type pc x (registers instr.source_register1)
      ≡ target type pc x
          (write instr.destination_register (result type pc x) registers instr.source_register1)
target-kept instr jalr pc x registers (inl zero_rd) =
    rw (eq→== instr.destination_register 0 zero_rd) refl
target-kept instr jalr pc x registers (inr other) =
    elim (Bool-cases (instr.destination_register == 0)) [
      | inl e ↦ rw e refl
      | inr e ↦ rw (e, ==-false instr.destination_register instr.source_register1 other) refl
    ]
target-kept instr lui pc x registers k = refl
target-kept instr type pc x registers k = refl

-- Else the jump is relative to the return address.
pub target-own :
    (instr : Instruction) (type : InstructionType) (pc x a b : ℕ) (registers : ℕ → ℕ)
    → type ≡ jalr
    → instr.destination_register ≡ instr.source_register1
    → instr.destination_register ≢ 0
    → (((pc + 4) % 2 ^ 64 + x) % 2 ^ 64 / 2 * 2 + 4) % 2 ^ 64 ≡ (
        if jumps type a b
        then (target type pc x
              (write instr.destination_register (result type pc x) registers instr.source_register1)
            + 4)
          % 2 ^ 64
        else (pc + 4) % 2 ^ 64)
target-own instr type pc x a b registers is_jalr own nonzero =
    rw
      (
        is_jalr,
        ==-false instr.destination_register 0 nonzero,
        eq→== instr.destination_register instr.source_register1 own,
      )
      refl

pub KeepsSource-cases :
    (instr : Instruction) (type : InstructionType)
    → KeepsSource instr type
      ⊎ ((type ≡ jalr)
          × (instr.destination_register ≡ instr.source_register1)
          × (instr.destination_register ≢ 0))
KeepsSource-cases instr jalr = elim (Bool-cases (instr.destination_register == 0)) [
  | inl e ↦ inl (inl (==→eq instr.destination_register 0 e))
  | inr e ↦ elim (Bool-cases (instr.destination_register == instr.source_register1)) [
    | inl own ↦ inr (
      refl,
      ==→eq instr.destination_register instr.source_register1 own,
      ==-ne instr.destination_register 0 e,
    )
    | inr other ↦ inl (inr (==-ne instr.destination_register instr.source_register1 other))
  ]
]
KeepsSource-cases instr lui = inl tt
KeepsSource-cases instr _ = inl tt
