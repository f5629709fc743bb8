-- ===== src/Instruction/Isa/Tables/System.antt =====
-- The switches for atomic and system instructions and the table of the manual.
use simple_risc_v_emulator.Common.{ℕ, ◌<◌, ◌≡◌, ◌≢◌, ok, arith}
use simple_risc_v_emulator.Instruction.Types.{InstructionType, lui}
use simple_risc_v_emulator.Instruction.System.{
  amo_type, amo_word_type, amo_double_type, system_type,
}
use simple_risc_v_emulator.Instruction.Isa.Codes.{isa, amo_code, csr_code, environment_code}

pub amo_table :
    (t : InstructionType) (w f5 f3 : ℕ)
    → isa t ≡ amo_code f5 f3
    → (f5 < 32) × (f3 < 8) × (amo_type w f5 f3 ≡ ok t)
unfolding isa amo_type amo_word_type amo_double_type
amo_table lui w f5 f3 e = cc
amo_table t w f5 f3 e = grind arith

pub amo_table-isa :
    (t : InstructionType) (w f5 f3 : ℕ) → amo_type w f5 f3 ≡ ok t → isa t ≡ amo_code f5 f3
unfolding isa amo_type amo_word_type amo_double_type
amo_table-isa t w f5 f3 e = ground arith

pub csr_table :
    (t : InstructionType) (w value f3 : ℕ)
    → isa t ≡ csr_code f3
    → (f3 < 8) × (system_type w value f3 ≡ ok t)
unfolding isa system_type
csr_table lui w value f3 e = cc
csr_table t w value f3 e = grind arith

pub environment_table :
    (t : InstructionType) (w imm : ℕ)
    → isa t ≡ environment_code imm
    → (imm < 2) × (system_type w imm 0 ≡ ok t)
unfolding isa system_type
environment_table lui w imm e = cc
environment_table t w imm e = grind arith

pub csr_table-isa :
    (t : InstructionType) (w value f3 : ℕ)
    → f3 ≢ 0
    → system_type w value f3 ≡ ok t
    → isa t ≡ csr_code f3
unfolding isa system_type
csr_table-isa t w value f3 h e = ground arith
