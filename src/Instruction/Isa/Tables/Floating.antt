-- ===== src/Instruction/Isa/Tables/Floating.antt =====
-- The switches for floating-point instructions of fixed format, and the table of the manual.
use simple_risc_v_emulator.Common.{ℕ, ◌<◌, ◌≡◌, ok, arith}
use simple_risc_v_emulator.Instruction.Types.{InstructionType, lui}
use simple_risc_v_emulator.Common.{◌⊎◌}
use simple_risc_v_emulator.Instruction.Floating.{load_fp_type, store_fp_type, fused_type}
use simple_risc_v_emulator.Instruction.Floating.{
  madd_opcode, msub_opcode, nmadd_opcode, nmsub_opcode,
}
use simple_risc_v_emulator.Instruction.Isa.Codes.{isa, load_fp_code, store_fp_code, fused_code}

pub load_fp_table :
    (t : InstructionType) (w f3 : ℕ)
    → isa t ≡ load_fp_code f3
    → (f3 < 8) × (load_fp_type w f3 ≡ ok t)
unfolding isa load_fp_type
load_fp_table lui w f3 e = cc
load_fp_table t w f3 e = grind arith

pub load_fp_table-isa :
    (t : InstructionType) (w f3 : ℕ) → load_fp_type w f3 ≡ ok t → isa t ≡ load_fp_code f3
unfolding isa load_fp_type
load_fp_table-isa t w f3 e = grind arith

pub store_fp_table :
    (t : InstructionType) (w f3 : ℕ)
    → isa t ≡ store_fp_code f3
    → (f3 < 8) × (store_fp_type w f3 ≡ ok t)
unfolding isa store_fp_type
store_fp_table lui w f3 e = cc
store_fp_table t w f3 e = grind arith

pub store_fp_table-isa :
    (t : InstructionType) (w f3 : ℕ) → store_fp_type w f3 ≡ ok t → isa t ≡ store_fp_code f3
unfolding isa store_fp_type
store_fp_table-isa t w f3 e = grind arith

pub fused_table :
    (t : InstructionType) (w op fmt : ℕ)
    → isa t ≡ fused_code op fmt
    → (op < 128) × (fmt < 4) × (fused_type w fmt op ≡ ok t)
unfolding isa fused_type
fused_table lui w op fmt e = cc
fused_table t w op fmt e = grind arith

pub fused_table-isa :
    (t : InstructionType) (w op fmt : ℕ) → fused_type w fmt op ≡ ok t → isa t ≡ fused_code op fmt
unfolding isa fused_type
fused_table-isa t w op fmt e = ground arith

pub fused_opcode :
    (t : InstructionType) (op fmt : ℕ)
    → isa t ≡ fused_code op fmt
    → (op ≡ madd_opcode) ⊎ (op ≡ msub_opcode) ⊎ (op ≡ nmadd_opcode) ⊎ (op ≡ nmsub_opcode)
unfolding isa
fused_opcode lui op fmt e = absurd (cc)
fused_opcode t op fmt e = grind arith
