-- ===== src/Instruction/Isa/Tables/Integer.antt =====
-- The switches of the integer decoders and the table of the manual, in both directions.
use simple_risc_v_emulator.Common.{ℕ, ◌<◌, ◌≡◌, ok, arith}
use simple_risc_v_emulator.Instruction.Types.{Instruction, InstructionType, lui}
use simple_risc_v_emulator.Instruction.Integer.{branch_type, load_type, store_type, op_type}
use simple_risc_v_emulator.Instruction.Integer.{op32_type, op_imm_switch}
use simple_risc_v_emulator.Instruction.Isa.Codes.{isa, branch_code, load_code, store_code, op_code}
use simple_risc_v_emulator.Instruction.Isa.Codes.{op32_code, op_imm_code}

pub branch_table :
    (t : InstructionType) (w f3 : ℕ) → isa t ≡ branch_code f3 → (f3 < 8) × (branch_type w f3 ≡ ok t)
unfolding isa branch_type
branch_table lui w f3 e = cc
branch_table t w f3 e = grind arith

pub branch_table-isa :
    (t : InstructionType) (w f3 : ℕ) → branch_type w f3 ≡ ok t → isa t ≡ branch_code f3
unfolding isa branch_type
branch_table-isa t w f3 e = grind arith

pub load_table :
    (t : InstructionType) (w f3 : ℕ) → isa t ≡ load_code f3 → (f3 < 8) × (load_type w f3 ≡ ok t)
unfolding isa load_type
load_table lui w f3 e = cc
load_table t w f3 e = grind arith

pub load_table-isa : (t : InstructionType) (w f3 : ℕ) → load_type w f3 ≡ ok t → isa t ≡ load_code f3
unfolding isa load_type
load_table-isa t w f3 e = grind arith

pub store_table :
    (t : InstructionType) (w f3 : ℕ) → isa t ≡ store_code f3 → (f3 < 8) × (store_type w f3 ≡ ok t)
unfolding isa store_type
store_table lui w f3 e = cc
store_table t w f3 e = grind arith

pub store_table-isa :
    (t : InstructionType) (w f3 : ℕ) → store_type w f3 ≡ ok t → isa t ≡ store_code f3
unfolding isa store_type
store_table-isa t w f3 e = grind arith

pub op_table :
    (t : InstructionType) (w f7 f3 : ℕ)
    → isa t ≡ op_code f7 f3
    → (f7 < 128) × (f3 < 8) × (op_type w lui f7 f3 ≡ ok t)
unfolding isa op_type
op_table lui w f7 f3 e = cc
op_table t w f7 f3 e = grind arith

pub op_table-isa :
    (t : InstructionType) (w f7 f3 : ℕ)
    → f3 < 8
    → op_type w lui f7 f3 ≡ ok t
    → isa t ≡ op_code f7 f3
unfolding isa op_type
op_table-isa t w f7 f3 h e = grind arith

pub op32_table :
    (t : InstructionType) (w f7 f3 : ℕ)
    → isa t ≡ op32_code f7 f3
    → (f7 < 128) × (f3 < 8) × (op32_type w f7 f3 ≡ ok t)
unfolding isa op32_type
op32_table lui w f7 f3 e = cc
op32_table t w f7 f3 e = grind arith

pub op32_table-isa :
    (t : InstructionType) (w f7 f3 : ℕ) → op32_type w f7 f3 ≡ ok t → isa t ≡ op32_code f7 f3
unfolding isa op32_type
op32_table-isa t w f7 f3 e = ground arith

pub op_imm_table :
    (t : InstructionType) (f3 : ℕ) (instr : Instruction)
    → isa t ≡ op_imm_code f3
    → (f3 < 8) × (op_imm_switch f3 instr ≡ ok (record instr { type = t }))
unfolding isa op_imm_switch
op_imm_table lui f3 instr e = cc
op_imm_table t f3 instr e = grind arith
