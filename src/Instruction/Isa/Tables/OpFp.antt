-- ===== src/Instruction/Isa/Tables/OpFp.antt =====
-- The switch of `decodeOpFP` against the table of the manual.
use simple_risc_v_emulator.Common.{ℕ, ◌*◌, ◌/◌, ◌%◌, ◌<◌, ◌≡◌, ◌≢◌, ◌==◌, ok, arith}
use simple_risc_v_emulator.Instruction.Types.{InstructionType, lui}
use simple_risc_v_emulator.Common.{Result}
use simple_risc_v_emulator.Instruction.Types.{fsqrts, fsqrtd, fcvtds}
use simple_risc_v_emulator.Instruction.Floating.{op_fp_type}
use simple_risc_v_emulator.Instruction.Isa.Codes.{isa, fp_arithmetic_code, fp_select_code}
use simple_risc_v_emulator.Instruction.Isa.Codes.{fp_unary_code, fp_move_code}

-- `isSingle` and the cleared funct7, as arithmetic.
abbrev pub op_fp_select : ℕ → ℕ → ℕ → ℕ → Result InstructionType
op_fp_select w rs2 f7 f3 = op_fp_type w (f7 % 2 == 0) rs2 (f7 / 2 * 2) f3

-- A division by the register f0 reads as a square root.
pub fp_arithmetic_table :
    (t : InstructionType) (w rs2 f7 f3 : ℕ)
    → isa t ≡ fp_arithmetic_code f7
    → (f7 / 2 ≡ 0b000110 → rs2 ≢ 0)
    → (f7 < 128) × (op_fp_select w rs2 f7 f3 ≡ ok t)
unfolding isa op_fp_type
fp_arithmetic_table lui w rs2 f7 f3 e h = cc
fp_arithmetic_table t w rs2 f7 f3 e h = grind arith

pub fp_select_table :
    (t : InstructionType) (w rs2 f7 f3 : ℕ)
    → isa t ≡ fp_select_code f7 f3
    → (f7 < 128) × (f3 < 8) × (op_fp_select w rs2 f7 f3 ≡ ok t)
unfolding isa op_fp_type
fp_select_table lui w rs2 f7 f3 e = cc
fp_select_table t w rs2 f7 f3 e = grind arith

-- The square roots and `FCVT.D.S` are not among those that the decoder reads as the manual says.
pub fp_unary_table :
    (t : InstructionType) (w f7 rs2 f3 : ℕ)
    → isa t ≡ fp_unary_code f7 rs2
    → t ≢ fsqrts
    → t ≢ fsqrtd
    → t ≢ fcvtds
    → (f7 < 128) × (rs2 < 32) × (op_fp_select w rs2 f7 f3 ≡ ok t)
unfolding isa op_fp_type
fp_unary_table lui w f7 rs2 f3 e n1 n2 n3 = cc
fp_unary_table t w f7 rs2 f3 e n1 n2 n3 = grind arith

pub fp_move_table :
    (t : InstructionType) (w f7 rs2 f3 : ℕ)
    → isa t ≡ fp_move_code f7 rs2 f3
    → (f7 < 128) × (rs2 < 32) × (f3 < 8) × (op_fp_select w rs2 f7 f3 ≡ ok t)
unfolding isa op_fp_type
fp_move_table lui w f7 rs2 f3 e = cc
fp_move_table t w f7 rs2 f3 e = grind arith
