-- ===== src/Instruction/Fields/Values.antt =====
-- The fields and immediates of an encoded word as division and remainder.
use native.Mathlib.Nat.{mod-eq_of_lt}
use simple_risc_v_emulator.Common.{ℕ, ◌+◌, ◌*◌, ◌/◌, ◌%◌, ◌^◌, ◌<◌, ◌≡◌, ap, ◌∙◌, arith, bit_or}
use simple_risc_v_emulator.Bits.{sign_extend}
use simple_risc_v_emulator.Bits.Digits.{bit_or-above}
use simple_risc_v_emulator.Bits.Fields.{get_bits-eq}
use simple_risc_v_emulator.Instruction.Fields.{get_opcode, get_funct3, get_funct7}
use simple_risc_v_emulator.Instruction.Fields.{get_destination_register, get_source_register1}
use simple_risc_v_emulator.Instruction.Fields.{get_source_register2, get_immediate_i}
use simple_risc_v_emulator.Instruction.Fields.{get_immediate_s, get_immediate_b, get_immediate_u}
use simple_risc_v_emulator.Instruction.Fields.{get_immediate_j}

-- The bits from `first` on, `count` of them.
abbrev pub slice : ℕ → ℕ → ℕ → ℕ
slice w first count = w / 2 ^ first % 2 ^ count

pub get_opcode-eq : (w : ℕ) → get_opcode w ≡ slice w 0 7
unfolding get_opcode
get_opcode-eq w = rw (get_bits-eq 32 w 0 6 (omega arith)) (omega arith)

pub get_funct3-eq : (w : ℕ) → get_funct3 w ≡ slice w 12 3
unfolding get_funct3
get_funct3-eq w = rw (get_bits-eq 32 w 12 14 (omega arith)) (omega arith)

pub get_funct7-eq : (w : ℕ) → get_funct7 w ≡ slice w 25 7
unfolding get_funct7
get_funct7-eq w = rw (get_bits-eq 32 w 25 31 (omega arith)) (omega arith)

pub get_destination_register-eq : (w : ℕ) → get_destination_register w ≡ slice w 7 5
unfolding get_destination_register
get_destination_register-eq w = rw (get_bits-eq 32 w 7 11 (omega arith)) (omega arith)

pub get_source_register1-eq : (w : ℕ) → get_source_register1 w ≡ slice w 15 5
unfolding get_source_register1
get_source_register1-eq w = rw (get_bits-eq 32 w 15 19 (omega arith)) (omega arith)

pub get_source_register2-eq : (w : ℕ) → get_source_register2 w ≡ slice w 20 5
unfolding get_source_register2
get_source_register2-eq w = rw (get_bits-eq 32 w 20 24 (omega arith)) (omega arith)

pub get_immediate_i-eq : (w : ℕ) → get_immediate_i w ≡ sign_extend 32 (slice w 20 12) 11
unfolding get_immediate_i
get_immediate_i-eq w = rw (get_bits-eq 32 w 20 31 (omega arith))

-- A field of `count` bits moved up by `k` within 32 bits, joined above a number below 2 ^ k.
join :
    (x v first count k : ℕ)
    → x < 2 ^ k
    → slice v first count * 2 ^ k < 2 ^ 32
    → bit_or x (slice v first count * 2 ^ k % 2 ^ 32) ≡ x + slice v first count * 2 ^ k
join x v first count k below fits =
    ap (λ (t : ℕ). bit_or x t) (mod-eq_of_lt fits) ∙ bit_or-above k x (slice v first count) below

pub get_immediate_s-eq :
    (w : ℕ) → get_immediate_s w ≡ sign_extend 32 (slice w 7 5 + slice w 25 7 * 2 ^ 5) 11
unfolding get_immediate_s
get_immediate_s-eq w =
    rw (get_bits-eq 32 w 7 11 (omega arith), get_bits-eq 32 w 25 31 (omega arith))
      (ap (λ (t : ℕ). sign_extend 32 t 11)
        (join (slice w 7 5) w 25 7 5 (omega arith) (omega arith)))

abbrev pub offset_b : ℕ → ℕ
offset_b w =
    slice w 8 4 * 2 ^ 1 + slice w 25 6 * 2 ^ 5 + slice w 7 1 * 2 ^ 11 + slice w 31 1 * 2 ^ 12

pub get_immediate_b-eq : (w : ℕ) → get_immediate_b w ≡ sign_extend 32 (offset_b w) 12
unfolding get_immediate_b
get_immediate_b-eq w =
    rw
      (
        get_bits-eq 32 w 8 11 (omega arith),
        get_bits-eq 32 w 25 30 (omega arith),
        get_bits-eq 32 w 7 7 (omega arith),
        get_bits-eq 32 w 31 31 (omega arith),
      )
      (ap (λ (t : ℕ). sign_extend 32 t 12) joined)
  where
    low : ℕ
    low = slice w 8 4 * 2 ^ 1

    joined :
        bit_or
          (bit_or
            (bit_or (low % 2 ^ 32) (slice w 25 6 * 2 ^ 5 % 2 ^ 32))
            (slice w 7 1 * 2 ^ 11 % 2 ^ 32))
          (slice w 31 1 * 2 ^ 12 % 2 ^ 32)
        ≡ offset_b w
    joined = rw (
      mod-eq_of_lt {n = low} {m = 2 ^ 32} (omega arith),
      join low w 25 6 5 (omega arith) (omega arith),
      join (low + slice w 25 6 * 2 ^ 5) w 7 1 11 (omega arith) (omega arith),
      join (low + slice w 25 6 * 2 ^ 5 + slice w 7 1 * 2 ^ 11) w 31 1 12 (omega arith)
          (omega arith),
    )

pub get_immediate_u-eq : (w : ℕ) → get_immediate_u w ≡ slice w 12 20 * 2 ^ 12
unfolding get_immediate_u
get_immediate_u-eq w = rw (get_bits-eq 32 w 12 31 (omega arith)) (omega arith)

abbrev pub offset_j : ℕ → ℕ
offset_j w =
    slice w 21 10 * 2 ^ 1 + slice w 20 1 * 2 ^ 11 + slice w 12 8 * 2 ^ 12 + slice w 31 1 * 2 ^ 20

pub get_immediate_j-eq : (w : ℕ) → get_immediate_j w ≡ sign_extend 32 (offset_j w) 20
unfolding get_immediate_j
get_immediate_j-eq w =
    rw
      (
        get_bits-eq 32 w 21 30 (omega arith),
        get_bits-eq 32 w 20 20 (omega arith),
        get_bits-eq 32 w 12 19 (omega arith),
        get_bits-eq 32 w 31 31 (omega arith),
      )
      (ap (λ (t : ℕ). sign_extend 32 t 20) joined)
  where
    low : ℕ
    low = slice w 21 10 * 2 ^ 1

    joined :
        bit_or
          (bit_or
            (bit_or (low % 2 ^ 32) (slice w 20 1 * 2 ^ 11 % 2 ^ 32))
            (slice w 12 8 * 2 ^ 12 % 2 ^ 32))
          (slice w 31 1 * 2 ^ 20 % 2 ^ 32)
        ≡ offset_j w
    joined = rw (
      mod-eq_of_lt {n = low} {m = 2 ^ 32} (omega arith),
      join low w 20 1 11 (omega arith) (omega arith),
      join (low + slice w 20 1 * 2 ^ 11) w 12 8 12 (omega arith) (omega arith),
      join (low + slice w 20 1 * 2 ^ 11 + slice w 12 8 * 2 ^ 12) w 31 1 20 (omega arith)
          (omega arith),
    )
