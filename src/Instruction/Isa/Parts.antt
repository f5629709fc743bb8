-- ===== src/Instruction/Isa/Parts.antt =====
-- The few computed parts of instruction fields: the bit that marks an arithmetic shift, masks,
-- and the two halves of a funct7.
use simple_risc_v_emulator.Common.{ℕ, zero, suc, ◌+◌, ◌*◌, ◌/◌, ◌%◌, ◌^◌, ◌<◌, ◌≡◌, refl, arith}
use simple_risc_v_emulator.Common.{Bool, true, false, not, ◌&&◌, ◌==◌, bit_and}
use simple_risc_v_emulator.Bits.{has_bit, clear_bit, sign_extend}
use simple_risc_v_emulator.Bits.Digits.{bit_and-mask}
use simple_risc_v_emulator.Bits.Sign.{sign_extend-eq}
use simple_risc_v_emulator.Bits.Single.{has_bit-eq-digit}

-- Two functions that agree on every number below a bound, found by evaluation.
agree_below : (ℕ → ℕ) → (ℕ → ℕ) → ℕ → Bool
agree_below f g zero = true
agree_below f g (suc n) = (f n == g n) && agree_below f g n

agree_below→eq : (f g : ℕ → ℕ) (n : ℕ) → agree_below f g n ≡ true → (i : ℕ) → i < n → f i ≡ g i
unfolding agree_below
agree_below→eq f g zero e i h = absurd (omega arith)
agree_below→eq f g (suc n) e i h = ground (arith, agree_below→eq f g n (ground arith) i)

-- Bit 10 over a shift amount: it is set for an arithmetic shift, and cleared from the immediate.
pub shift_value :
    (bits a : ℕ) → bits < 64 → a < 2 → sign_extend 32 (bits + a * 2 ^ 10) 11 ≡ bits + a * 2 ^ 10
shift_value bits a h k = ground (arith, sign_extend-eq 32 (bits + a * 2 ^ 10) 11)

pub logical_bit : (bits : ℕ) → bits < 64 → has_bit (bits + 0 * 2 ^ 10) 10 ≡ false
logical_bit bits h = ground (arith, has_bit-eq-digit (bits + 0 * 2 ^ 10) 10)

pub arithmetic_bit : (bits : ℕ) → bits < 64 → has_bit (bits + 1 * 2 ^ 10) 10 ≡ true
arithmetic_bit bits h = ground (arith, has_bit-eq-digit (bits + 1 * 2 ^ 10) 10)

pub cleared_bit : (bits : ℕ) → bits < 64 → clear_bit 32 (bits + 1 * 2 ^ 10) 10 ≡ bits
unfolding agree_below clear_bit
cleared_bit = agree_below→eq (λ b. clear_bit 32 (b + 1 * 2 ^ 10) 10) (λ b. b) 64 refl

-- Masking undoes the sign extension of a twelve-bit field.
pub masked_value : (imm : ℕ) → imm < 2 ^ 12 → bit_and (sign_extend 32 imm 11) 0b1111_1111_1111 ≡ imm
masked_value imm h =
    ground (arith, sign_extend-eq 32 imm 11, bit_and-mask 12 (sign_extend 32 imm 11))

pub small_value : (imm : ℕ) → imm < 2 → sign_extend 32 imm 11 ≡ imm
small_value imm h = ground (arith, sign_extend-eq 32 imm 11)

pub upper_part : (low high : ℕ) → low < 4 → (low + high * 2 ^ 2) / 2 ^ 2 ≡ high
upper_part low high h = omega arith

pub lower_part : (low high : ℕ) → low < 4 → bit_and (low + high * 2 ^ 2) 0b11 ≡ low
lower_part low high h = omega (arith, bit_and-mask 2 (low + high * 2 ^ 2))

-- `isSingle` and the cleared funct7, over the 128 values.
pub is_single_value : (f7 : ℕ) → f7 < 128 → not (has_bit f7 0) ≡ (f7 % 2 == 0)
is_single_value f7 h = ground (arith, has_bit-eq-digit f7 0)

pub cleared_value : (f7 : ℕ) → f7 < 128 → clear_bit 8 f7 0 ≡ f7 / 2 * 2
unfolding agree_below clear_bit
cleared_value = agree_below→eq (λ f7. clear_bit 8 f7 0) (λ f7. f7 / 2 * 2) 128 refl
