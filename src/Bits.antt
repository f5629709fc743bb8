-- ===== src/Bits.antt =====
-- src/riscv/utils/bits.hpp: bit manipulation on a type `T` of `w` bits. A value of `T` is its bit
-- pattern, a number below 2 ^ w, and so is a result of the signed type. `T { 1 } << k` is computed
-- in the promoted type, `int` for a narrow `T`, and is defined for `k` below its width; every
-- caller keeps to that.
mod Step
pub mod Digits
pub mod Single
pub mod Fields
pub mod Sign
use simple_risc_v_emulator.Common.{ℕ, ◌+◌, ◌-◌, ◌*◌, ◌/◌, ◌%◌, ◌^◌, bit_and, bit_or}
use simple_risc_v_emulator.Common.{Bool, not, ltb, ◌==◌, ◌&&◌, if◌then◌else◌, Result, ok, undefined}

-- The width in which the operators compute: that of `int` or more.
abbrev pub promoted : ℕ → ℕ
promoted w = if ltb w 32 then 32 else w

-- `~x` on `w` bits.
abbrev pub complement : ℕ → ℕ → ℕ
complement w x = 2 ^ w - 1 - x

unfoldable pub has_bit : ℕ → ℕ → Bool
has_bit value bit_index = not (bit_and value (2 ^ bit_index) == 0)

unfoldable pub set_bit : ℕ → ℕ → ℕ → ℕ
set_bit w value bit_index = bit_or value (2 ^ bit_index) % 2 ^ w

unfoldable pub clear_bit : ℕ → ℕ → ℕ → ℕ
clear_bit w value bit_index = bit_and value (complement (promoted w) (2 ^ bit_index)) % 2 ^ w

-- The result where the shift is defined.
unfoldable pub one_bits : ℕ → ℕ → ℕ
one_bits w count = (2 ^ count - 1) % 2 ^ w

-- The field where both shifts are defined, as for the bounds that the sources write.
unfoldable pub get_bits : ℕ → ℕ → ℕ → ℕ → ℕ
unfolding one_bits
get_bits w value first_bit last_bit =
    bit_and (value / 2 ^ first_bit) (one_bits w (last_bit + 1 - first_bit))

-- `getBits` on all bounds: a shift by the width of the promoted type or more is undefined. The
-- count is a `uint8_t`, so that one below zero wraps around to such a shift.
unfoldable pub get_bits_checked : ℕ → ℕ → ℕ → ℕ → Result ℕ
unfolding get_bits
get_bits_checked w value first_bit last_bit =
    if ltb first_bit (promoted w)
      && not (ltb (last_bit + 1) first_bit)
      && ltb (last_bit + 1 - first_bit) (promoted w)
    then ok (get_bits w value first_bit last_bit)
    else undefined

-- `>>` on a signed pattern of `w` bits: the top bit fills the vacated places.
abbrev pub shift_right_signed : ℕ → ℕ → ℕ → ℕ
shift_right_signed w x k =
    if ltb x (2 ^ (w - 1)) then x / 2 ^ k else x / 2 ^ k + (2 ^ w - 2 ^ (w - k))

unfoldable pub sign_extend : ℕ → ℕ → ℕ → ℕ
sign_extend w value sign_bit =
    let before_width = sign_bit + 1 in
    let shift_amount = w - before_width in
    shift_right_signed w (value * 2 ^ shift_amount % 2 ^ w) shift_amount
