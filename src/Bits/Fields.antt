-- ===== src/Bits/Fields.antt =====
-- `getBits` as division and remainder, and a number put together from its fields.
use native.Mathlib.Nat.{pow-le-pow_right, mod-eq_of_lt}
use simple_risc_v_emulator.Common.{ℕ, ◌+◌, ◌-◌, ◌/◌, ◌%◌, ◌^◌, ◌≤◌}
use simple_risc_v_emulator.Common.{bit_and, ◌≡◌, ap, ◌∙◌, arith}
use simple_risc_v_emulator.Bits.{one_bits, get_bits, get_bits_checked, promoted}
use simple_risc_v_emulator.Common.{◌<◌, ltb-false, lt→ltb, ok}
use simple_risc_v_emulator.Bits.Digits.{two-pow-pos, bit_and-mask}

-- `oneBits` is the number with `count` ones, up to the full width of the type.
pub one_bits-eq : (w count : ℕ) → count ≤ w → one_bits w count ≡ 2 ^ count - 1
unfolding one_bits
one_bits-eq w count h =
    mod-eq_of_lt (omega (arith, pow-le-pow_right {n = 2} (omega arith) h, two-pow-pos count))

-- The field of the bits from `first` to `last`, both included.
pub get_bits-eq :
    (w v first last : ℕ)
    → last + 1 - first ≤ w
    → get_bits w v first last ≡ v / 2 ^ first % 2 ^ (last + 1 - first)
unfolding get_bits
get_bits-eq w v first last h =
    ap (λ (t : ℕ). bit_and (v / 2 ^ first) t) (one_bits-eq w (last + 1 - first) h)
    ∙ bit_and-mask (last + 1 - first) (v / 2 ^ first)

promoted-le : (w k : ℕ) → k < w → k < promoted w
promoted-le w k h = ground arith

-- On bounds within a type of `w` bits, where the field is narrower than the type, `getBits` is
-- defined, and is the number of the bits from `first` to `last`, both included; the field is empty, and the number zero, when `last` is the bit before `first`.
pub get_bits_checked-eq :
    (w v first last : ℕ)
    → first ≤ last + 1
    → first < w
    → last + 1 - first < w
    → get_bits_checked w v first last ≡ ok (v / 2 ^ first % 2 ^ (last + 1 - first))
unfolding get_bits_checked
get_bits_checked-eq w v first last order first_lt count_lt =
    rw
      (
        lt→ltb first (promoted w) (promoted-le w first first_lt),
        ltb-false (last + 1) first order,
        lt→ltb (last + 1 - first) (promoted w) (promoted-le w (last + 1 - first) count_lt),
      )
      (ap ok (get_bits-eq w v first last (omega (arith, count_lt))))
