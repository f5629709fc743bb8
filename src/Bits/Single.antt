-- ===== src/Bits/Single.antt =====
-- `hasBit`, `setBit` and `clearBit`, bit by bit.
use Prim.Native.Nat.{min, max}
use native.Mathlib.Nat.{pow-le-pow_right, zero-div}
use simple_risc_v_emulator.Common.{ℕ, zero, suc, ◌-◌, ◌*◌, ◌/◌, ◌%◌, ◌^◌, ◌≤◌, ◌<◌}
use simple_risc_v_emulator.Common.{bit_and, bit_or, ◌≡◌, refl, ap, arith}
use simple_risc_v_emulator.Common.{true, false, ◌==◌, if◌then◌else◌}
use simple_risc_v_emulator.Bits.{promoted, complement, has_bit, set_bit, clear_bit}
use simple_risc_v_emulator.Bits.Step.{bit_and_step, bit_or_step}
use simple_risc_v_emulator.Bits.Digits.{two-pow-suc, two-pow-pos, div-two-pow-suc}
use simple_risc_v_emulator.Bits.Digits.{mod-two-pow-suc, bit_and-bit}

-- The binary digit of `a` with weight 2 ^ j.
abbrev pub digit : ℕ → ℕ → ℕ
digit a j = a / 2 ^ j % 2

digit-suc : (a j : ℕ) → digit a (suc j) ≡ digit (a / 2) j
digit-suc a j = ap (λ (t : ℕ). t % 2) (div-two-pow-suc a j)

digit-bit_or : (j a b : ℕ) → digit (bit_or a b) j ≡ max (digit a j) (digit b j)
digit-bit_or zero a b = omega (arith, bit_or_step a b)
digit-bit_or (suc j) a b = omega (
  arith,
  digit-suc (bit_or a b) j,
  digit-suc a j,
  digit-suc b j,
  ap (λ (t : ℕ). digit t j) half,
  digit-bit_or j (a / 2) (b / 2),
)
  where
    half : bit_or a b / 2 ≡ bit_or (a / 2) (b / 2)
    half = omega (arith, bit_or_step a b)

digit-bit_and : (j a b : ℕ) → digit (bit_and a b) j ≡ min (digit a j) (digit b j)
digit-bit_and zero a b = omega (arith, bit_and_step a b)
digit-bit_and (suc j) a b = omega (
  arith,
  digit-suc (bit_and a b) j,
  digit-suc a j,
  digit-suc b j,
  ap (λ (t : ℕ). digit t j) half,
  digit-bit_and j (a / 2) (b / 2),
)
  where
    half : bit_and a b / 2 ≡ bit_and (a / 2) (b / 2)
    half = omega (arith, bit_and_step a b)

digit-mod : (w a j : ℕ) → j < w → digit (a % 2 ^ w) j ≡ digit a j
digit-mod zero a j h = absurd (omega arith)
digit-mod (suc w) a zero h = omega (arith, mod-two-pow-suc a w)
digit-mod (suc w) a (suc j) h = omega (
  arith,
  digit-suc (a % 2 ^ suc w) j,
  digit-suc a j,
  ap (λ (t : ℕ). digit t j) half,
  digit-mod w (a / 2) j (omega arith),
)
  where
    half : a % 2 ^ suc w / 2 ≡ a / 2 % 2 ^ w
    half = omega (arith, mod-two-pow-suc a w)

-- A single bit has one digit.
digit-bit : (i j : ℕ) → digit (2 ^ i) j ≡ (if i == j then 1 else 0)
digit-bit zero zero = refl
digit-bit zero (suc j) = ground (arith, digit-suc 1 j, zero-div (2 ^ j))
digit-bit (suc i) zero = ground (arith, two-pow-suc i)
digit-bit (suc i) (suc j) =
    ground (arith, digit-suc (2 ^ suc i) j, ap (λ (t : ℕ). digit t j) half, digit-bit i j)
  where
    half : 2 ^ suc i / 2 ≡ 2 ^ i
    half = omega (arith, two-pow-suc i)

two-pow-lt : (i w : ℕ) → i < w → 2 * 2 ^ i ≤ 2 ^ w
two-pow-lt i w h = omega (arith, two-pow-suc i, pow-le-pow_right {n = 2} (omega arith) h)

digit-ones : (w j : ℕ) → j < w → digit (2 ^ w - 1) j ≡ 1
digit-ones zero j h = absurd (omega arith)
digit-ones (suc w) zero h = omega (arith, two-pow-suc w, two-pow-pos w)
digit-ones (suc w) (suc j) h = omega (
  arith,
  digit-suc (2 ^ suc w - 1) j,
  ap (λ (t : ℕ). digit t j) half,
  digit-ones w j (omega arith),
)
  where
    half : (2 ^ suc w - 1) / 2 ≡ 2 ^ w - 1
    half = omega (arith, two-pow-suc w, two-pow-pos w)

digit-complement :
    (w i j : ℕ) → i < w → j < w → digit (complement w (2 ^ i)) j ≡ (if i == j then 0 else 1)
digit-complement zero i j p q = absurd (omega arith)
digit-complement (suc w) zero zero p q = omega (arith, two-pow-suc w, two-pow-pos w)
digit-complement (suc w) zero (suc j) p q = ground (
  arith,
  digit-suc (complement (suc w) (2 ^ 0)) j,
  ap (λ (t : ℕ). digit t j) half,
  digit-ones w j (omega arith),
)
  where
    half : complement (suc w) (2 ^ 0) / 2 ≡ 2 ^ w - 1
    half = omega (arith, two-pow-suc w, two-pow-pos w)
digit-complement (suc w) (suc i) zero p q = ground (arith, odd)
  where
    odd : digit (complement (suc w) (2 ^ suc i)) 0 ≡ 1
    odd = omega (arith, two-pow-suc w, two-pow-suc i, two-pow-lt i w (omega arith), two-pow-pos i)
digit-complement (suc w) (suc i) (suc j) p q = ground (
  arith,
  digit-suc (complement (suc w) (2 ^ suc i)) j,
  ap (λ (t : ℕ). digit t j) half,
  digit-complement w i j,
)
  where
    half : complement (suc w) (2 ^ suc i) / 2 ≡ complement w (2 ^ i)
    half = omega (arith, two-pow-suc w, two-pow-suc i, two-pow-lt i w (omega arith))

-- `hasBit` tests the digit with the given weight.
pub has_bit-eq-digit : (v i : ℕ) → has_bit v i ≡ (digit v i == 1)
unfolding has_bit
has_bit-eq-digit v i = ground (arith, bit_and-bit i v, two-pow-pos i, positive)
  where
    positive : digit v i ≡ 1 → bit_and v (2 ^ i) ≡ 2 ^ i
    positive e = omega (arith, bit_and-bit i v, ap (λ (t : ℕ). t * 2 ^ i) e)

-- `setBit` turns the bit on and leaves every other bit of the type as it was.
pub has_bit-set_bit :
    (w v i j : ℕ)
    → i < w
    → j < w
    → has_bit (set_bit w v i) j ≡ (if i == j then true else has_bit v j)
unfolding set_bit
has_bit-set_bit w v i j p q = ground (
  arith,
  has_bit-eq-digit (bit_or v (2 ^ i) % 2 ^ w) j,
  has_bit-eq-digit v j,
  digit-mod w (bit_or v (2 ^ i)) j q,
  digit-bit_or j v (2 ^ i),
  digit-bit i j,
)

-- `clearBit` turns the bit off and leaves every other bit of the type as it was.
pub has_bit-clear_bit :
    (w v i j : ℕ)
    → i < w
    → j < w
    → has_bit (clear_bit w v i) j ≡ (if i == j then false else has_bit v j)
unfolding clear_bit
has_bit-clear_bit w v i j p q =
    let masked = bit_and v (complement (promoted w) (2 ^ i)) in
    ground (
      arith,
      has_bit-eq-digit (masked % 2 ^ w) j,
      has_bit-eq-digit v j,
      digit-mod w masked j q,
      digit-bit_and j v (complement (promoted w) (2 ^ i)),
      digit-complement (promoted w) i j (ground arith) (ground arith),
    )
