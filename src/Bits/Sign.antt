-- ===== src/Bits/Sign.antt =====
-- src/riscv/utils/bits.hpp: `signExtend` and signed values.
use native.Mathlib.Nat.{pow-le-pow_right, mod-eq_of_lt, mul-div_cancel}
use native.Mathlib.Numerals.{add-one, sub-one}
use simple_risc_v_emulator.Common.{ltb→lt, lt→ltb, ltb-false, ltb-false→le, Bool-cases, inl, inr}
use simple_risc_v_emulator.Common.{ℕ, zero, suc, ◌+◌, ◌-◌, ◌*◌, ◌/◌, ◌^◌, ◌≤◌, ◌<◌}
use simple_risc_v_emulator.Common.{◌≡◌, ap, ◌∙◌, arith, signed, ltb, if◌then◌else◌, ℤ, pos, negsuc}
use simple_risc_v_emulator.Bits.{sign_extend}
use simple_risc_v_emulator.Bits.Digits.{two-pow-suc, two-pow-pos, two-pow-add}

ltb-mul : (a b p : ℕ) → 1 ≤ p → ltb (a * p) (b * p) ≡ ltb a b
ltb-mul a b p h = elim (Bool-cases (ltb a b)) [
  | inl e ↦ rw e (lt→ltb _ _ (less (ltb→lt a b e)))
  | inr e ↦ rw e (ltb-false _ _ (not_less (ltb-false→le a b e)))
]
  where
    less : a < b → a * p < b * p
    less q = grind arith

    not_less : b ≤ a → b * p ≤ a * p
    not_less q = grind arith

module _ (w v b : ℕ) (inside : b < w) (fits : v < 2 ^ (b + 1)) where
  abbrev shift : ℕ
  shift = w - (b + 1)

  half-field : 2 ^ (b + 1) ≡ 2 * 2 ^ b
  half-field = rw add-one (two-pow-suc b)

  width-split : 2 ^ w ≡ 2 ^ (b + 1) * 2 ^ shift
  width-split = ap (λ (t : ℕ). 2 ^ t) sum ∙ two-pow-add (b + 1) shift
    where
      sum : w ≡ b + 1 + shift
      sum = omega arith

  half-split : 2 ^ (w - 1) ≡ 2 ^ b * 2 ^ shift
  half-split = ap (λ (t : ℕ). 2 ^ t) sum ∙ two-pow-add b shift
    where
      sum : w - 1 ≡ b + shift
      sum = omega arith

  shifted-lt : v * 2 ^ shift < 2 ^ w
  shifted-lt = rw width-split (grind (arith, two-pow-pos shift))

  shifted-back : v * 2 ^ shift / 2 ^ shift ≡ v
  shifted-back = mul-div_cancel v (two-pow-pos shift)

  kept : w - shift ≡ b + 1
  kept = omega arith

  sign-test : ltb (v * 2 ^ shift) (2 ^ (w - 1)) ≡ ltb v (2 ^ b)
  sign-test = rw half-split (ltb-mul v (2 ^ b) (2 ^ shift) (two-pow-pos shift))

  -- `signExtend` as a case split on the sign bit.
  pub sign_extend-eq : sign_extend w v b ≡ (if ltb v (2 ^ b) then v else v + (2 ^ w - 2 ^ (b + 1)))
  unfolding sign_extend
  sign_extend-eq = rw (mod-eq_of_lt shifted-lt, sign-test, shifted-back, kept)

two-pow-double : (w b : ℕ) → b < w → 2 ^ w ≡ 2 * 2 ^ (w - 1)
two-pow-double zero b p = absurd (omega arith)
two-pow-double (suc w) b p = rw sub-one (two-pow-suc w)

-- `signExtend` gives a pattern with the signed value of the field that ends at the sign bit.
pub signed-sign_extend :
    (w v b : ℕ) → b < w → v < 2 ^ (b + 1) → signed w (sign_extend w v b) ≡ signed (b + 1) v
signed-sign_extend w v b h fits = ground (
  arith,
  sign_extend-eq w v b h fits,
  half-field w v b h fits,
  two-pow-double w b h,
  pow-le-pow_right {n = 2} (omega arith) {i = b} {j = w - 1} (omega arith),
)

-- The two's complement pattern of an integer in `w` bits, and the integers that have one.
abbrev pub pattern : ℕ → ℤ → ℕ
pattern w (pos n) = n
pattern w (negsuc n) = 2 ^ w - 1 - n

abbrev pub FitsSigned : ℕ → ℤ → Type 0
FitsSigned w (pos n) = n < 2 ^ (w - 1)
FitsSigned w (negsuc n) = n < 2 ^ (w - 1)

pub pattern-lt : (w : ℕ) (z : ℤ) → FitsSigned (w + 1) z → pattern (w + 1) z < 2 ^ (w + 1)
pattern-lt w (pos n) h = omega (arith, two-pow-double (w + 1) w (omega arith))
pattern-lt w (negsuc n) h = omega (arith, two-pow-double (w + 1) w (omega arith))

-- `signExtend` takes the pattern of an integer in the narrow field to its pattern in the type.
pub sign_extend-pattern :
    (w b : ℕ) (z : ℤ)
    → b < w
    → FitsSigned (b + 1) z
    → sign_extend w (pattern (b + 1) z) b ≡ pattern w z
sign_extend-pattern w b z h fits = ground (
  arith,
  sign_extend-eq w (pattern (b + 1) z) b h (pattern-lt b z fits),
  two-pow-double (b + 1) b (omega arith),
  two-pow-double w b h,
  pow-le-pow_right {n = 2} (omega arith) {i = b} {j = w - 1} (omega arith),
)
