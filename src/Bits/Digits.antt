-- ===== src/Bits/Digits.antt =====
-- `&` and `|` with a mask, with a single bit and with a disjoint field, as arithmetic.
use native.Mathlib.Nat.{
  zero-add, suc-add, pow-suc, one-le-pow, div-div-eq-div-mul, mod-lt, div-add-mod,
}
use native.Mathlib.Nat.{add-mul-mod_self_left, mod-eq_of_lt}
use simple_risc_v_emulator.Common.{ℕ, zero, suc, ◌+◌, ◌-◌, ◌*◌, ◌/◌, ◌%◌, ◌^◌, ◌≤◌, ◌<◌}
use simple_risc_v_emulator.Common.{bit_and, bit_or, ◌≡◌, refl, sym, ap, ◌∙◌, arith}
use simple_risc_v_emulator.Bits.Step.{bit_and_step, bit_or_step}

-- Both go from `a / 2` to `a`, hence the bound.
bit_and-zero_below : (n a : ℕ) → a ≤ n → bit_and a 0 ≡ 0
bit_and-zero_below n zero h = refl
bit_and-zero_below zero (suc a) h = absurd (omega arith)
bit_and-zero_below (suc n) (suc a) h =
    omega (arith, bit_and_step (suc a) 0, bit_and-zero_below n (suc a / 2) (omega arith))

pub bit_and-zero : (a : ℕ) → bit_and a 0 ≡ 0
bit_and-zero a = bit_and-zero_below a a (omega arith)

bit_or-zero_below : (n a : ℕ) → a ≤ n → bit_or a 0 ≡ a
bit_or-zero_below n zero h = refl
bit_or-zero_below zero (suc a) h = absurd (omega arith)
bit_or-zero_below (suc n) (suc a) h =
    omega (arith, bit_or_step (suc a) 0, bit_or-zero_below n (suc a / 2) (omega arith))

pub bit_or-zero : (a : ℕ) → bit_or a 0 ≡ a
bit_or-zero a = bit_or-zero_below a a (omega arith)

-- 2 ^ (k + 1) as a double, which `omega` reads.
pub two-pow-suc : (k : ℕ) → 2 ^ suc k ≡ 2 * 2 ^ k
two-pow-suc k = omega (arith, pow-suc 2 k)

pub two-pow-pos : (k : ℕ) → 1 ≤ 2 ^ k
two-pow-pos k = one-le-pow k 2 (omega arith)

pub two-pow-add : (a b : ℕ) → 2 ^ (a + b) ≡ 2 ^ a * 2 ^ b
two-pow-add zero b = rw zero-add (omega arith)
two-pow-add (suc a) b =
    rw suc-add (
      omega
        (arith, two-pow-suc (a + b), two-pow-add a b, ap (λ (t : ℕ). t * 2 ^ b) (two-pow-suc a)))

pub div-two-pow-suc : (a k : ℕ) → a / 2 ^ suc k ≡ a / 2 / 2 ^ k
div-two-pow-suc a k = rw (two-pow-suc k) (sym (div-div-eq-div-mul a 2 (2 ^ k)))

-- The remainder by 2 * m, from the remainder of the half.
mod-two-mul : (a m : ℕ) → 1 ≤ m → a % (2 * m) ≡ a / 2 % m * 2 + a % 2
mod-two-mul a m h =
    ap (λ (t : ℕ). t % (2 * m)) regroup
    ∙ add-mul-mod_self_left (a / 2 % m * 2 + a % 2) (2 * m) (a / 2 / m)
    ∙ mod-eq_of_lt (omega (arith, mod-lt (a / 2) {m = m} h))
  where
    regroup : a ≡ a / 2 % m * 2 + a % 2 + 2 * m * (a / 2 / m)
    regroup = omega (arith, div-add-mod (a / 2) m)

pub mod-two-pow-suc : (a k : ℕ) → a % 2 ^ suc k ≡ a / 2 % 2 ^ k * 2 + a % 2
mod-two-pow-suc a k = rw (two-pow-suc k) (mod-two-mul a (2 ^ k) (two-pow-pos k))

-- A mask of `k` low bits is the remainder by `2 ^ k`.
pub bit_and-mask : (k a : ℕ) → bit_and a (2 ^ k - 1) ≡ a % 2 ^ k
bit_and-mask zero a = omega (arith, bit_and-zero a)
bit_and-mask (suc k) a = ground (
  arith,
  bit_and_step a (2 ^ suc k - 1),
  two-pow-suc k,
  two-pow-pos k,
  mod-two-pow-suc a k,
  bit_and-mask k (a / 2),
)

-- A mask of one bit.
pub bit_and-bit : (i a : ℕ) → bit_and a (2 ^ i) ≡ a / 2 ^ i % 2 * 2 ^ i
bit_and-bit zero a = omega (arith, bit_and_step a 1, bit_and-zero (a / 2))
bit_and-bit (suc i) a = ground (
  arith,
  bit_and_step a (2 ^ suc i),
  two-pow-suc i,
  div-two-pow-suc a i,
  bit_and-bit i (a / 2),
  ap (λ (t : ℕ). a / 2 / 2 ^ i % 2 * t) (two-pow-suc i),
)

-- `|` with a field of `k` bits and one above it is a sum.
pub bit_or-fields : (k q r : ℕ) → r < 2 ^ k → bit_or (q * 2 ^ k) r ≡ q * 2 ^ k + r
bit_or-fields zero q r h = ground (arith, bit_or-zero q)
bit_or-fields (suc k) q r h = ground (
  arith,
  bit_or_step (q * 2 ^ suc k) r,
  two-pow-suc k,
  ap (λ (t : ℕ). q * t) (two-pow-suc k),
  bit_or-fields k q (r / 2) (omega (arith, two-pow-suc k)),
)

bit_or-comm_below : (n a b : ℕ) → a ≤ n → b ≤ n → bit_or a b ≡ bit_or b a
bit_or-comm_below zero zero zero p q = refl
bit_or-comm_below zero zero (suc b) p q = absurd (omega arith)
bit_or-comm_below zero (suc a) b p q = absurd (omega arith)
bit_or-comm_below (suc n) a b p q = omega (
  arith,
  bit_or_step a b,
  bit_or_step b a,
  bit_or-comm_below n (a / 2) (b / 2) (omega arith) (omega arith),
)

pub bit_or_comm : (a b : ℕ) → bit_or a b ≡ bit_or b a
bit_or_comm a b = bit_or-comm_below (a + b) a b (omega arith) (omega arith)

-- `|` of a number below 2 ^ k and a field above it.
pub bit_or-above : (k x q : ℕ) → x < 2 ^ k → bit_or x (q * 2 ^ k) ≡ x + q * 2 ^ k
bit_or-above k x q h = omega (arith, bit_or_comm x (q * 2 ^ k), bit_or-fields k q x h)

-- `& ~1` on 64 bits.
pub bit_and-even_mask : (a : ℕ) → a < 2 ^ 64 → bit_and a (2 ^ 64 - 2) ≡ a / 2 * 2
bit_and-even_mask a h = omega (arith, bit_and_step a (2 ^ 64 - 2), bit_and-mask 63 (a / 2))
