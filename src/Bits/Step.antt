-- ===== src/Bits/Step.antt =====
-- One binary digit of `&` and `|`: the native operations are recursions on digits with fuel, and
-- here the fuel is gone.
use Prim.Native.Nat.{min, max, digits, bitwise, bit_and-bitwise, bit_or-bitwise}
use simple_risc_v_emulator.Common.{ℕ, zero, suc, ◌+◌, ◌*◌, ◌/◌, ◌%◌, ◌≤◌, bit_and, bit_or}
use simple_risc_v_emulator.Common.{◌≡◌, refl, arith}

module _ (rest : ℕ → ℕ) (digit : ℕ → ℕ → ℕ) where
  -- Any two amounts of fuel that reach to the end of the first number are as good.
  enough_fuel :
      (x y fuel other : ℕ)
      → x ≤ other
      → x ≤ fuel
      → digits rest digit other x y ≡ digits rest digit fuel x y
  enough_fuel (suc x) y (suc fuel) (suc other) there here =
      omega (arith, enough_fuel (suc x / 2) (y / 2) fuel other (omega arith) (omega arith))
  enough_fuel (suc x) y zero other there here = absurd (omega arith)
  enough_fuel (suc x) y (suc fuel) zero there here = absurd (omega arith)
  enough_fuel zero y (suc fuel) (suc other) there here = refl
  enough_fuel zero y (suc fuel) zero there here = refl
  enough_fuel zero y zero (suc other) there here = refl
  enough_fuel zero y zero zero there here = refl

  bitwise-lowest :
      (x y : ℕ)
      → bitwise rest digit (suc x) y
        ≡ digit (suc x % 2) (y % 2) + bitwise rest digit (suc x / 2) (y / 2) * 2
  bitwise-lowest x y =
      omega (arith, enough_fuel (suc x / 2) (y / 2) x (suc x / 2) (omega arith) (omega arith))

pub bit_and_step : (x y : ℕ) → bit_and x y ≡ min (x % 2) (y % 2) + bit_and (x / 2) (y / 2) * 2
bit_and_step (suc x) y = simp bit_and-bitwise (bitwise-lowest (λ n. 0) min x y)
bit_and_step zero y = simp bit_and-bitwise (omega arith)

pub bit_or_step : (x y : ℕ) → bit_or x y ≡ max (x % 2) (y % 2) + bit_or (x / 2) (y / 2) * 2
bit_or_step (suc x) y = simp bit_or-bitwise (bitwise-lowest (λ n. n) max x y)
bit_or_step zero y = simp bit_or-bitwise (omega arith)
