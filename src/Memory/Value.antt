-- ===== src/Memory/Value.antt =====
-- The bytes of an integer and the integer of its bytes.
use simple_risc_v_emulator.Common.{ℕ, zero, suc, ◌+◌, ◌*◌, ◌/◌, ◌%◌, ◌^◌, ◌<◌}
use simple_risc_v_emulator.Common.{List, [], ◌∷◌, length, All, ◌≡◌, refl, ap, ap, arith}
use simple_risc_v_emulator.Memory.{little_endian_value, little_endian_bytes}
use native.Mathlib.Nat.{pow-suc}

abbrev pub IsByte : ℕ → Type 0
IsByte b = b < 256

pub length-little_endian_bytes : (n v : ℕ) → length (little_endian_bytes n v) ≡ n
length-little_endian_bytes zero v = refl
length-little_endian_bytes (suc n) v = ap suc (length-little_endian_bytes n (v / 256))

pub little_endian_bytes-IsByte : (n v : ℕ) → All IsByte (little_endian_bytes n v)
little_endian_bytes-IsByte zero v = tt
little_endian_bytes-IsByte (suc n) v = (omega arith, little_endian_bytes-IsByte n (v / 256))

pub little_endian_value-bytes :
    (n v : ℕ) → v < 256 ^ n → little_endian_value (little_endian_bytes n v) ≡ v
little_endian_value-bytes zero v h = omega arith
little_endian_value-bytes (suc n) v h =
    omega (arith, little_endian_value-bytes n (v / 256) (omega (arith, pow-suc 256 n)))

pub little_endian_bytes-value :
    (bs : List ℕ) → All IsByte bs → little_endian_bytes (length bs) (little_endian_value bs) ≡ bs
little_endian_bytes-value [] h = refl
little_endian_bytes-value (b ∷ bs) h = ground (
  arith,
  little_endian_bytes-value bs h.1,
  ap (λ (t : ℕ). little_endian_bytes (length bs) t) quotient,
  remainder,
)
  where
    quotient : (b + 256 * little_endian_value bs) / 256 ≡ little_endian_value bs
    quotient = omega (arith, h.0)

    remainder : (b + 256 * little_endian_value bs) % 256 ≡ b
    remainder = omega (arith, h.0)
