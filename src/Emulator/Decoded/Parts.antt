-- ===== src/Emulator/Decoded/Parts.antt =====
-- The parts of a decoded instruction on any word: register indices and immediates in their ranges.
use simple_risc_v_emulator.Common.{ℕ, ◌*◌, ◌+◌, ◌^◌, ◌<◌, arith}
use simple_risc_v_emulator.Common.{Bool, true, false, if◌then◌else◌}
use simple_risc_v_emulator.Common.{Result, ok, throw, undefined, ◌>>=◌}
use simple_risc_v_emulator.Bits.Sign.{sign_extend-eq}
use simple_risc_v_emulator.Instruction.Fields.{
  get_destination_register, get_source_register1, get_source_register2, get_immediate_i,
  get_immediate_s, get_immediate_b, get_immediate_u, get_immediate_j,
}
use simple_risc_v_emulator.Instruction.Fields.Values.{
  slice, offset_b, offset_j, get_destination_register-eq, get_source_register1-eq,
  get_source_register2-eq, get_immediate_i-eq, get_immediate_s-eq, get_immediate_b-eq,
  get_immediate_u-eq, get_immediate_j-eq,
}

-- A value with a property, or an exception.
abbrev pub Gives {ℓ} : {A : Type ℓ} → (A → Type 0) → Result A → Type 0
Gives P (ok a) = P a
Gives P (throw e) = Unit {0}
Gives P undefined = ⊥

pub Gives-bind {ℓ κ} :
    {A : Type ℓ} {B : Type κ} (P : A → Type 0) (Q : B → Type 0) (r : Result A) (f : A → Result B)
    → Gives P r
    → ((a : A) → P a → Gives Q (f a))
    → Gives Q (r >>= f)
Gives-bind P Q (ok a) f g h = h a g
Gives-bind P Q (throw e) f g h = tt
Gives-bind P Q undefined f g h = absurd g

pub Gives-weaken {ℓ} :
    {A : Type ℓ} (P Q : A → Type 0) (r : Result A) → ((a : A) → P a → Q a) → Gives P r → Gives Q r
Gives-weaken P Q (ok a) f g = f a g
Gives-weaken P Q (throw e) f g = tt
Gives-weaken P Q undefined f g = absurd g

pub Gives-if {ℓ} :
    {A : Type ℓ} (P : A → Type 0) (b : Bool) (x y : Result A)
    → Gives P x
    → Gives P y
    → Gives P (if b then x else y)
Gives-if P true x y g h = g
Gives-if P false x y g h = h

module _ (w : ℕ) where
  pub get_destination_register-lt : get_destination_register w < 32
  get_destination_register-lt = omega (arith, get_destination_register-eq w)

  pub get_source_register1-lt : get_source_register1 w < 32
  get_source_register1-lt = omega (arith, get_source_register1-eq w)

  pub get_source_register2-lt : get_source_register2 w < 32
  get_source_register2-lt = omega (arith, get_source_register2-eq w)

  pub get_immediate_i-lt : get_immediate_i w < 2 ^ 32
  get_immediate_i-lt = ground (
    arith,
    get_immediate_i-eq w,
    sign_extend-eq 32 (slice w 20 12) 11 (omega arith) (omega arith),
  )

  pub get_immediate_s-lt : get_immediate_s w < 2 ^ 32
  get_immediate_s-lt =
      let v : ℕ = slice w 7 5 + slice w 25 7 * 2 ^ 5 in
      ground (arith, get_immediate_s-eq w, sign_extend-eq 32 v 11 (omega arith) (omega arith))

  pub get_immediate_b-lt : get_immediate_b w < 2 ^ 32
  get_immediate_b-lt =
      ground
        (arith, get_immediate_b-eq w, sign_extend-eq 32 (offset_b w) 12 (omega arith) (omega arith))

  pub get_immediate_u-lt : get_immediate_u w < 2 ^ 32
  get_immediate_u-lt = omega (arith, get_immediate_u-eq w)

  pub get_immediate_j-lt : get_immediate_j w < 2 ^ 32
  get_immediate_j-lt =
      ground
        (arith, get_immediate_j-eq w, sign_extend-eq 32 (offset_j w) 20 (omega arith) (omega arith))
