-- ===== src/Arena/Align.antt =====
-- `std::align`, as src/riscv/utils/arena.hpp calls it.
use native.Mathlib.Nat.{
  div-mul-le_self, lt-div-mul-add, mul-mod_left, add-mul, div-add-mod', div-eq_of_lt-le,
}
use simple_risc_v_emulator.Common.{ℕ, ◌+◌, ◌-◌, ◌*◌, ◌/◌, ◌%◌, ◌≤◌, ◌<◌, ◌≡◌, ◌∙◌, ap, arith}
use simple_risc_v_emulator.Common.{lt→ltb, ltb-false, some, none}
use simple_risc_v_emulator.Arena.{align_up, align}

-- `align_up` is a multiple of the alignment, and at most `alignment - 1` above the pointer.
pub align_up_bounds :
    (alignment pointer : ℕ)
    → 0 < alignment
    → (pointer ≤ align_up alignment pointer)
      × (align_up alignment pointer < pointer + alignment)
      × (align_up alignment pointer % alignment ≡ 0)
align_up_bounds alignment pointer h = (
  omega (arith, lt-div-mul-add {a = pointer + (alignment - 1)} {b = alignment} h),
  omega (arith, div-mul-le_self (pointer + (alignment - 1)) alignment),
  mul-mod_left ((pointer + (alignment - 1)) / alignment) alignment,
)

-- An aligned pointer stays where it is.
pub align_up-aligned :
    (alignment pointer : ℕ)
    → 0 < alignment
    → pointer % alignment ≡ 0
    → align_up alignment pointer ≡ pointer
align_up-aligned alignment pointer h e = ap (λ (q : ℕ). q * alignment) quotient ∙ whole
  where
    whole : pointer / alignment * alignment ≡ pointer
    whole = omega (arith, div-add-mod' pointer alignment)

    quotient : (pointer + (alignment - 1)) / alignment ≡ pointer / alignment
    quotient =
        div-eq_of_lt-le alignment (omega (arith, whole))
          (omega (arith, whole, add-mul (pointer / alignment) 1 alignment))

module _ (alignment size pointer space : ℕ) where
  pub align-fits :
      align_up alignment pointer - pointer + size ≤ space
      → align alignment size pointer space
        ≡ some (record {
          pointer = align_up alignment pointer;
          space = space - (align_up alignment pointer - pointer);
        })
  unfolding align
  align-fits h = rw (ltb-false space (align_up alignment pointer - pointer + size) h)

  pub align-full :
      space < align_up alignment pointer - pointer + size
      → align alignment size pointer space ≡ none
  unfolding align
  align-full h = rw (lt→ltb space (align_up alignment pointer - pointer + size) h)
