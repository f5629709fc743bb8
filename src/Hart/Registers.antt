-- ===== src/Hart/Registers.antt =====
-- src/riscv/base.hpp: the register file.
use simple_risc_v_emulator.Common.{ℕ, zero, suc, ◌^◌, ◌<◌, List, [], ◌∷◌, All, All-set}
use simple_risc_v_emulator.Common.{◌≡◌, refl, subst, ◌∙◌, arith, length, length-set, get_elem?, set}
use simple_risc_v_emulator.Common.{some, ◌==◌, if◌then◌else◌, ok}
use simple_risc_v_emulator.Common.{lt→ltb, ==-false}
use simple_risc_v_emulator.Hart.{RegisterFile, get_register, set_register, register_count}
use simple_risc_v_emulator.Hart.{zero_registers}

abbrev pub IsU64 : ℕ → Type 0
IsU64 x = x < 2 ^ 64

-- Thirty-two 64-bit registers, the first of which is zero.
pub record IsFile (file : RegisterFile) : Type 0 where
  pub count : length file.registers ≡ register_count
  pub zero_first : get_elem? file.registers 0 ≡ some 0
  pub words : All IsU64 file.registers

module _ {ℓ} {A : Type ℓ} where
  pub get_elem?-in_range :
      (xs : List A) (i : ℕ) → i < length xs → (x : A) × (get_elem? xs i ≡ some x)
  get_elem?-in_range [] i h = absurd (omega arith)
  get_elem?-in_range (x ∷ xs) zero h = (x, refl)
  get_elem?-in_range (x ∷ xs) (suc i) h = get_elem?-in_range xs i (omega arith)

  get_elem?-set :
      (xs : List A) (i j : ℕ) (v : A)
      → i < length xs
      → get_elem? (set xs i v) j ≡ (if i == j then some v else get_elem? xs j)
  get_elem?-set [] i j v h = absurd (omega arith)
  get_elem?-set (x ∷ xs) zero zero v h = refl
  get_elem?-set (x ∷ xs) zero (suc j) v h = ground arith
  get_elem?-set (x ∷ xs) (suc i) zero v h = ground arith
  get_elem?-set (x ∷ xs) (suc i) (suc j) v h = ground (arith, get_elem?-set xs i j v)

  get_elem?-All :
      (P : A → Type 0) (xs : List A) (i : ℕ) {x : A} → All P xs → get_elem? xs i ≡ some x → P x
  get_elem?-All P [] i h e = absurd (cc)
  get_elem?-All P (y ∷ xs) zero h e = subst P (cc) h.0
  get_elem?-All P (y ∷ xs) (suc i) h e = get_elem?-All P xs i h.1 e

pub zero_registers-IsFile : IsFile zero_registers
zero_registers-IsFile = record { count = refl; zero_first = refl; words = omega arith }

-- A register with an index below 32 can be read, and holds a 64-bit value.
pub get_register-defined :
    (file : RegisterFile) (i : ℕ)
    → IsFile file
    → i < register_count
    → (x : ℕ) × (get_register file i ≡ ok x) × IsU64 x
unfolding get_register
get_register-defined file i v h =
    let (x, e) = get_elem?-in_range file.registers i (omega (arith, v.count)) in
    (x, rw e, get_elem?-All IsU64 file.registers i v.words e)

module _ (file : RegisterFile) (i x : ℕ) (v : IsFile file) (h : suc i < register_count)
    (u : IsU64 x) where
  abbrev written : RegisterFile
  written = record file { registers = set file.registers (suc i) x }

  in_file : suc i < length file.registers
  in_file = omega (arith, v.count)

  set_register-written : set_register file (suc i) x ≡ ok written
  unfolding set_register
  set_register-written = ground (arith, lt→ltb (suc i) (length file.registers) in_file)

  written-IsFile : IsFile written
  written-IsFile = record {
    count = length-set file.registers (suc i) x ∙ v.count;
    zero_first = get_elem?-set file.registers (suc i) 0 x in_file ∙ ground (arith, v.zero_first);
    words = All-set IsU64 file.registers (suc i) x v.words u;
  }

  get_register-written :
      (j : ℕ) → get_register written j ≡ (if suc i == j then ok x else get_register file j)
  unfolding get_register
  get_register-written j = ground (arith, get_elem?-set file.registers (suc i) j x in_file)

-- A write to a register with an index below 32 succeeds and keeps the file well formed. Reading
-- then gives the written value at that index, unless it is x0, and the old value elsewhere.
pub set_register_lem :
    (file : RegisterFile) (i x : ℕ)
    → IsFile file
    → i < register_count
    → IsU64 x
    → (file' : RegisterFile) × (set_register file i x ≡ ok file')
      × IsFile file'
      × ((j : ℕ)
          → get_register file' j ≡ (
              if i == 0 then get_register file j else if i == j then ok x else get_register file j))
set_register_lem file zero x v h u = (file, unfold set_register in refl, v, λ j. refl)
set_register_lem file (suc i) x v h u = (
  written file i x v h u,
  set_register-written file i x v h u,
  written-IsFile file i x v h u,
  λ j. rw (==-false (suc i) 0 (omega arith)) (get_register-written file i x v h u j),
)
