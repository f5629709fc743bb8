-- ===== src/Elf/Sort.antt =====
-- src/riscv/elf.cpp: `sortHeadersBySegmentAddresses`. The order in which `std::sort` leaves
-- segments with the same address is not specified, so the sort is an argument with the two
-- properties that the C++ standard promises.
use mathlib.Core.List.{Permᴰ}
use mathlib.Core.List.Permᴰ
use simple_risc_v_emulator.Common.{
  ◌≤◌, List, [], ◌∷◌, ltb, if◌then◌else◌, All, refl, sym, subst, arith,
}
use simple_risc_v_emulator.Common.{Bool-cases, inl, inr, ltb→lt, ltb-false→le}
use simple_risc_v_emulator.Elf.Segments.{SegmentHeader}

-- No segment in the list starts before the given one.
abbrev pub IsFirst : SegmentHeader → List SegmentHeader → Type 0
IsFirst h hs = All (λ x. h.destination_start ≤ x.destination_start) hs

abbrev pub IsSorted : List SegmentHeader → Type 0
IsSorted [] = Unit {0}
IsSorted (h ∷ hs) = IsFirst h hs × IsSorted hs

-- `std::sort` with the comparison of `destinationStart`.
pub record Sort : Type 0 where
  pub sort : List SegmentHeader → List SegmentHeader
  pub sorted : (hs : List SegmentHeader) → IsSorted (sort hs)
  pub rearranged : (hs : List SegmentHeader) → Permᴰ (sort hs) hs

module _ {ℓ κ} {A : Type ℓ} (P : A → Type κ) where
  pub All-perm : {xs ys : List A} → Permᴰ xs ys → All P ys → All P xs
  All-perm Permᴰ.nil h = tt
  All-perm (Permᴰ.cons e d) h = (subst P (sym e) h.0, All-perm d h.1)
  All-perm (Permᴰ.swap e f) h = (subst P (sym e) h.1.0, (subst P (sym f) h.0, h.1.1))
  All-perm (Permᴰ.trans d e) h = All-perm d (All-perm e h)

-- One order that `std::sort` may give.
insert : SegmentHeader → List SegmentHeader → List SegmentHeader
insert x [] = x ∷ []
insert x (h ∷ hs) =
    if ltb h.destination_start x.destination_start then h ∷ insert x hs else x ∷ h ∷ hs

unfoldable pub insertion_sort : List SegmentHeader → List SegmentHeader
unfolding insert
insertion_sort [] = []
insertion_sort (h ∷ hs) = insert h (insertion_sort hs)

insert-perm : (x : SegmentHeader) (hs : List SegmentHeader) → Permᴰ (insert x hs) (x ∷ hs)
unfolding insert
insert-perm x [] = Permᴰ.refl (x ∷ [])
insert-perm x (h ∷ hs) = elim (Bool-cases (ltb h.destination_start x.destination_start)) [
  | inl e ↦ rw e (Permᴰ.trans (Permᴰ.cons refl (insert-perm x hs)) (Permᴰ.swap refl refl))
  | inr e ↦ rw e (Permᴰ.refl (x ∷ h ∷ hs))
]

pub insertion_sort-perm : (hs : List SegmentHeader) → Permᴰ (insertion_sort hs) hs
unfolding insertion_sort
insertion_sort-perm [] = Permᴰ.nil
insertion_sort-perm (h ∷ hs) =
    Permᴰ.trans (insert-perm h (insertion_sort hs)) (Permᴰ.cons refl (insertion_sort-perm hs))

pub IsFirst-weaken :
    (x h : SegmentHeader) (hs : List SegmentHeader)
    → x.destination_start ≤ h.destination_start
    → IsFirst h hs
    → IsFirst x hs
IsFirst-weaken x h [] le f = tt
IsFirst-weaken x h (y ∷ hs) le f = (omega arith, IsFirst-weaken x h hs le f.1)

insert-IsSorted :
    (x : SegmentHeader) (hs : List SegmentHeader) → IsSorted hs → IsSorted (insert x hs)
unfolding insert
insert-IsSorted x [] s = (tt, tt)
insert-IsSorted x (h ∷ hs) s = elim (Bool-cases (ltb h.destination_start x.destination_start)) [
  | inl e ↦ rw e (
    All-perm (λ y. h.destination_start ≤ y.destination_start) (insert-perm x hs)
        (omega (arith, ltb→lt h.destination_start x.destination_start e), s.0),
    insert-IsSorted x hs s.1,
  )
  | inr e ↦
      let le : x.destination_start ≤ h.destination_start = ltb-false→le _ _ e in
      rw e ((le, IsFirst-weaken x h hs le s.0), s)
]

pub insertion_sort-IsSorted : (hs : List SegmentHeader) → IsSorted (insertion_sort hs)
unfolding insertion_sort
insertion_sort-IsSorted [] = tt
insertion_sort-IsSorted (h ∷ hs) =
    insert-IsSorted h (insertion_sort hs) (insertion_sort-IsSorted hs)

abbrev pub stable_sort : Sort
stable_sort = record {
  sort = insertion_sort;
  sorted = insertion_sort-IsSorted;
  rearranged = insertion_sort-perm;
}
