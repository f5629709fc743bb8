-- ===== src/Elf/Layout/Code.antt =====
-- src/riscv/elf.cpp: `validateCodeHeaders` and the layout of the code segments.
use simple_risc_v_emulator.Common.{ℕ, ◌+◌, ◌≤◌, ◌≡◌, refl, arith, List, [], ◌∷◌}
use simple_risc_v_emulator.Common.{All, ◌==◌, Bool-cases}
use simple_risc_v_emulator.Common.{==→eq, ==-ne, Result, Message, ◌⊎◌, inl, inr}
use simple_risc_v_emulator.Common.{ok, throw, runtime_error}
use simple_risc_v_emulator.Common.{no_code_segments}
use simple_risc_v_emulator.Common.{code_truncated_or_padded, code_not_at_zero, code_not_contiguous}
use simple_risc_v_emulator.Elf.Segments.{SegmentHeader, destination_end}
use simple_risc_v_emulator.Elf.Validate.{check_exact, check_contiguous, validate_code_headers}
use simple_risc_v_emulator.Elf.Layout.{IsUnwrapped, Fits, IsApart, destination_end-eq}

-- Each segment is as long in memory as in the file.
abbrev pub IsExact : SegmentHeader → Type 0
IsExact h = h.destination_size ≡ h.source_size

-- Each segment begins where the one before it ends.
abbrev pub IsContiguous : SegmentHeader → List SegmentHeader → Type 0
IsContiguous previous [] = Unit {0}
IsContiguous previous (h ∷ hs) =
    (previous.destination_start + previous.destination_size ≡ h.destination_start)
    × IsContiguous h hs

-- The segments cover the addresses from zero on without a gap.
abbrev pub IsImage : List SegmentHeader → Type 0
IsImage [] = ⊥
IsImage (h ∷ hs) = All IsExact (h ∷ hs) × (h.destination_start ≡ 0) × IsContiguous h hs

-- Refused, with one of the messages, and not of the layout that is asked for.
abbrev pub Refused : {A : Type 0} → Result A → Type 0 → Type 0
Refused r P = ((m : Message) × (r ≡ throw (runtime_error m))) × ¬ P

check_exact-cases :
    (hs : List SegmentHeader)
    → ((check_exact hs ≡ ok tt) × All IsExact hs) ⊎ Refused (check_exact hs) (All IsExact hs)
unfolding check_exact
check_exact-cases [] = inl (refl, tt)
check_exact-cases (h ∷ hs) = elim (Bool-cases (h.destination_size == h.source_size)) [
  | inr e ↦ inr (
    (code_truncated_or_padded, rw e),
    λ exact. absurd (omega (arith, ==-ne h.destination_size h.source_size e, exact.0)),
  )
  | inl e ↦ elim (check_exact-cases hs) [
    | inl rest ↦ inl (rw e rest.0, (==→eq _ _ e, rest.1))
    | inr rest ↦ inr ((rest.0.0, rw e rest.0.1), λ exact. rest.1 exact.1)
  ]
]

check_contiguous-cases :
    (h : SegmentHeader) (hs : List SegmentHeader)
    → All IsUnwrapped (h ∷ hs)
    → ((check_contiguous h hs ≡ ok tt) × IsContiguous h hs)
      ⊎ Refused (check_contiguous h hs) (IsContiguous h hs)
unfolding check_contiguous
check_contiguous-cases h [] u = inl (refl, tt)
check_contiguous-cases h (k ∷ hs) u =
    let end : destination_end h ≡ h.destination_start + h.destination_size =
      destination_end-eq h u.0 in
    elim (Bool-cases (destination_end h == k.destination_start)) [
      | inr e ↦ inr (
        (code_not_contiguous, rw e),
        λ next.
            absurd (omega (arith, ==-ne (destination_end h) k.destination_start e, end, next.0)),
      )
      | inl e ↦ elim (check_contiguous-cases k hs u.1) [
        | inl rest ↦ inl (rw e rest.0, (omega (arith, ==→eq _ _ e, end), rest.1))
        | inr rest ↦ inr ((rest.0.0, rw e rest.0.1), λ next. rest.1 next.1)
      ]
    ]

-- On segments whose ends do not wrap around, the validation of the code segments accepts exactly
-- those that cover the addresses from zero on without gap or overlap, each as long in memory as in
-- the file, at least one of them; else it throws a `std::runtime_error`.
pub validate_code_headers_lem :
    (hs : List SegmentHeader)
    → All IsUnwrapped hs
    → ((validate_code_headers hs ≡ ok tt) × IsImage hs)
      ⊎ Refused (validate_code_headers hs) (IsImage hs)
unfolding validate_code_headers
validate_code_headers_lem [] u = inr ((no_code_segments, refl), λ x. x)
validate_code_headers_lem (h ∷ hs) u = elim (check_exact-cases (h ∷ hs)) [
  | inr bad ↦ inr ((bad.0.0, rw bad.0.1), λ image. bad.1 image.0)
  | inl exact ↦ elim (Bool-cases (h.destination_start == 0)) [
    | inr e ↦ inr (
      (code_not_at_zero, rw (exact.0, e)),
      λ image. absurd (omega (arith, ==-ne h.destination_start 0 e, image.1)),
    )
    | inl e ↦ elim (check_contiguous-cases h hs u) [
      | inl next ↦ inl (rw (exact.0, e) next.0, (exact.1, ==→eq _ _ e, next.1))
      | inr bad ↦ inr ((bad.0.0, rw (exact.0, e) bad.0.1), λ image. bad.1 image.2)
    ]
  ]
]

IsContiguous-IsBefore :
    (end : ℕ) (h : SegmentHeader) (hs : List SegmentHeader)
    → end ≤ h.destination_start
    → IsContiguous h hs
    → All (λ x. end ≤ x.destination_start) hs
IsContiguous-IsBefore end h [] le c = tt
IsContiguous-IsBefore end h (k ∷ hs) le c =
    (omega arith, IsContiguous-IsBefore end k hs (omega arith) c.1)

IsContiguous-IsApart :
    (h : SegmentHeader) (hs : List SegmentHeader) → IsContiguous h hs → IsApart (h ∷ hs)
IsContiguous-IsApart h [] c = (tt, tt)
IsContiguous-IsApart h (k ∷ hs) c = (
  (
    omega arith,
    IsContiguous-IsBefore (h.destination_start + h.destination_size) k hs (omega arith) c.1,
  ),
  IsContiguous-IsApart k hs c.1,
)

pub IsImage-IsApart : (hs : List SegmentHeader) → IsImage hs → IsApart hs
IsImage-IsApart [] image = tt
IsImage-IsApart (h ∷ hs) image = IsContiguous-IsApart h hs image.2

pub IsExact-Fits : (hs : List SegmentHeader) → All IsExact hs → All Fits hs
IsExact-Fits [] exact = tt
IsExact-Fits (h ∷ hs) exact = (omega (arith, exact.0), IsExact-Fits hs exact.1)
