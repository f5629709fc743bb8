-- ===== src/Elf/Layout.antt =====
-- src/riscv/elf.cpp: segments that lie apart in memory, and what the two validations accept.
pub mod Code
use simple_risc_v_emulator.Common.{ℕ, ◌+◌, ◌%◌, ◌^◌, ◌≤◌, ◌<◌, ◌≡◌, ◌≢◌, refl, arith, List, [], ◌∷◌}
use simple_risc_v_emulator.Common.{All, ltb, ◌==◌, not, Bool-cases, ltb→lt, ltb-false→le}
use simple_risc_v_emulator.Common.{true, false, ==→eq, ◌⊎◌, inl, inr}
use simple_risc_v_emulator.Common.{ok, throw, ◌>>◌, throw_if, runtime_error}
use simple_risc_v_emulator.Common.{data_truncated, data_overlap, no_code_segments}
use simple_risc_v_emulator.Common.{code_truncated_or_padded, code_not_at_zero, code_not_contiguous}
use simple_risc_v_emulator.Elf.Segments.{SegmentHeader, destination_end}
use simple_risc_v_emulator.Elf.Sort.{IsSorted, IsFirst, IsFirst-weaken}
use simple_risc_v_emulator.Elf.Validate.{
  check_not_truncated, check_no_overlap, validate_data_headers, check_exact, check_contiguous,
  validate_code_headers,
}

-- The two ends of the segment are numbers of 64 bits.
pub record IsUnwrapped (h : SegmentHeader) : Type 0 where
  pub source_lt : h.source_start + h.source_size < 2 ^ 64
  pub destination_lt : h.destination_start + h.destination_size < 2 ^ 64

-- What is copied has room.
abbrev pub Fits : SegmentHeader → Type 0
Fits h = h.source_size ≤ h.destination_size

-- All of the segment lies before all of those in the list.
abbrev pub IsBefore : SegmentHeader → List SegmentHeader → Type 0
IsBefore h hs = All (λ x. h.destination_start + h.destination_size ≤ x.destination_start) hs

-- No two segments overlap.
abbrev pub IsApart : List SegmentHeader → Type 0
IsApart [] = Unit {0}
IsApart (h ∷ hs) = IsBefore h hs × IsApart hs

pub destination_end-eq :
    (h : SegmentHeader)
    → IsUnwrapped h
    → destination_end h ≡ h.destination_start + h.destination_size
unfolding destination_end
destination_end-eq h u = omega arith

check_not_truncated-cases :
    (hs : List SegmentHeader)
    → ((check_not_truncated hs ≡ ok tt) × All Fits hs)
      ⊎ ((check_not_truncated hs ≡ throw (runtime_error data_truncated)) × ¬ All Fits hs)
unfolding check_not_truncated
check_not_truncated-cases [] = inl (refl, tt)
check_not_truncated-cases (h ∷ hs) = elim (Bool-cases (ltb h.destination_size h.source_size)) [
  | inl e ↦ inr (rw e, λ fits. absurd (omega (arith, ltb→lt _ _ e, fits.0)))
  | inr e ↦ elim (check_not_truncated-cases hs) [
    | inl rest ↦ inl (rw e rest.0, (ltb-false→le _ _ e, rest.1))
    | inr rest ↦ inr (rw e rest.0, λ fits. rest.1 fits.1)
  ]
]

IsBefore-first :
    (h k : SegmentHeader) (hs : List SegmentHeader)
    → h.destination_start + h.destination_size ≤ k.destination_start
    → IsFirst k hs
    → IsBefore h hs
IsBefore-first h k [] le f = tt
IsBefore-first h k (x ∷ hs) le f = (omega (arith, f.0), IsBefore-first h k hs le f.1)

check_no_overlap-cases :
    (h : SegmentHeader) (hs : List SegmentHeader)
    → IsSorted (h ∷ hs)
    → All IsUnwrapped (h ∷ hs)
    → ((check_no_overlap h hs ≡ ok tt) × IsApart (h ∷ hs))
      ⊎ ((check_no_overlap h hs ≡ throw (runtime_error data_overlap)) × ¬ IsApart (h ∷ hs))
unfolding check_no_overlap
check_no_overlap-cases h [] s u = inl (refl, (tt, tt))
check_no_overlap-cases h (k ∷ hs) s u =
    let end : destination_end h ≡ h.destination_start + h.destination_size =
      destination_end-eq h u.0 in
    elim (Bool-cases (ltb k.destination_start (destination_end h))) [
      | inl e ↦ inr (rw e, λ apart. absurd (omega (arith, ltb→lt _ _ e, end, apart.0.0)))
      | inr e ↦
          let le : h.destination_start + h.destination_size ≤ k.destination_start =
            omega (arith, ltb-false→le _ _ e, end) in
          elim (check_no_overlap-cases k hs s.1 u.1) [
            | inl rest ↦ inl (rw e rest.0, ((le, IsBefore-first h k hs le s.1.0), rest.1))
            | inr rest ↦ inr (rw e rest.0, λ apart. rest.1 apart.1)
          ]
    ]

-- On sorted segments whose ends do not wrap around, the validation of the data segments accepts
-- exactly those that have room for what is copied and of which no two overlap. Else it throws: the
-- first message when one has no room, and the other when all have room but two overlap.
pub validate_data_headers_lem :
    (hs : List SegmentHeader)
    → IsSorted hs
    → All IsUnwrapped hs
    → ((validate_data_headers hs ≡ ok tt) × All Fits hs × IsApart hs)
      ⊎ ((validate_data_headers hs ≡ throw (runtime_error data_truncated)) × ¬ All Fits hs)
      ⊎ ((validate_data_headers hs ≡ throw (runtime_error data_overlap))
          × All Fits hs
          × ¬ IsApart hs)
unfolding validate_data_headers
validate_data_headers_lem [] s u = inl (refl, tt, tt)
validate_data_headers_lem (h ∷ hs) s u = elim (check_not_truncated-cases (h ∷ hs)) [
  | inr bad ↦ inr (inl (rw bad.0, bad.1))
  | inl fits ↦ elim (check_no_overlap-cases h hs s u) [
    | inl apart ↦ inl (rw fits.0 apart.0, fits.1, apart.1)
    | inr bad ↦ inr (inr (rw fits.0 bad.0, fits.1, bad.1))
  ]
]
