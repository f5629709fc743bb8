-- ===== src/Elf/Padding.antt =====
-- src/riscv/elf.cpp: the part of a data segment that the file does not have.
use simple_risc_v_emulator.Common.{
  ℕ, ◌+◌, ◌≤◌, ◌<◌, ◌≡◌, subst, arith, List, [], ◌∷◌, All, inl, inr,
}
use simple_risc_v_emulator.Common.{get_elem?, some}
use simple_risc_v_emulator.Arena.{Arena}
use simple_risc_v_emulator.Elf.Segments.{SegmentHeader}
use simple_risc_v_emulator.Elf.Layout.{Fits, IsBefore, IsApart}
use simple_risc_v_emulator.Elf.Copy.{IsOutside}
use simple_risc_v_emulator.Elf.Mapped.{EndsBy, IsDataLoaded}
use simple_risc_v_emulator.Elf.Found.{In, All-In}

-- A byte of the list's segments lies behind the start of the first of them.
IsBefore-start :
    (h k : SegmentHeader) (hs : List SegmentHeader)
    → IsBefore h hs
    → In k hs
    → h.destination_start + h.destination_size ≤ k.destination_start
IsBefore-start h k hs before i =
    All-In (λ x. h.destination_start + h.destination_size ≤ x.destination_start) k hs before i

IsBefore-later :
    (offset j : ℕ) (h : SegmentHeader) (hs : List SegmentHeader)
    → j < offset + h.destination_start + h.destination_size
    → IsBefore h hs
    → All (IsOutside offset j) hs
IsBefore-later offset j h [] lt b = tt
IsBefore-later offset j h (x ∷ hs) lt b = (inl (omega arith), IsBefore-later offset j h hs lt b.1)

-- The part of a segment that the file does not have is touched by no copy.
pub padding-IsOutside :
    (offset j : ℕ) (h : SegmentHeader) (hs : List SegmentHeader)
    → All Fits hs
    → IsApart hs
    → In h hs
    → offset + h.destination_start + h.source_size ≤ j
    → j < offset + h.destination_start + h.destination_size
    → All (IsOutside offset j) hs
padding-IsOutside offset j h [] fits apart i low high = absurd i
padding-IsOutside offset j h (k ∷ hs) fits apart (inl e) low high =
    subst (λ k. IsBefore k hs → All (IsOutside offset j) (k ∷ hs)) e
      (λ before. (inr low, IsBefore-later offset j h hs high before)) apart.0
padding-IsOutside offset j h (k ∷ hs) fits apart (inr i) low high = (
  inr (omega (arith, fits.0, IsBefore-start k h hs apart.0 i)),
  padding-IsOutside offset j h hs fits.1 apart.1 i low high,
)

-- The bytes of each segment behind those that the file has are zero.
abbrev pub IsZeroFilled : List SegmentHeader → ℕ → List ℕ → Type 0
IsZeroFilled hs offset storage =
    (h : SegmentHeader)
    → In h hs
    → (i : ℕ) → h.source_size ≤ i
    → i < h.destination_size
    → get_elem? storage (offset + h.destination_start + i) ≡ some 0

pub IsDataLoaded-IsZeroFilled :
    (hs : List SegmentHeader) (source : List ℕ) (before after : Arena)
    (d : IsDataLoaded hs source before after)
    → All Fits hs
    → IsApart hs
    → IsZeroFilled hs d.offset after.storage
IsDataLoaded-IsZeroFilled hs source before after d fits apart h listed i low high =
    let j : ℕ = d.offset + h.destination_start + i in
    d.zero j (omega arith) (omega (arith, All-In (EndsBy d.total) h hs d.ends listed))
      (padding-IsOutside d.offset j h hs fits apart listed (omega arith) (omega arith))
