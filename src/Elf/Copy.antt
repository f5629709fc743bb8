-- ===== src/Elf/Copy.antt =====
-- src/riscv/elf.cpp: `copySegments`, byte by byte.
use simple_risc_v_emulator.Common.{
  ℕ, zero, suc, ◌+◌, ◌-◌, ◌≤◌, ◌<◌, ◌≡◌, ◌∙◌, ap, refl, sym, subst, arith, List, [], ◌∷◌, All,
}
use simple_risc_v_emulator.Common.{length, get_elem?, take, drop, length-take, length-drop}
use simple_risc_v_emulator.Common.{ltb-false, ok, ◌⊎◌, inl}
use simple_risc_v_emulator.Common.{All-take, All-drop}
use simple_risc_v_emulator.Memory.Value.{IsByte}
use simple_risc_v_emulator.Arena.{Arena}
use simple_risc_v_emulator.Arena.Write.{
  IsWritten, IsWritten-inside, IsWritten-outside, write_at-IsWritten,
}
use simple_risc_v_emulator.Elf.Segments.{SegmentHeader}
use simple_risc_v_emulator.Elf.Layout.{Fits, IsBefore, IsApart}
use simple_risc_v_emulator.Elf.Load.{read_bytes, copy_segments}

-- The copy reads within the file, and writes within the storage behind `offset`.
pub record HasRoom (source_length offset storage_length : ℕ) (h : SegmentHeader) : Type 0 where
  pub source_le : h.source_start + h.source_size ≤ source_length
  pub destination_le : offset + h.destination_start + h.source_size ≤ storage_length

-- The byte `j` of the storage belongs to no copied part.
abbrev pub IsOutside : ℕ → ℕ → SegmentHeader → Type 0
IsOutside offset j h =
    (j < offset + h.destination_start) ⊎ (offset + h.destination_start + h.source_size ≤ j)

-- The bytes of the segment stand in the storage.
abbrev pub IsPresent : List ℕ → ℕ → List ℕ → SegmentHeader → Type 0
IsPresent source offset storage h =
    (i : ℕ)
    → i < h.source_size
    → get_elem? storage (offset + h.destination_start + i) ≡ get_elem? source (h.source_start + i)

-- All segments have been copied, and nothing else has changed.
pub record IsCopied (hs : List SegmentHeader) (source : List ℕ) (offset : ℕ) (before after : List ℕ)
    : Type 0 where
  pub same_length : length after ≡ length before
  pub present : All (IsPresent source offset after) hs
  pub elsewhere : (j : ℕ) → All (IsOutside offset j) hs → get_elem? after j ≡ get_elem? before j
  pub all_bytes : All IsByte before → All IsByte source → All IsByte after

get_elem?-drop : (n i : ℕ) (s : List ℕ) → get_elem? (drop n s) i ≡ get_elem? s (n + i)
get_elem?-drop zero i s = ap (λ (k : ℕ). get_elem? s k) (omega arith)
get_elem?-drop (suc n) i [] = refl
get_elem?-drop (suc n) i (x ∷ s) = get_elem?-drop n i s ∙ ap (λ (k : ℕ). get_elem? (x ∷ s) k) sum
  where
    sum : suc (n + i) ≡ suc n + i
    sum = omega arith

get_elem?-take : (n i : ℕ) (s : List ℕ) → i < n → get_elem? (take n s) i ≡ get_elem? s i
get_elem?-take zero i s h = elim h [ ]
get_elem?-take (suc n) i [] h = refl
get_elem?-take (suc n) zero (x ∷ s) h = refl
get_elem?-take (suc n) (suc i) (x ∷ s) h = get_elem?-take n i s (omega arith)

read_bytes-ok :
    (source : List ℕ) (start size : ℕ)
    → start + size ≤ length source
    → (bytes : List ℕ) × (read_bytes source start size ≡ ok bytes)
      × (length bytes ≡ size)
      × ((i : ℕ) → i < size → get_elem? bytes i ≡ get_elem? source (start + i))
      × (All IsByte source → All IsByte bytes)
unfolding read_bytes
read_bytes-ok source start size h = (
  take size (drop start source),
  rw (ltb-false (length source) (start + size) h),
  length-take size (drop start source) (omega (arith, length-drop start source)),
  λ i inside. get_elem?-take size i (drop start source) inside ∙ get_elem?-drop start i source,
  λ all. All-take IsByte size (drop start source) (All-drop IsByte start source all),
)

-- A byte of the first segment lies outside those behind it.
IsBefore-IsOutside :
    (offset j : ℕ) (h : SegmentHeader) (hs : List SegmentHeader)
    → j < offset + h.destination_start + h.destination_size
    → IsBefore h hs
    → All (IsOutside offset j) hs
IsBefore-IsOutside offset j h [] lt b = tt
IsBefore-IsOutside offset j h (x ∷ hs) lt b =
    (inl (omega arith), IsBefore-IsOutside offset j h hs lt b.1)

HasRoom-length :
    (n offset m m' : ℕ) (hs : List SegmentHeader)
    → m' ≡ m
    → All (HasRoom n offset m) hs
    → All (HasRoom n offset m') hs
HasRoom-length n offset m m' hs e r = subst (λ (k : ℕ). All (HasRoom n offset k) hs) (sym e) r

-- The first segment, and then the others.
IsCopied-cons :
    (h : SegmentHeader) (hs : List SegmentHeader) (source bytes : List ℕ) (offset : ℕ)
    (before middle after : List ℕ)
    → Fits h
    → IsBefore h hs
    → length bytes ≡ h.source_size
    → ((i : ℕ) → i < h.source_size → get_elem? bytes i ≡ get_elem? source (h.source_start + i))
    → (All IsByte source → All IsByte bytes)
    → IsWritten (offset + h.destination_start) bytes before middle
    → IsCopied hs source offset middle after
    → IsCopied (h ∷ hs) source offset before after
IsCopied-cons h hs source bytes offset before middle after fits first size content new_bytes w c =
    record {
      same_length = c.same_length ∙ w.same_length;
      present = (
        λ i inside.
            c.elsewhere (offset + h.destination_start + i) (
              IsBefore-IsOutside offset (offset + h.destination_start + i) h hs
                (omega (arith, fits, inside)) first)
            ∙ IsWritten-inside w i (omega (arith, inside, size))
            ∙ content i inside,
        c.present,
      );
      elsewhere = λ j outside.
          c.elsewhere j outside.1
          ∙ IsWritten-outside w j (
              subst
                (λ (n : ℕ).
                  (j < offset + h.destination_start) ⊎ (offset + h.destination_start + n ≤ j))
                (sym size) outside.0);
      all_bytes = λ old new. c.all_bytes (w.all_bytes old (new_bytes new)) new;
    }

-- Segments that lie apart and have room are copied without undefined behaviour, and each is then
-- in the storage as it stands in the file.
pub copy_segments_lem :
    (hs : List SegmentHeader) (source : List ℕ) (destination : ℕ) (a : Arena)
    → a.base ≤ destination
    → All (HasRoom (length source) (destination - a.base) (length a.storage)) hs
    → All Fits hs
    → IsApart hs
    → (s : List ℕ) × (copy_segments hs source destination a ≡ ok (record a { storage = s }))
      × IsCopied hs source (destination - a.base) a.storage s
unfolding copy_segments
copy_segments_lem [] source destination a low room fits apart = (
  a.storage,
  refl,
  record { same_length = refl; present = tt; elsewhere = λ j o. refl; all_bytes = λ old new. old },
)
copy_segments_lem (h ∷ hs) source destination a low room fits apart =
    let offset : ℕ = destination - a.base in
    let start : ℕ = destination + h.destination_start in
    let (bytes, read, size, content, new_bytes) =
      read_bytes-ok source h.source_start h.source_size room.0.source_le in
    let (s, written, w) =
      write_at-IsWritten a start bytes (omega arith)
        (omega (arith, size, low, room.0.destination_le)) in
    let next : Arena = record a { storage = s } in
    let (s', copied, c) =
      copy_segments_lem hs source destination next low
        (HasRoom-length (length source) offset (length a.storage) (length s) hs w.same_length
          room.1)
        fits.1 apart.1 in
    let at : start - a.base ≡ offset + h.destination_start = omega (arith, low) in
    (
      s',
      rw (read, written) copied,
      IsCopied-cons h hs source bytes offset a.storage s s' fits.0 apart.0 size content new_bytes
          (subst (λ (n : ℕ). IsWritten n bytes a.storage s) at w) c,
    )
