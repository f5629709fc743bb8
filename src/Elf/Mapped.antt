-- ===== src/Elf/Mapped.antt =====
-- src/riscv/elf.cpp: `mapDataSegments` and `mapCodeSegments` on segments that the validations
-- have accepted.
use simple_risc_v_emulator.Common.{
  ℕ, ◌+◌, ◌-◌, ◌*◌, ◌^◌, ◌≤◌, ◌<◌, ◌≡◌, ◌∙◌, refl, sym, subst, arith,
}
use simple_risc_v_emulator.Common.{
  List, [], ◌∷◌, All, length, get_elem?, replicate, length-replicate,
}
use simple_risc_v_emulator.Common.{All-replicate, some}
use simple_risc_v_emulator.Common.{ltb, ◌⊎◌, inl, inr}
use simple_risc_v_emulator.Common.{Exception, ok, throw, ◌>>=◌, runtime_error, no_memory_for_data}
use simple_risc_v_emulator.Common.{bad_alloc, length_error, Bool-cases}
use simple_risc_v_emulator.Memory.Value.{IsByte}
use simple_risc_v_emulator.Arena.{Arena, allocate_array}
use simple_risc_v_emulator.Arena.Laws.{IsArena}
use simple_risc_v_emulator.Arena.Fill.{IsArray, allocate_array-cases}
use simple_risc_v_emulator.Instruction.Decode.{decode_instructions}
use simple_risc_v_emulator.Emulator.Syscalls.{Emulator, set_instructions}
use simple_risc_v_emulator.Elf.Segments.{SegmentHeader, destination_end}
use simple_risc_v_emulator.Elf.Layout.{IsUnwrapped, Fits, IsApart, destination_end-eq}
use simple_risc_v_emulator.Elf.Layout.Code.{IsImage, IsImage-IsApart, IsExact-Fits}
use simple_risc_v_emulator.Elf.Copy.{HasRoom, IsOutside, IsPresent, IsCopied, copy_segments_lem}
use simple_risc_v_emulator.Elf.Load.{
  Host, total_size, map_data_segments, make_vector, map_code_segments,
}

-- The segment ends within the first `total` bytes.
abbrev pub EndsBy : ℕ → SegmentHeader → Type 0
EndsBy total h = h.destination_start + h.destination_size ≤ total

-- The copied part stands in the file.
abbrev pub IsInFile : List ℕ → SegmentHeader → Type 0
IsInFile source h = h.source_start + h.source_size ≤ length source

total_size-ok :
    (h : SegmentHeader) (hs : List SegmentHeader)
    → All IsUnwrapped (h ∷ hs)
    → IsApart (h ∷ hs)
    → (total : ℕ) × (total_size (h ∷ hs) ≡ ok total)
      × (total < 2 ^ 64)
      × All (EndsBy total) (h ∷ hs)
unfolding total_size
total_size-ok h [] u apart = (
  destination_end h,
  refl,
  omega (arith, destination_end-eq h u.0, u.0.destination_lt),
  (omega (arith, destination_end-eq h u.0), tt),
)
total_size-ok h (k ∷ hs) u apart =
    let (total, e, lt, ends) = total_size-ok k hs u.1 apart.1 in
    (total, e, lt, (omega (arith, apart.0.0, ends.0), ends))

EndsBy-HasRoom :
    (source : List ℕ) (offset total storage_length : ℕ) (hs : List SegmentHeader)
    → offset + total ≤ storage_length
    → All Fits hs
    → All (IsInFile source) hs
    → All (EndsBy total) hs
    → All (HasRoom (length source) offset storage_length) hs
EndsBy-HasRoom source offset total n [] room fits files ends = tt
EndsBy-HasRoom source offset total n (h ∷ hs) room fits files ends = (
  record { source_le = files.0; destination_le = omega (arith, fits.0, ends.0) },
  EndsBy-HasRoom source offset total n hs room fits.1 files.1 ends.1,
)

EndsBy-IsOutside :
    (offset total j : ℕ) (hs : List SegmentHeader)
    → All Fits hs
    → All (EndsBy total) hs
    → (j < offset) ⊎ (offset + total ≤ j)
    → All (IsOutside offset j) hs
EndsBy-IsOutside offset total j [] fits ends o = tt
EndsBy-IsOutside offset total j (h ∷ hs) fits ends (inl lt) =
    (inl (omega arith), EndsBy-IsOutside offset total j hs fits.1 ends.1 (inl lt))
EndsBy-IsOutside offset total j (h ∷ hs) fits ends (inr le) =
    (inr (omega (arith, fits.0, ends.0)), EndsBy-IsOutside offset total j hs fits.1 ends.1 (inr le))

-- The storage of an arena after the data segments: a region of `total` bytes from `offset` on, in
-- what was free, holds the segments, and zeros between and behind them; all else is as before.
pub record IsDataLoaded (hs : List SegmentHeader) (source : List ℕ) (before after : Arena)
    : Type 0 where
  pub offset : ℕ
  pub total : ℕ
  pub arena : IsArena after
  pub same_length : length after.storage ≡ length before.storage
  pub start_at : offset + after.free_space ≡ length before.storage
  pub was_free : length before.storage ≤ offset + before.free_space
  pub inside : offset + total ≤ length before.storage
  pub ends : All (EndsBy total) hs
  pub present : All (IsPresent source offset after.storage) hs
  pub zero :
      (j : ℕ)
      → offset ≤ j
      → j < offset + total
      → All (IsOutside offset j) hs
      → get_elem? after.storage j ≡ some 0
  pub elsewhere :
      (j : ℕ)
      → (j < offset) ⊎ (offset + total ≤ j)
      → get_elem? after.storage j ≡ get_elem? before.storage j

IsDataLoaded-empty : (source : List ℕ) (a : Arena) → IsArena a → IsDataLoaded [] source a a
IsDataLoaded-empty source a v = record {
  offset = length a.storage - a.free_space;
  total = 0;
  arena = v;
  same_length = refl;
  start_at = omega (arith, v.free_le);
  was_free = omega arith;
  inside = omega arith;
  ends = tt;
  present = tt;
  zero = λ j low high o. absurd (omega arith);
  elsewhere = λ j o. refl;
}

IsDataLoaded-copied :
    (hs : List SegmentHeader) (source : List ℕ) (a : Arena) (total p left : ℕ) (s s' : List ℕ)
    → IsArena a
    → All Fits hs
    → All (EndsBy total) hs
    → IsArray total 1 a p left s
    → IsCopied hs source (p - a.base) s s'
    → IsDataLoaded hs source a (record a { free_space = left; storage = s' })
IsDataLoaded-copied hs source a total p left s s' v fits ends r c = record {
  offset = p - a.base;
  total = total;
  arena = record {
    free_le = omega (arith, r.arena.free_le, c.same_length);
    size_lt = omega (arith, r.arena.size_lt, c.same_length);
  };
  same_length = c.same_length ∙ r.zeroed.same_length;
  start_at = omega (arith, r.above, r.left_at, v.free_le);
  was_free = omega (arith, r.above, v.free_le);
  inside = omega (arith, r.above, r.inside);
  ends = ends;
  present = c.present;
  zero = λ j low high o. c.elsewhere j o ∙ ground (arith, r.zeroed.bytes j);
  elsewhere = λ j o.
      c.elsewhere j (EndsBy-IsOutside (p - a.base) total j hs fits ends o)
      ∙ ground (arith, r.zeroed.bytes j);
}

module _ {ℓ} {H : Type ℓ} where
  pub map_data_segments-cases :
      (hs : List SegmentHeader) (source : List ℕ) (e : Emulator H)
      → IsArena e.memory
      → All IsUnwrapped hs
      → All (IsInFile source) hs
      → All Fits hs
      → IsApart hs
      → ((total : ℕ) × (total_size hs ≡ ok total)
          × (allocate_array 1 1 total e.memory ≡ throw bad_alloc)
          × (map_data_segments hs source e ≡ throw (runtime_error no_memory_for_data)))
        ⊎ ((memory : Arena) × (map_data_segments hs source e ≡ ok (record e { memory = memory }))
            × IsDataLoaded hs source e.memory memory)
  unfolding map_data_segments
  map_data_segments-cases [] source e v u files fits apart =
      inr (e.memory, refl, IsDataLoaded-empty source e.memory v)
  map_data_segments-cases (h ∷ hs) source e v u files fits apart =
      let (total, size, lt, ends) = total_size-ok h hs u apart in
      elim (allocate_array-cases 1 1 total e.memory v (omega arith) (omega arith)) [
        | inl full ↦ inl (total, size, full, rw (size, full))
        | inr got ↦
            let (p, left, s, allocated, array) = got in
            let one : 1 * total ≡ total = omega arith in
            let r : IsArray total 1 e.memory p left s =
              subst (λ (n : ℕ). IsArray n 1 e.memory p left s) one array in
            let filled : Arena = record e.memory { free_space = left; storage = s } in
            let (s', copied, c) =
              copy_segments_lem (h ∷ hs) source p filled (omega (arith, r.above))
                (EndsBy-HasRoom source (p - e.memory.base) total (length s) (h ∷ hs)
                  (omega (arith, r.above, r.inside, r.zeroed.same_length)) fits files ends)
                fits apart in
            inr (
              record e.memory { free_space = left; storage = s' },
              rw (size, allocated, copied),
              IsDataLoaded-copied (h ∷ hs) source e.memory total p left s s' v fits ends r c,
            )
      ]

  -- The vector of the code: the segments in one piece, every byte of the file's.
  pub map_code_segments-cases :
      (host : Host) (hs : List SegmentHeader) (source : List ℕ) (e : Emulator H)
      → All IsByte source
      → All IsUnwrapped hs
      → All (IsInFile source) hs
      → IsImage hs
      → ((x : Exception) × (total : ℕ) × (total_size hs ≡ ok total)
          × (make_vector host.vector_limit total ≡ throw x)
          × (map_code_segments host hs source e ≡ throw x))
        ⊎ ((image : List ℕ) × (map_code_segments host hs source e ≡ (
              decode_instructions host.native image >>= λ instructions.
              ok (set_instructions instructions e)))
            × (total_size hs ≡ ok (length image))
            × All IsByte image
            × All (EndsBy (length image)) hs
            × All (IsPresent source 0 image) hs)
  unfolding map_code_segments
  map_code_segments-cases host [] source e bytes u files image = absurd image
  map_code_segments-cases host (h ∷ hs) source e bytes u files image =
      let apart : IsApart (h ∷ hs) = IsImage-IsApart (h ∷ hs) image in
      let fits : All Fits (h ∷ hs) = IsExact-Fits (h ∷ hs) image.0 in
      let (total, size, lt, ends) = total_size-ok h hs u apart in
      let zeros : List ℕ = replicate total 0 in
      let long : length zeros ≡ total = length-replicate {A = ℕ} total 0 in
      let start : Arena = record { base = 0; storage = zeros; free_space = 0 } in
      let (s, copied, c) =
        copy_segments_lem (h ∷ hs) source 0 start (omega arith)
          (EndsBy-HasRoom source 0 total (length zeros) (h ∷ hs) (omega (arith, long)) fits files
            ends)
          fits apart in
      let whole : length s ≡ total = c.same_length ∙ long in
      elim (Bool-cases (ltb total (2 ^ 63))) [
        | inr e63 ↦ inl (length_error, total, size, rw e63, rw (size, e63))
        | inl e63 ↦ elim (Bool-cases (ltb host.vector_limit total)) [
          | inl over ↦ inl (bad_alloc, total, size, rw (e63, over), rw (size, e63, over))
          | inr within ↦ inr (
            s,
            rw (size, e63, within, copied),
            subst (λ (n : ℕ). total_size (h ∷ hs) ≡ ok n) (sym whole) size,
            c.all_bytes (All-replicate IsByte total 0 (omega arith)) bytes,
            subst (λ (n : ℕ). All (EndsBy n) (h ∷ hs)) (sym whole) ends,
            c.present,
          )
        ]
      ]
