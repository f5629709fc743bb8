-- ===== src/Elf/Correct/Proof.antt =====
-- src/riscv/elf.cpp: `loadElf` step by step.
use simple_risc_v_emulator.Common.{ℕ, ◌+◌, ◌*◌, ◌%◌, ◌^◌, ◌≤◌, ◌<◌, ◌≡◌, refl, subst, arith}
use simple_risc_v_emulator.Common.{List, All, length, inl, inr}
use simple_risc_v_emulator.Common.{Result, ok, ◌>>=◌, ◌>>◌}
use simple_risc_v_emulator.Memory.Value.{IsByte}
use simple_risc_v_emulator.Arena.{Arena}
use simple_risc_v_emulator.Arena.Laws.{IsArena}
use simple_risc_v_emulator.Instruction.Decode.{decode_instructions}
use simple_risc_v_emulator.Emulator.Syscalls.{Emulator, set_instructions}
use simple_risc_v_emulator.Emulator.WellFormed.{IsRunnable}
use simple_risc_v_emulator.Emulator.Decoded.Program.{decode_instructions-IsRunnable}
use simple_risc_v_emulator.Elf.Segments.{Headers, read_segment_headers}
use simple_risc_v_emulator.Elf.Sort.{IsSorted}
use simple_risc_v_emulator.Elf.Validate.{validate_data_headers, validate_code_headers}
use simple_risc_v_emulator.Elf.Load.{Host, map_data_segments, map_code_segments, load_elf}
use simple_risc_v_emulator.Elf.Layout.{Fits, IsApart, validate_data_headers_lem}
use simple_risc_v_emulator.Elf.Layout.Code.{IsImage, validate_code_headers_lem}
use simple_risc_v_emulator.Elf.Mapped.{
  IsDataLoaded, map_data_segments-cases, map_code_segments-cases,
}
use simple_risc_v_emulator.Elf.Valid.{IsValid, read_elf_header_lem}
use simple_risc_v_emulator.Elf.Padding.{IsDataLoaded-IsZeroFilled}
use simple_risc_v_emulator.Elf.Ends.{Ends, Ends-bind, Ends-weaken, Gives-Ends}
use simple_risc_v_emulator.Elf.Found.{IfOk, Rows, IsSound, IsListed, IsFound, IsBadRow}
use simple_risc_v_emulator.Elf.Found.Loop.{read_segment_headers-IsFound}
use simple_risc_v_emulator.Common.{ap}
use simple_risc_v_emulator.Elf.Format.{value_at, header_at}
use simple_risc_v_emulator.Elf.Reading.{load_header-header_at}
use simple_risc_v_emulator.Elf.Found.Chosen.{read_segment_headers-segments}
use simple_risc_v_emulator.Elf.Correct.Sorted.{sort_both, sort_both-IsListed, sort_both-IsFound}
use simple_risc_v_emulator.Elf.Correct.{IsUnwrappedFile, IsTable, Refusal, IsLoaded}

-- The outcomes of `loadElf` on a given file.
abbrev IsOutcome : {H : Type 0} → Host → List ℕ → Emulator H → Result (Emulator H) → Type 0
IsOutcome host source e = Ends (IsLoaded host source e) (Refusal host source e.memory)

module _ {H : Type 0} (host : Host) (source : List ℕ) (bytes : All IsByte source) (e : Emulator H)
    (v : IsArena e.memory) where
  -- The code, when the data segments are in place.
  module _ (hs : Headers) (t : IsTable host source hs) (fits : All Fits hs.data_headers)
      (apart : IsApart hs.data_headers) (layout : IsImage hs.code_headers) where
    code-IsOutcome :
        (memory : Arena)
        → IsDataLoaded hs.data_headers source e.memory memory
        → IsOutcome host source e
            (map_code_segments host hs.code_headers source (record e { memory = memory }))
    unfolding set_instructions
    code-IsOutcome memory placed =
        elim (map_code_segments-cases host hs.code_headers source (record e { memory = memory })
          bytes t.found.code_sound t.found.code_in_file layout) [
            | inl (x, total, size, refused, thrown) ↦
                rw thrown (Refusal.no_vector hs total x t size refused)
            | inr (image, mapped, size, image_bytes, ends, present) ↦ rw mapped (
                Ends-bind
                  (λ instrs.
                    (decode_instructions host.native image ≡ ok instrs) × All IsRunnable instrs)
                  (IsLoaded host source e) (Refusal host source e.memory)
                  (decode_instructions host.native image) _
                  (Gives-Ends (All IsRunnable) (Refusal host source e.memory)
                    (decode_instructions host.native image)
                    (decode_instructions-IsRunnable host.native image image_bytes)
                    (λ x thrown. Refusal.undecodable hs image x t layout size present thrown))
                  (λ instrs eq decoded. record {
                    headers = hs;
                    table = t;
                    data_fits = fits;
                    data_apart = apart;
                    data_loaded = placed;
                    zero_filled =
                        IsDataLoaded-IsZeroFilled hs.data_headers source e.memory memory placed fits
                          apart;
                    code_layout = layout;
                    image = image;
                    image_size = size;
                    image_bytes = image_bytes;
                    image_ends = ends;
                    image_present = present;
                    decoded = decoded.0;
                    runnable = decoded.1;
                    same_handlers = refl;
                  }))
          ]

    data_and_code-IsOutcome : IsOutcome host source e (
        map_data_segments hs.data_headers source e >>= λ e'.
        map_code_segments host hs.code_headers source e')
    data_and_code-IsOutcome =
        elim (map_data_segments-cases hs.data_headers source e v t.found.data_sound
          t.found.data_in_file fits apart) [
            | inl (total, size, full, thrown) ↦ rw thrown (Refusal.no_memory hs total t size full)
            | inr (memory, mapped, placed) ↦ rw mapped (code-IsOutcome memory placed)
          ]

  -- From the validations on.
  validated-IsOutcome :
      (hs : Headers)
      → IsTable host source hs
      → IsSorted hs.data_headers
      → IsOutcome host source e (do
        validate_data_headers hs.data_headers
        validate_code_headers hs.code_headers
        e' ← map_data_segments hs.data_headers source e
        map_code_segments host hs.code_headers source e')
  validated-IsOutcome hs t s =
      elim (validate_data_headers_lem hs.data_headers s t.found.data_sound) [
        | inr (inl (thrown, bad)) ↦ rw thrown (Refusal.truncated hs t bad)
        | inr (inr (thrown, fits, bad)) ↦ rw thrown (Refusal.overlapping hs t fits bad)
        | inl (accepted, fits, apart) ↦
            elim (validate_code_headers_lem hs.code_headers t.found.code_sound) [
              | inr ((m, thrown), bad) ↦ rw (accepted, thrown) (Refusal.bad_code hs m t bad)
              | inl (accepted', layout) ↦
                  rw (accepted, accepted') (data_and_code-IsOutcome hs t fits apart layout)
            ]
      ]

  -- What the reading of the segment headers establishes.
  abbrev IsTabled : Headers → Type 0
  IsTabled hs =
      IsFound host.native (header_at source) source hs
      × Rows (IsListed hs) host.native (header_at source) source (value_at source 56 2) 0

  -- From the reading of the segment headers on.
  segments-IsOutcome :
      IsValid source (header_at source)
      → value_at source 32 8 + value_at source 56 2 * value_at source 54 2 < 2 ^ 64
      → Rows IsSound host.native (header_at source) source (value_at source 56 2) 0
      → IsOutcome host source e (do
        headers ← read_segment_headers host.native (header_at source) source
        let data_headers = host.sort_headers.sort headers.data_headers
        let code_headers = host.sort_headers.sort headers.code_headers
        validate_data_headers data_headers
        validate_code_headers code_headers
        e' ← map_data_segments data_headers source e
        map_code_segments host code_headers source e')
  segments-IsOutcome valid lt sound =
      let size : value_at source 54 2 ≡ 56 = valid.entry_size in
      let table : value_at source 32 8 + value_at source 56 2 * 56 < 2 ^ 64 =
        subst (λ (n : ℕ). value_at source 32 8 + value_at source 56 2 * n < 2 ^ 64) size lt in
      let end : (value_at source 32 8 + value_at source 56 2 * 56 % 2 ^ 64) % 2 ^ 64
          ≤ length source =
        subst
          (λ (n : ℕ).
            (value_at source 32 8 + value_at source 56 2 * n % 2 ^ 64) % 2 ^ 64 ≤ length source)
          size valid.table_le in
      let inside : value_at source 32 8 + value_at source 56 2 * 56 ≤ length source = omega arith in
      Ends-bind IsTabled (IsLoaded host source e) (Refusal host source e.memory)
        (read_segment_headers host.native (header_at source) source) _
        (Ends-weaken IsTabled IsTabled (IsBadRow host.native (header_at source) source)
          (Refusal host source e.memory)
          (read_segment_headers host.native (header_at source) source) (λ hs found. found)
          (λ x bad. Refusal.out_of_file x valid bad)
          (read_segment_headers-IsFound host.native (header_at source) source bytes size table
            inside sound))
        (λ hs eq found.
          let (data_rows, code_rows) =
            read_segment_headers-segments host.native source bytes size hs table inside eq in
          validated-IsOutcome (sort_both host.sort_headers hs)
            (record {
              valid = valid;
              data_sorted = ap host.sort_headers.sort data_rows;
              code_sorted = ap host.sort_headers.sort code_rows;
              listed =
                  sort_both-IsListed host.sort_headers host.native source (header_at source) hs
                    (value_at source 56 2) found.1;
              found =
                  sort_both-IsFound host.sort_headers host.native source (header_at source) hs
                    found.0;
            })
            (host.sort_headers.sorted hs.data_headers))

  -- On a file of bytes whose table and loadable segments end at numbers of 64 bits, on every host
  -- and with a well-formed arena, `loadElf` is never undefined. When it returns, the header at the
  -- offsets of the format ELF64 is valid, and the data segments and the code segments are the
  -- loadable rows of the table at those offsets, each list as the host sorts it by the addresses;
  -- every data segment stands in a region of the emulator's memory that was free, followed by zeros
  -- up to its size in memory, and memory is unchanged outside the region; the code segments cover,
  -- from address zero and without gaps, an image of just their size, and the instructions, all of
  -- them runnable, are those that decode from it; the handlers are as before. When it throws, one of
  -- nine defects is there for which that is thrown: the file is shorter than a header; its
  -- header is not valid; a loadable row reaches out of the file; a data segment is smaller in
  -- memory than in the file; two data segments overlap; the code segments are not such an image;
  -- the arena has no room for the data, or the host for the code; or the bytes of the image do not
  -- decode. Which message a `std::runtime_error` has for the second and the sixth is not stated.
  pub load_elf-IsLoaded :
      IsUnwrappedFile host.native source
      → Ends (IsLoaded host source e) (Refusal host source e.memory) (load_elf host source e)
  unfolding load_elf
  load_elf-IsLoaded unwrapped = elim (read_elf_header_lem host.native source bytes) [
    | inl (short, thrown) ↦ rw thrown (Refusal.too_small short)
    | inr (long, inr ((m, thrown), bad)) ↦ rw thrown (Refusal.invalid_header m long bad)
    | inr (long, inl (accepted, valid)) ↦
        let (lt, sound) =
          subst (IfOk _) (load_header-header_at host.native source bytes long) unwrapped in
        rw accepted (segments-IsOutcome valid lt sound)
  ]
