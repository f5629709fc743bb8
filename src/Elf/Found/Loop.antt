-- ===== src/Elf/Found/Loop.antt =====
-- src/riscv/elf.cpp: the loop of `readSegmentHeaders`.
use simple_risc_v_emulator.Common.{
  ℕ, zero, suc, ◌+◌, ◌*◌, ◌^◌, ◌≤◌, ◌<◌, ◌≡◌, sym, subst, ap, arith,
}
use simple_risc_v_emulator.Common.{List, [], All, length}
use simple_risc_v_emulator.Memory.{Endian}
use simple_risc_v_emulator.Memory.Value.{IsByte}
use simple_risc_v_emulator.Elf.Ends.{Ends, Ends-bind, Ends-weaken}
use simple_risc_v_emulator.Elf.Header.{ElfHeader}
use simple_risc_v_emulator.Elf.Segments.{
  Headers, classify, entry_offset, read_segments, read_segment_headers,
}
use simple_risc_v_emulator.Elf.Reading.{read_segment_header-segment_at}
use simple_risc_v_emulator.Common.{◌≡◌, ok}
use simple_risc_v_emulator.Elf.Format.{segment_at}
use simple_risc_v_emulator.Elf.Segments.{SegmentHeader, read_segment_header}
use simple_risc_v_emulator.Elf.Found.{
  IfOk, Rows, IsSound, IsListed, IsFound, IsExtended, IsBadRow, IsExtended-refl, IsExtended-trans,
  IsExtended-IsListed,
}
use simple_risc_v_emulator.Elf.Found.Round.{Classified, classify-Classified}

-- What the loop establishes for the rows that it has left.
abbrev Collected : Endian → ElfHeader → List ℕ → ℕ → ℕ → Headers → Headers → Type 0
Collected native elf source rounds i before after =
    IsFound native elf source after
    × IsExtended before after
    × Rows (IsListed after) native elf source rounds i

-- And it lies in the file.
entry_offset-le :
    (elf : ElfHeader) (i n : ℕ)
    → elf.program_header_entry_size ≡ 56
    → elf.program_header_offset + (i + 1) * 56 < 2 ^ 64
    → elf.program_header_offset + (i + 1) * 56 ≤ n
    → entry_offset elf i + 56 ≤ n
entry_offset-le elf i n size lt le = rw size (omega arith)

-- A row of a table that does not wrap around lies where it is expected.
pub entry_offset-eq :
    (elf : ElfHeader) (i : ℕ)
    → elf.program_header_entry_size ≡ 56
    → elf.program_header_offset + (i + 1) * 56 < 2 ^ 64
    → entry_offset elf i ≡ elf.program_header_offset + i * 56
entry_offset-eq elf i size lt = rw size (omega arith)

read_segments-Collected :
    (native : Endian) (elf : ElfHeader) (source : List ℕ) (rounds i : ℕ) (hs : Headers)
    → All IsByte source
    → elf.program_header_entry_size ≡ 56
    → i + rounds ≤ elf.program_header_entry_count
    → elf.program_header_offset + (i + rounds) * 56 < 2 ^ 64
    → elf.program_header_offset + (i + rounds) * 56 ≤ length source
    → Rows IsSound native elf source rounds i
    → IsFound native elf source hs
    → Ends
        (Collected native elf source rounds i hs)
        (IsBadRow native elf source)
        (read_segments native elf source rounds i hs)
unfolding read_segments
read_segments-Collected native elf source zero i hs bytes size count lt le rows found =
    (found, IsExtended-refl hs, tt)
read_segments-Collected native elf source (suc rounds) i hs bytes size count lt le rows found =
    let h : SegmentHeader = segment_at source (entry_offset elf i) in
    let read : read_segment_header native source (entry_offset elf i) ≡ ok h =
      read_segment_header-segment_at native source (entry_offset elf i) bytes
        (entry_offset-le elf i (length source) size (omega arith) (omega arith)) in
    let sound : IsSound h = subst (IfOk IsSound) read rows.0 in
    rw read (
      Ends-bind (Classified native elf source h hs) (Collected native elf source (suc rounds) i hs)
        (IsBadRow native elf source) (classify source h hs) _
        (classify-Classified native elf source h hs i (omega arith)
          (ap (segment_at source) (entry_offset-eq elf i size (omega arith))) sound found)
        (λ next e classified.
          Ends-weaken (Collected native elf source rounds (i + 1) next)
            (Collected native elf source (suc rounds) i hs) (IsBadRow native elf source)
            (IsBadRow native elf source) (read_segments native elf source rounds (i + 1) next)
            (λ after rest. (
              rest.0,
              IsExtended-trans hs next after classified.1 rest.1,
              (
                subst (IfOk (IsListed after)) (sym read)
                    (IsExtended-IsListed next after h rest.1 classified.2),
                rest.2,
              ),
            ))
            (λ x bad. bad)
            (read_segments-Collected native elf source rounds (i + 1) next bytes size (omega arith)
              (omega arith) (omega arith) rows.1 classified.0)))

-- Segments listed from an empty start.
pub read_segment_headers-IsFound :
    (native : Endian) (elf : ElfHeader) (source : List ℕ)
    → All IsByte source
    → elf.program_header_entry_size ≡ 56
    → elf.program_header_offset + elf.program_header_entry_count * 56 < 2 ^ 64
    → elf.program_header_offset + elf.program_header_entry_count * 56 ≤ length source
    → Rows IsSound native elf source elf.program_header_entry_count 0
    → Ends
        (λ hs.
          IsFound native elf source hs
          × Rows (IsListed hs) native elf source elf.program_header_entry_count 0)
        (IsBadRow native elf source)
        (read_segment_headers native elf source)
unfolding read_segment_headers
read_segment_headers-IsFound native elf source bytes size lt le rows =
    let none_found : Headers = record { data_headers = []; code_headers = [] } in
    Ends-weaken (Collected native elf source elf.program_header_entry_count 0 none_found) _
      (IsBadRow native elf source) (IsBadRow native elf source) _ (λ after c. (c.0, c.2))
      (λ x bad. bad)
      (read_segments-Collected native elf source elf.program_header_entry_count 0 none_found bytes
        size (omega arith) (omega arith) (omega arith) rows
        (record {
          data_rows = tt;
          code_rows = tt;
          data_sound = tt;
          code_sound = tt;
          data_in_file = tt;
          code_in_file = tt;
        }))
