-- ===== src/Elf/Segments.antt =====
-- src/riscv/elf.cpp: `SegmentHeader` and `readSegmentHeaders`.
use simple_risc_v_emulator.Common.{ℕ, zero, suc, ◌+◌, ◌*◌, ◌%◌, ◌^◌, bit_and, List, [], ◌∷◌, ◌++◌}
use simple_risc_v_emulator.Common.{length, drop, ltb, ◌==◌, if◌then◌else◌, not, ◌&&◌}
use simple_risc_v_emulator.Common.{Result, ok, throw, ◌>>=◌, runtime_error, segment_out_of_bounds}
use simple_risc_v_emulator.Memory.{Endian, load_u32, load_u64}
use simple_risc_v_emulator.Elf.Header.{ElfHeader}

pub record SegmentHeader : Type 0 where
  pub type : ℕ
  pub flags : ℕ
  pub source_start : ℕ
  pub destination_start : ℕ
  pub source_size : ℕ
  pub destination_size : ℕ

abbrev pub type_load : ℕ
type_load = 1

abbrev pub flag_executable : ℕ
flag_executable = 1

unfoldable pub source_end : SegmentHeader → ℕ
source_end h = (h.source_start + h.source_size) % 2 ^ 64

unfoldable pub destination_end : SegmentHeader → ℕ
destination_end h = (h.destination_start + h.destination_size) % 2 ^ 64

-- `SegmentHeader::read`
unfoldable pub read_segment_header : Endian → List ℕ → ℕ → Result SegmentHeader
read_segment_header native source offset = do
  let header = drop offset source
  type ← load_u32 native (drop 0 header)
  flags ← load_u32 native (drop 4 header)
  source_start ← load_u64 native (drop 8 header)
  destination_start ← load_u64 native (drop 16 header)
  source_size ← load_u64 native (drop 32 header)
  destination_size ← load_u64 native (drop 40 header)
  ok (record {
    type = type;
    flags = flags;
    source_start = source_start;
    destination_start = destination_start;
    source_size = source_size;
    destination_size = destination_size;
  })

-- The two vectors that `readSegmentHeaders` fills.
pub record Headers : Type 0 where
  pub data_headers : List SegmentHeader
  pub code_headers : List SegmentHeader

-- The body of the loop behind the read, with its two `continue`s.
unfoldable pub classify : List ℕ → SegmentHeader → Headers → Result Headers
unfolding source_end
classify source h headers =
    if not (h.type == type_load)
    then ok headers
    else if h.source_size == 0 && h.destination_size == 0
    then ok headers
    else if ltb (length source) (source_end h)
    then throw (runtime_error segment_out_of_bounds)
    else if not (bit_and h.flags flag_executable == 0)
    then ok (record headers { code_headers = headers.code_headers ++ (h ∷ []) })
    else ok (record headers { data_headers = headers.data_headers ++ (h ∷ []) })

-- `elfHeader.programHeaderOffset + i * elfHeader.programHeaderEntrySize`
abbrev pub entry_offset : ElfHeader → ℕ → ℕ
entry_offset elf i =
    (elf.program_header_offset + i * elf.program_header_entry_size % 2 ^ 64) % 2 ^ 64

-- The rounds of the loop that are left, from `i` on.
unfoldable pub read_segments : Endian → ElfHeader → List ℕ → ℕ → ℕ → Headers → Result Headers
read_segments native elf source zero i headers = ok headers
read_segments native elf source (suc rounds) i headers = do
  h ← read_segment_header native source (entry_offset elf i)
  headers' ← classify source h headers
  read_segments native elf source rounds (i + 1) headers'

unfoldable pub read_segment_headers : Endian → ElfHeader → List ℕ → Result Headers
unfolding read_segments
read_segment_headers native elf source =
    read_segments native elf source elf.program_header_entry_count 0
      (record { data_headers = []; code_headers = [] })
