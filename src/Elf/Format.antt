-- ===== src/Elf/Format.antt =====
-- src/riscv/elf.cpp: what a file says, by the offsets and the numbers of the format ELF64 of
-- little-endian files. The loader is compared with these; none of them is its own code.
use simple_risc_v_emulator.Common.{ℕ, zero, suc, ◌+◌, ◌*◌, List, [], ◌∷◌, take, drop}
use simple_risc_v_emulator.Common.{Bool, bit_and, ◌==◌, ◌&&◌, not, if◌then◌else◌}
use simple_risc_v_emulator.Memory.{little_endian_value}
use simple_risc_v_emulator.Elf.Header.{ElfHeader}
use simple_risc_v_emulator.Elf.Segments.{SegmentHeader}

-- The number of `size` bytes at an offset of the file.
abbrev pub value_at : List ℕ → ℕ → ℕ → ℕ
value_at source offset size = little_endian_value (take size (drop offset source))

-- The header of the file.
abbrev pub header_at : List ℕ → ElfHeader
header_at source = record {
  magic = value_at source 0 4;
  elf_class = value_at source 4 1;
  data_encoding = value_at source 5 1;
  version = value_at source 6 1;
  os_abi = value_at source 7 1;
  type = value_at source 16 2;
  machine = value_at source 18 2;
  entry = value_at source 24 8;
  program_header_offset = value_at source 32 8;
  program_header_entry_size = value_at source 54 2;
  program_header_entry_count = value_at source 56 2;
}

-- The program header at an offset of the file.
abbrev pub segment_at : List ℕ → ℕ → SegmentHeader
segment_at source offset =
    let header : List ℕ = drop offset source in
    record {
      type = value_at header 0 4;
      flags = value_at header 4 4;
      source_start = value_at header 8 8;
      destination_start = value_at header 16 8;
      source_size = value_at header 32 8;
      destination_size = value_at header 40 8;
    }

-- The rows of the table of program headers, `rounds` of them from number `i` on.
abbrev pub rows_of : List ℕ → ℕ → ℕ → List SegmentHeader
rows_of source zero i = []
rows_of source (suc rounds) i =
    segment_at source (value_at source 32 8 + i * 56) ∷ rows_of source rounds (i + 1)

-- The segments of a list that a test chooses, in their order.
abbrev pub select : (SegmentHeader → Bool) → List SegmentHeader → List SegmentHeader
select chosen [] = []
select chosen (h ∷ hs) = let rest = select chosen hs in if chosen h then h ∷ rest else rest

-- To be loaded, and not executable; and to be loaded and executable.
abbrev pub is_data : SegmentHeader → Bool
is_data h =
    h.type == 1 && not (h.source_size == 0 && h.destination_size == 0) && bit_and h.flags 1 == 0

abbrev pub is_code : SegmentHeader → Bool
is_code h =
    h.type == 1
    && not (h.source_size == 0 && h.destination_size == 0)
    && not (bit_and h.flags 1 == 0)

-- The data segments and the code segments of a file, in the order of its table.
abbrev pub data_segments : List ℕ → List SegmentHeader
data_segments source = select is_data (rows_of source (value_at source 56 2) 0)

abbrev pub code_segments : List ℕ → List SegmentHeader
code_segments source = select is_code (rows_of source (value_at source 56 2) 0)
