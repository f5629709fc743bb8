-- ===== src/Elf/Header.antt =====
-- src/riscv/elf.cpp: `ElfHeader`.
use simple_risc_v_emulator.Common.{ℕ, ◌+◌, ◌*◌, ◌%◌, ◌^◌, List, length, drop, ltb, ◌==◌}
use simple_risc_v_emulator.Common.{not, ◌&&◌}
use simple_risc_v_emulator.Common.{Result, ok, ◌>>=◌, ◌>>◌, throw_if, runtime_error}
use simple_risc_v_emulator.Common.{
  elf_file_too_small, invalid_elf_header, entry_not_zero, program_headers_out_of_bounds,
}
use simple_risc_v_emulator.Memory.{Endian, load_u16, load_u32, load_u64, read_byte}

-- `data` is a word of the language, so the field has the name that the format gives it.
pub record ElfHeader : Type 0 where
  pub magic : ℕ
  pub elf_class : ℕ
  pub data_encoding : ℕ
  pub version : ℕ
  pub os_abi : ℕ
  pub type : ℕ
  pub machine : ℕ
  pub entry : ℕ
  pub program_header_offset : ℕ
  pub program_header_entry_size : ℕ
  pub program_header_entry_count : ℕ

abbrev pub elf_header_size : ℕ
elf_header_size = 64

abbrev pub elf_magic : ℕ
elf_magic = 0x464c457f

abbrev pub elf_class64 : ℕ
elf_class64 = 2

abbrev pub elf_data_little_endian : ℕ
elf_data_little_endian = 1

abbrev pub elf_version1 : ℕ
elf_version1 = 1

abbrev pub os_abi_system_v : ℕ
os_abi_system_v = 0

abbrev pub elf_type_executable : ℕ
elf_type_executable = 2

abbrev pub elf_machine_riscv : ℕ
elf_machine_riscv = 243

abbrev pub entrypoint_start : ℕ
entrypoint_start = 0

abbrev pub elf_program_header_entry_size64 : ℕ
elf_program_header_entry_size64 = 56

-- `programHeaderOffset + (size_t) programHeaderEntryCount * programHeaderEntrySize`
abbrev pub program_headers_end : ElfHeader → ℕ
program_headers_end h =
    (h.program_header_offset + h.program_header_entry_count * h.program_header_entry_size % 2 ^ 64)
    % 2 ^ 64

unfoldable pub validate : ElfHeader → List ℕ → Result (Unit {0})
validate h source = do
  throw_if
      (not (
        h.magic == elf_magic
        && h.elf_class == elf_class64
        && h.data_encoding == elf_data_little_endian
        && h.version == elf_version1
        && h.os_abi == os_abi_system_v
        && h.type == elf_type_executable
        && h.machine == elf_machine_riscv
        && h.program_header_entry_size == elf_program_header_entry_size64))
      (runtime_error invalid_elf_header)
  throw_if (not (h.entry == entrypoint_start)) (runtime_error entry_not_zero)
  throw_if (ltb (length source) (program_headers_end h))
      (runtime_error program_headers_out_of_bounds)

-- The fields, in the order in which `ElfHeader::read` loads them.
unfoldable pub load_header : Endian → List ℕ → Result ElfHeader
load_header native header = do
  magic ← load_u32 native (drop 0 header)
  elf_class ← read_byte header 4
  data_encoding ← read_byte header 5
  version ← read_byte header 6
  os_abi ← read_byte header 7
  type ← load_u16 native (drop 16 header)
  machine ← load_u16 native (drop 18 header)
  entry ← load_u64 native (drop 24 header)
  offset ← load_u64 native (drop 32 header)
  size ← load_u16 native (drop 54 header)
  count ← load_u16 native (drop 56 header)
  ok (record {
    magic = magic;
    elf_class = elf_class;
    data_encoding = data_encoding;
    version = version;
    os_abi = os_abi;
    type = type;
    machine = machine;
    entry = entry;
    program_header_offset = offset;
    program_header_entry_size = size;
    program_header_entry_count = count;
  })

-- `ElfHeader::read`
unfoldable pub read_elf_header : Endian → List ℕ → Result ElfHeader
unfolding load_header validate
read_elf_header native source = do
  throw_if (ltb (length source) elf_header_size) (runtime_error elf_file_too_small)
  header ← load_header native source
  validate header source
  ok header
