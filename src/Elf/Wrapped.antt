-- ===== src/Elf/Wrapped.antt =====
-- src/riscv/elf.cpp: `loadElf` on a table of program headers that wraps around.
use simple_risc_v_emulator.Common.{ℕ, zero, suc, ◌+◌, ◌^◌, ◌<◌, ◌≡◌, ◌∙◌, arith}
use simple_risc_v_emulator.Common.{List, [], All, length, drop, length-drop, All-drop, lt→ltb}
use simple_risc_v_emulator.Common.{ok, undefined}
use simple_risc_v_emulator.Memory.{Endian, load_u32}
use simple_risc_v_emulator.Memory.Value.{IsByte}
use simple_risc_v_emulator.Memory.Host.{load-host}
use simple_risc_v_emulator.Emulator.Syscalls.{Emulator}
use simple_risc_v_emulator.Elf.Header.{ElfHeader, read_elf_header}
use simple_risc_v_emulator.Elf.Segments.{
  entry_offset, read_segment_header, read_segments, read_segment_headers, Headers,
}
use simple_risc_v_emulator.Common.{◌*◌, ◌≤◌, inl, inr}
use simple_risc_v_emulator.Elf.Format.{value_at, header_at}
use simple_risc_v_emulator.Elf.Valid.{IsValid, read_elf_header_lem}
use simple_risc_v_emulator.Elf.Load.{Host, load_elf}

load_u32-short :
    (native : Endian) (bs : List ℕ) → All IsByte bs → length bs < 4 → load_u32 native bs ≡ undefined
unfolding load_u32
load_u32-short native bs bytes h = (load-host native bs bytes).1 ∙ rw (lt→ltb (length bs) 4 h)

read_segment_header-outside :
    (native : Endian) (source : List ℕ) (offset : ℕ)
    → All IsByte source
    → length source < offset + 4
    → read_segment_header native source offset ≡ undefined
unfolding read_segment_header
read_segment_header-outside native source offset bytes h = rw (
    load_u32-short native (drop offset source) (All-drop IsByte offset source bytes)
      (omega (arith, length-drop offset source)))

read_segments-outside :
    (native : Endian) (elf : ElfHeader) (source : List ℕ) (count : ℕ) (hs : Headers)
    → All IsByte source
    → 0 < count
    → length source < entry_offset elf 0 + 4
    → read_segments native elf source count 0 hs ≡ undefined
unfolding read_segments
read_segments-outside native elf source zero hs bytes pos h = absurd (omega arith)
read_segments-outside native elf source (suc count) hs bytes pos h =
    rw (read_segment_header-outside native source (entry_offset elf 0) bytes h)

-- The fields of a file that says of itself what `ElfHeader::read` asks for, with program headers
-- whose table wraps around and then ends within the file, while the first four bytes of the first
-- of them do not lie in it.
pub record IsWrappedFile (source : List ℕ) : Type 0 where
  pub long : 64 ≤ length source
  pub magic : value_at source 0 4 ≡ 0x464c457f
  pub elf_class : value_at source 4 1 ≡ 2
  pub data_encoding : value_at source 5 1 ≡ 1
  pub version : value_at source 6 1 ≡ 1
  pub os_abi : value_at source 7 1 ≡ 0
  pub type : value_at source 16 2 ≡ 2
  pub machine : value_at source 18 2 ≡ 243
  pub entry_zero : value_at source 24 8 ≡ 0
  pub entry_size : value_at source 54 2 ≡ 56
  pub has_rows : 0 < value_at source 56 2
  pub wraps : 2 ^ 64 ≤ value_at source 32 8 + value_at source 56 2 * 56
  pub end_le : value_at source 32 8 + value_at source 56 2 * 56 ≤ 2 ^ 64 + length source
  pub small : length source < 2 ^ 63
  pub offset_lt : value_at source 32 8 < 2 ^ 64
  pub outside : length source < value_at source 32 8 + 4

IsWrappedFile-IsValid : (source : List ℕ) → IsWrappedFile source → IsValid source (header_at source)
IsWrappedFile-IsValid source w = record {
  magic = w.magic;
  elf_class = w.elf_class;
  data_encoding = w.data_encoding;
  version = w.version;
  os_abi = w.os_abi;
  type = w.type;
  machine = w.machine;
  entry_size = w.entry_size;
  entry_zero = w.entry_zero;
  table_le = rw w.entry_size (omega (arith, w.wraps, w.end_le, w.small, w.offset_lt));
}

IsWrappedFile-accepted :
    (native : Endian) (source : List ℕ)
    → All IsByte source
    → IsWrappedFile source
    → read_elf_header native source ≡ ok (header_at source)
IsWrappedFile-accepted native source bytes w = elim (read_elf_header_lem native source bytes) [
  | inl (short, thrown) ↦ absurd (omega (arith, w.long))
  | inr (long, inl (accepted, valid)) ↦ accepted
  | inr (long, inr (refused, bad)) ↦ absurd (bad (IsWrappedFile-IsValid source w))
]

-- The check of the table adds in 64 bits, so that it accepts a table that wraps around: a file of
-- bytes whose fields are as supported, but whose table ends beyond 2^64 and, modulo 2^64, within the
-- file, while its first row does not lie in the file, is accepted by `ElfHeader::read`, and
-- `loadElf` then reads out of bounds, on every host.
pub load_elf-wrapped :
    {H : Type 0} (host : Host) (source : List ℕ) (e : Emulator H)
    → All IsByte source
    → IsWrappedFile source
    → (read_elf_header host.native source ≡ ok (header_at source))
      × (load_elf host source e ≡ undefined)
unfolding load_elf read_segment_headers
load_elf-wrapped host source e bytes w =
    let accepted : read_elf_header host.native source ≡ ok (header_at source) =
      IsWrappedFile-accepted host.native source bytes w in
    (
      accepted,
      rw (
        accepted,
        read_segments-outside host.native (header_at source) source (value_at source 56 2)
            (record { data_headers = []; code_headers = [] }) bytes w.has_rows
            (omega (arith, w.outside, w.offset_lt)),
      ),
    )
