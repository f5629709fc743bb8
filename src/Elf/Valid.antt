-- ===== src/Elf/Valid.antt =====
-- src/riscv/elf.cpp: which headers of a file `ElfHeader::read` accepts.
use simple_risc_v_emulator.Common.{ℕ, ◌+◌, ◌*◌, ◌%◌, ◌^◌, ◌≤◌, ◌<◌, ◌≡◌, refl, arith, List, All}
use simple_risc_v_emulator.Common.{length, ltb, ◌==◌, ◌&&◌}
use simple_risc_v_emulator.Common.{
  Bool, true, false, Bool-cases, ltb-false→le, ==→eq, inl, inr, ◌⊎◌,
}
use simple_risc_v_emulator.Common.{ok, throw}
use simple_risc_v_emulator.Common.{runtime_error, elf_file_too_small}
use simple_risc_v_emulator.Common.{
  invalid_elf_header, entry_not_zero, program_headers_out_of_bounds,
}
use simple_risc_v_emulator.Memory.{Endian}
use simple_risc_v_emulator.Memory.Value.{IsByte}
use simple_risc_v_emulator.Elf.Header.{
  ElfHeader, load_header, validate, read_elf_header, program_headers_end, elf_magic, elf_class64,
  elf_data_little_endian, elf_version1, os_abi_system_v, elf_type_executable, elf_machine_riscv,
  elf_program_header_entry_size64,
}
use simple_risc_v_emulator.Elf.Layout.Code.{Refused}
use simple_risc_v_emulator.Common.{◌∙◌, sym, ==-ne, ltb→lt}
use simple_risc_v_emulator.Elf.Header.{entrypoint_start}
use mathlib.Core.Bool.{false≢true}
use simple_risc_v_emulator.Elf.Format.{header_at}
use simple_risc_v_emulator.Elf.Reading.{load_header-header_at}

-- A header of the format that is supported, by the format's own numbers, with a table that ends
-- within the file in the arithmetic of 64 bits.
pub record IsValid (source : List ℕ) (h : ElfHeader) : Type 0 where
  pub magic : h.magic ≡ 0x464c457f
  pub elf_class : h.elf_class ≡ 2
  pub data_encoding : h.data_encoding ≡ 1
  pub version : h.version ≡ 1
  pub os_abi : h.os_abi ≡ 0
  pub type : h.type ≡ 2
  pub machine : h.machine ≡ 243
  pub entry_size : h.program_header_entry_size ≡ 56
  pub entry_zero : h.entry ≡ 0
  pub table_le :
      (h.program_header_offset
          + h.program_header_entry_count * h.program_header_entry_size % 2 ^ 64)
        % 2 ^ 64
      ≤ length source

abbrev is_supported : ElfHeader → Bool
is_supported h =
    h.magic == elf_magic
    && h.elf_class == elf_class64
    && h.data_encoding == elf_data_little_endian
    && h.version == elf_version1
    && h.os_abi == os_abi_system_v
    && h.type == elf_type_executable
    && h.machine == elf_machine_riscv
    && h.program_header_entry_size == elf_program_header_entry_size64

and-all :
    (a b c d e f g h : Bool)
    → a && b && c && d && e && f && g && h ≡ true
    → (a ≡ true)
      × (b ≡ true)
      × (c ≡ true)
      × (d ≡ true)
      × (e ≡ true)
      × (f ≡ true)
      × (g ≡ true)
      × (h ≡ true)
and-all true true true true true true true true p = (refl, refl, refl, refl, refl, refl, refl, refl)
and-all true true true true true true true false p = absurd (false≢true p)
and-all true true true true true true false h p = absurd (false≢true p)
and-all true true true true true false g h p = absurd (false≢true p)
and-all true true true true false f g h p = absurd (false≢true p)
and-all true true true false e f g h p = absurd (false≢true p)
and-all true true false d e f g h p = absurd (false≢true p)
and-all true false c d e f g h p = absurd (false≢true p)
and-all false b c d e f g h p = absurd (false≢true p)

supported-IsValid :
    (h : ElfHeader) (source : List ℕ)
    → is_supported h ≡ true
    → h.entry ≡ entrypoint_start
    → program_headers_end h ≤ length source
    → IsValid source h
supported-IsValid h source e zero table =
    let (magic, elf_class, data_encoding, version, os_abi, type, machine, entry_size) =
      and-all (h.magic == elf_magic) (h.elf_class == elf_class64)
        (h.data_encoding == elf_data_little_endian) (h.version == elf_version1)
        (h.os_abi == os_abi_system_v) (h.type == elf_type_executable)
        (h.machine == elf_machine_riscv)
        (h.program_header_entry_size == elf_program_header_entry_size64) e in
    record {
      magic = ==→eq (h.magic) elf_magic magic;
      elf_class = ==→eq (h.elf_class) elf_class64 elf_class;
      data_encoding = ==→eq (h.data_encoding) elf_data_little_endian data_encoding;
      version = ==→eq (h.version) elf_version1 version;
      os_abi = ==→eq (h.os_abi) os_abi_system_v os_abi;
      type = ==→eq (h.type) elf_type_executable type;
      machine = ==→eq (h.machine) elf_machine_riscv machine;
      entry_size = ==→eq (h.program_header_entry_size) elf_program_header_entry_size64 entry_size;
      entry_zero = zero;
      table_le = table;
    }

IsValid-supported : (h : ElfHeader) (source : List ℕ) → IsValid source h → is_supported h ≡ true
IsValid-supported h source v =
    rw (v.magic, v.elf_class, v.data_encoding, v.version, v.os_abi, v.type, v.machine, v.entry_size)

pub validate-cases :
    (h : ElfHeader) (source : List ℕ)
    → ((validate h source ≡ ok tt) × IsValid source h)
      ⊎ Refused (validate h source) (IsValid source h)
unfolding validate
validate-cases h source = elim (Bool-cases (is_supported h)) [
  | inr e ↦ inr ((invalid_elf_header, rw e), λ v. false≢true (sym e ∙ IsValid-supported h source v))
  | inl e ↦ elim (Bool-cases (h.entry == 0)) [
    | inr e0 ↦ inr (
      (entry_not_zero, rw (e, e0)),
      λ v. absurd (omega (arith, ==-ne h.entry 0 e0, v.entry_zero)),
    )
    | inl e0 ↦ elim (Bool-cases (ltb (length source) (program_headers_end h))) [
      | inl over ↦ inr (
        (program_headers_out_of_bounds, rw (e, e0, over)),
        λ v. absurd (omega (arith, ltb→lt _ _ over, v.table_le)),
      )
      | inr within ↦ inl (
        rw (e, e0, within),
        supported-IsValid h source e (==→eq h.entry 0 e0)
            (ltb-false→le (length source) (program_headers_end h) within),
      )
    ]
  ]
]

-- `ElfHeader::read` on any bytes, on every host. A file of fewer than 64 bytes is refused for its
-- size. Of any other file it returns the fields that stand at the offsets of the format, exactly when
-- they have the numbers of a 64-bit little-endian executable for RISC-V with the entry point zero
-- and with program headers of 56 bytes, and when the table of those, in the arithmetic of 64 bits,
-- ends within the file. Else a `std::runtime_error` is thrown.
pub read_elf_header_lem :
    (native : Endian) (source : List ℕ)
    → All IsByte source
    → ((length source < 64)
        × (read_elf_header native source ≡ throw (runtime_error elf_file_too_small)))
      ⊎ ((64 ≤ length source)
          × (((read_elf_header native source ≡ ok (header_at source))
                × IsValid source (header_at source))
              ⊎ Refused (read_elf_header native source) (IsValid source (header_at source))))
unfolding read_elf_header
read_elf_header_lem native source bytes = elim (Bool-cases (ltb (length source) 64)) [
  | inl e ↦ inl (ltb→lt (length source) 64 e, rw e)
  | inr e ↦
      let long : 64 ≤ length source = ltb-false→le (length source) 64 e in
      let loaded : load_header native source ≡ ok (header_at source) =
        load_header-header_at native source bytes long in
      inr (
        long,
        elim (validate-cases (header_at source) source) [
          | inl good ↦ inl (rw (e, loaded, good.0), good.1)
          | inr bad ↦ inr ((bad.0.0, rw (e, loaded, bad.0.1)), bad.1)
        ],
      )
]
