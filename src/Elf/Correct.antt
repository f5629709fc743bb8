-- ===== src/Elf/Correct.antt =====
-- src/riscv/elf.cpp: `loadElf` as a whole, on files whose tables do not wrap around.
pub mod Sorted
pub mod Proof
pub mod Results
use mathlib.Core.List.{Permᴰ}
use mathlib.Core.List.Permᴰ
use simple_risc_v_emulator.Common.{
  ℕ, zero, suc, ◌+◌, ◌*◌, ◌^◌, ◌≤◌, ◌<◌, ◌≡◌, ◌∙◌, refl, sym, subst, arith,
}
use simple_risc_v_emulator.Common.{
  List, [], ◌∷◌, All, length, get_elem?, some, inl, inr, ◌⊎◌, true, false,
}
use simple_risc_v_emulator.Common.{
  Exception, Message, Result, ok, throw, undefined, ◌>>=◌, ◌>>◌, runtime_error,
}
use simple_risc_v_emulator.Common.{
  elf_file_too_small, segment_out_of_bounds, no_memory_for_data, bad_alloc,
}
use simple_risc_v_emulator.Memory.{Endian}
use simple_risc_v_emulator.Memory.Value.{IsByte}
use simple_risc_v_emulator.Arena.{Arena, allocate_array}
use simple_risc_v_emulator.Arena.Laws.{IsArena}
use simple_risc_v_emulator.Instruction.Decode.{decode_instructions}
use simple_risc_v_emulator.Emulator.Syscalls.{Emulator, set_instructions}
use simple_risc_v_emulator.Emulator.WellFormed.{IsRunnable}
use simple_risc_v_emulator.Emulator.Decoded.Parts.{Gives}
use simple_risc_v_emulator.Emulator.Decoded.Program.{decode_instructions-IsRunnable}
use simple_risc_v_emulator.Elf.Header.{ElfHeader, load_header, read_elf_header}
use simple_risc_v_emulator.Elf.Segments.{SegmentHeader, Headers, read_segment_headers}
use simple_risc_v_emulator.Elf.Sort.{All-perm, IsSorted}
use simple_risc_v_emulator.Elf.Validate.{validate_data_headers, validate_code_headers}
use simple_risc_v_emulator.Elf.Load.{
  Host, total_size, make_vector, map_data_segments, map_code_segments, load_elf,
}
use simple_risc_v_emulator.Elf.Layout.{IsUnwrapped, Fits, IsApart, validate_data_headers_lem}
use simple_risc_v_emulator.Elf.Layout.Code.{IsImage, validate_code_headers_lem}
use simple_risc_v_emulator.Elf.Copy.{IsPresent}
use simple_risc_v_emulator.Elf.Mapped.{
  EndsBy, IsInFile, IsDataLoaded, map_data_segments-cases, map_code_segments-cases,
}
use simple_risc_v_emulator.Common.{data_truncated, data_overlap}
use simple_risc_v_emulator.Elf.Format.{value_at, header_at, data_segments, code_segments}
use simple_risc_v_emulator.Elf.Valid.{IsValid, read_elf_header_lem}
use simple_risc_v_emulator.Elf.Padding.{IsZeroFilled}
use simple_risc_v_emulator.Elf.Ends.{Ends, Ends-bind, Ends-weaken}
use simple_risc_v_emulator.Elf.Found.{
  IfOk, Rows, IsSound, In, All-In, is_executable, IsListed, IsRow, IsFound, IsBadRow,
}
use simple_risc_v_emulator.Elf.Found.Loop.{read_segment_headers-IsFound}

-- The table of program headers and the loadable segments end at numbers of 64 bits.
abbrev pub IsUnwrappedFile : Endian → List ℕ → Type 0
IsUnwrappedFile native source =
    IfOk
      (λ h.
        (h.program_header_offset + h.program_header_entry_count * h.program_header_entry_size
          < 2 ^ 64)
        × Rows IsSound native h source h.program_header_entry_count 0)
      (load_header native source)

-- What the file says is to be loaded: the loadable rows of the table of a valid header, in two
-- lists, each in the order in which the host sorts it by the addresses.
pub record IsTable (host : Host) (source : List ℕ) (hs : Headers) : Type 0 where
  pub valid : IsValid source (header_at source)
  pub data_sorted : hs.data_headers ≡ host.sort_headers.sort (data_segments source)
  pub code_sorted : hs.code_headers ≡ host.sort_headers.sort (code_segments source)
  pub listed : Rows (IsListed hs) host.native (header_at source) source (value_at source 56 2) 0
  pub found : IsFound host.native (header_at source) source hs

module _ (host : Host) (source : List ℕ) (memory : Arena) where
  -- The reasons for which a file is refused, each with what is thrown for it.
  pub data Refusal : Exception → Type 0 where
    too_small : length source < 64 → Refusal (runtime_error elf_file_too_small)
    invalid_header :
        (m : Message)
        → 64 ≤ length source
        → ¬ IsValid source (header_at source)
        → Refusal (runtime_error m)
    out_of_file :
        (x : Exception)
        → IsValid source (header_at source)
        → IsBadRow host.native (header_at source) source x
        → Refusal x
    truncated :
        (hs : Headers)
        → IsTable host source hs
        → ¬ All Fits hs.data_headers
        → Refusal (runtime_error data_truncated)
    overlapping :
        (hs : Headers)
        → IsTable host source hs
        → All Fits hs.data_headers
        → ¬ IsApart hs.data_headers
        → Refusal (runtime_error data_overlap)
    bad_code :
        (hs : Headers) (m : Message)
        → IsTable host source hs
        → ¬ IsImage hs.code_headers
        → Refusal (runtime_error m)
    no_memory :
        (hs : Headers) (total : ℕ)
        → IsTable host source hs
        → total_size hs.data_headers ≡ ok total
        → allocate_array 1 1 total memory ≡ throw bad_alloc
        → Refusal (runtime_error no_memory_for_data)
    no_vector :
        (hs : Headers) (total : ℕ) (x : Exception)
        → IsTable host source hs
        → total_size hs.code_headers ≡ ok total
        → make_vector host.vector_limit total ≡ throw x
        → Refusal x
    undecodable :
        (hs : Headers) (image : List ℕ) (x : Exception)
        → IsTable host source hs
        → IsImage hs.code_headers
        → total_size hs.code_headers ≡ ok (length image)
        → All (IsPresent source 0 image) hs.code_headers
        → decode_instructions host.native image ≡ throw x
        → Refusal x

-- What has become of the emulator.
pub record IsLoaded {H : Type 0} (host : Host) (source : List ℕ) (before after : Emulator H)
    : Type 0 where
  pub headers : Headers
  pub table : IsTable host source headers
  pub data_fits : All Fits headers.data_headers
  pub data_apart : IsApart headers.data_headers
  pub data_loaded : IsDataLoaded headers.data_headers source before.memory after.memory
  pub zero_filled : IsZeroFilled headers.data_headers data_loaded.offset after.memory.storage
  pub code_layout : IsImage headers.code_headers
  pub image : List ℕ
  pub image_size : total_size headers.code_headers ≡ ok (length image)
  pub image_bytes : All IsByte image
  pub image_ends : All (EndsBy (length image)) headers.code_headers
  pub image_present : All (IsPresent source 0 image) headers.code_headers
  pub decoded : decode_instructions host.native image ≡ ok after.instructions
  pub runnable : All IsRunnable after.instructions
  pub same_handlers : after.custom_syscall_handlers ≡ before.custom_syscall_handlers
