-- ===== src/Elf/Load.antt =====
-- src/riscv/elf.cpp: `copySegments`, `mapDataSegments`, `mapCodeSegments` and `loadElf`.
use simple_risc_v_emulator.Common.{ℕ, ◌+◌, ◌^◌, List, [], ◌∷◌, take, drop, replicate}
use simple_risc_v_emulator.Common.{length, ltb, if◌then◌else◌}
use simple_risc_v_emulator.Common.{Result, ok, throw, undefined, ◌>>=◌, ◌>>◌}
use simple_risc_v_emulator.Common.{bad_alloc, length_error, runtime_error, no_memory_for_data}
use simple_risc_v_emulator.Memory.{Endian}
use simple_risc_v_emulator.Arena.{Arena, allocate_array, write_at}
use simple_risc_v_emulator.Instruction.Decode.{decode_instructions}
use simple_risc_v_emulator.Emulator.Syscalls.{Emulator, set_instructions}
use simple_risc_v_emulator.Elf.Header.{read_elf_header}
use simple_risc_v_emulator.Elf.Segments.{SegmentHeader, destination_end, read_segment_headers}
use simple_risc_v_emulator.Elf.Sort.{Sort}
use simple_risc_v_emulator.Elf.Validate.{validate_data_headers, validate_code_headers}

-- What the program is run on: the byte order, the sort of its standard library, and the greatest
-- number of bytes that its allocator gives to a vector.
pub record Host : Type 0 where
  pub native : Endian
  pub sort_headers : Sort
  pub vector_limit : ℕ

-- The `size` bytes of a buffer from `start` on, as `memcpy` reads them.
unfoldable pub read_bytes : List ℕ → ℕ → ℕ → Result (List ℕ)
read_bytes source start size =
    if ltb (length source) (start + size) then undefined else ok (take size (drop start source))

-- The destination is the vector that holds the bytes of the span, in `storage`; the span begins at
-- the address `destination`.
unfoldable pub copy_segments : List SegmentHeader → List ℕ → ℕ → Arena → Result Arena
unfolding read_bytes write_at
copy_segments [] source destination storage = ok storage
copy_segments (h ∷ hs) source destination storage = do
  bytes ← read_bytes source h.source_start h.source_size
  storage' ← write_at storage (destination + h.destination_start) bytes
  copy_segments hs source destination storage'

-- `headers.back().destinationEnd()`; `back()` of an empty span is undefined.
unfoldable pub total_size : List SegmentHeader → Result ℕ
unfolding destination_end
total_size [] = undefined
total_size (h ∷ []) = ok (destination_end h)
total_size (h ∷ k ∷ hs) = total_size (k ∷ hs)

-- `catch (std::bad_alloc const&)` around the allocation.
abbrev pub catch_bad_alloc : Result (ℕ × Arena) → Result (ℕ × Arena)
catch_bad_alloc (throw bad_alloc) = throw (runtime_error no_memory_for_data)
catch_bad_alloc r = r

-- `std::vector<uint8_t> codeMemory(totalCodeSize)`, at an address that no one looks at.
abbrev pub make_vector : ℕ → ℕ → Result Arena
make_vector limit size =
    if ltb size (2 ^ 63)
    then if ltb limit size
      then throw bad_alloc
      else ok (record { base = 0; storage = replicate size 0; free_space = 0 })
    else throw length_error

module _ {ℓ} {H : Type ℓ} where
  unfoldable pub map_data_segments : List SegmentHeader → List ℕ → Emulator H → Result (Emulator H)
  unfolding copy_segments total_size allocate_array
  map_data_segments [] source e = ok e
  map_data_segments (h ∷ hs) source e = do
    total_data_size ← total_size (h ∷ hs)
    (data_memory, memory) ← catch_bad_alloc (allocate_array 1 1 total_data_size e.memory)
    memory' ← copy_segments (h ∷ hs) source data_memory memory
    ok (record e { memory = memory' })

  unfoldable pub map_code_segments :
      Host → List SegmentHeader → List ℕ → Emulator H → Result (Emulator H)
  unfolding copy_segments total_size decode_instructions set_instructions
  map_code_segments host headers source e = do
    total_code_size ← total_size headers
    code_memory ← make_vector host.vector_limit total_code_size
    code_memory' ← copy_segments headers source 0 code_memory
    instructions ← decode_instructions host.native code_memory'.storage
    ok (set_instructions instructions e)

  unfoldable pub load_elf : Host → List ℕ → Emulator H → Result (Emulator H)
  unfolding map_data_segments map_code_segments
  load_elf host source e = do
    elf_header ← read_elf_header host.native source
    headers ← read_segment_headers host.native elf_header source
    let data_headers = host.sort_headers.sort headers.data_headers
    let code_headers = host.sort_headers.sort headers.code_headers
    validate_data_headers data_headers
    validate_code_headers code_headers
    e' ← map_data_segments data_headers source e
    map_code_segments host code_headers source e'
