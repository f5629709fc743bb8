-- ===== src/Elf/Reading.antt =====
-- src/riscv/elf.cpp: the fields of the headers, read within the file.
use simple_risc_v_emulator.Common.{ℕ, zero, suc, ◌+◌, ◌≤◌, ◌<◌, ◌≡◌, ◌∙◌, ap, arith}
use simple_risc_v_emulator.Common.{List, [], ◌∷◌, All, length, drop, take, length-drop, All-drop}
use simple_risc_v_emulator.Common.{ok, some, get_elem?, ltb-false}
use simple_risc_v_emulator.Memory.{Endian, load_u16, load_u32, load_u64, read_byte}
use simple_risc_v_emulator.Memory.{little_endian_value}
use simple_risc_v_emulator.Memory.Value.{IsByte}
use simple_risc_v_emulator.Memory.Host.{load-host}
use simple_risc_v_emulator.Elf.Header.{load_header}
use simple_risc_v_emulator.Elf.Segments.{read_segment_header}
use simple_risc_v_emulator.Elf.Format.{value_at, header_at, segment_at}

get_elem?-value :
    (i : ℕ) (s : List ℕ)
    → i < length s
    → get_elem? s i ≡ some (little_endian_value (take 1 (drop i s)))
get_elem?-value i [] h = absurd (omega arith)
get_elem?-value zero (x ∷ s) h = ap some (omega arith)
get_elem?-value (suc i) (x ∷ s) h = get_elem?-value i s (omega arith)

read_byte-value_at : (s : List ℕ) (i : ℕ) → i < length s → read_byte s i ≡ ok (value_at s i 1)
read_byte-value_at s i h = rw (get_elem?-value i s h)

module _ (native : Endian) (source : List ℕ) (bytes : All IsByte source) where
  load_u16-value_at :
      (offset : ℕ)
      → offset + 2 ≤ length source
      → load_u16 native (drop offset source) ≡ ok (value_at source offset 2)
  unfolding load_u16
  load_u16-value_at offset h =
      (load-host native (drop offset source) (All-drop IsByte offset source bytes)).0
      ∙ rw (ltb-false (length (drop offset source)) 2 (omega (arith, length-drop offset source)))

  load_u32-value_at :
      (offset : ℕ)
      → offset + 4 ≤ length source
      → load_u32 native (drop offset source) ≡ ok (value_at source offset 4)
  unfolding load_u32
  load_u32-value_at offset h =
      (load-host native (drop offset source) (All-drop IsByte offset source bytes)).1
      ∙ rw (ltb-false (length (drop offset source)) 4 (omega (arith, length-drop offset source)))

  load_u64-value_at :
      (offset : ℕ)
      → offset + 8 ≤ length source
      → load_u64 native (drop offset source) ≡ ok (value_at source offset 8)
  unfolding load_u64
  load_u64-value_at offset h =
      (load-host native (drop offset source) (All-drop IsByte offset source bytes)).2
      ∙ rw (ltb-false (length (drop offset source)) 8 (omega (arith, length-drop offset source)))

  pub load_header-header_at : 64 ≤ length source → load_header native source ≡ ok (header_at source)
  unfolding load_header
  load_header-header_at h = rw (
    load_u32-value_at 0 (omega arith),
    read_byte-value_at source 4 (omega arith),
    read_byte-value_at source 5 (omega arith),
    read_byte-value_at source 6 (omega arith),
    read_byte-value_at source 7 (omega arith),
    load_u16-value_at 16 (omega arith),
    load_u16-value_at 18 (omega arith),
    load_u64-value_at 24 (omega arith),
    load_u64-value_at 32 (omega arith),
    load_u16-value_at 54 (omega arith),
    load_u16-value_at 56 (omega arith),
  )

pub read_segment_header-segment_at :
    (native : Endian) (source : List ℕ) (offset : ℕ)
    → All IsByte source
    → offset + 56 ≤ length source
    → read_segment_header native source offset ≡ ok (segment_at source offset)
unfolding read_segment_header
read_segment_header-segment_at native source offset bytes h =
    let header : List ℕ = drop offset source in
    let all : All IsByte header = All-drop IsByte offset source bytes in
    let long : 56 ≤ length header = omega (arith, length-drop offset source) in
    rw (
      load_u32-value_at native header all 0 (omega arith),
      load_u32-value_at native header all 4 (omega arith),
      load_u64-value_at native header all 8 (omega arith),
      load_u64-value_at native header all 16 (omega arith),
      load_u64-value_at native header all 32 (omega arith),
      load_u64-value_at native header all 40 (omega arith),
    )
