-- ===== src/Tests/Programs.antt =====
-- A small ELF executable of two segments, one whose table of program headers wraps around, and an
-- environment that has the first as its only file.
use simple_risc_v_emulator.Common.{
  ℕ, ◌-◌, ◌^◌, ◌≡◌, refl, arith, List, [], ◌∷◌, ◌++◌, All, replicate,
}
use simple_risc_v_emulator.Common.{Bool, true, ltb, ltb→lt, ◌&&◌, Bool-cases, inl, inr}
use simple_risc_v_emulator.Memory.{little, little_endian_bytes, load_u16, load_u32, load_u64}
use simple_risc_v_emulator.Memory.Value.{IsByte}
use simple_risc_v_emulator.Arena.Laws.{IsArena}
use simple_risc_v_emulator.Emulator.Syscalls.{Emulator}
use simple_risc_v_emulator.Elf.Header.{load_header}
use simple_risc_v_emulator.Elf.Segments.{read_segment_header}
use simple_risc_v_emulator.Elf.Sort.{stable_sort}
use simple_risc_v_emulator.Elf.Load.{Host}
use simple_risc_v_emulator.Elf.Correct.{IsUnwrappedFile}

-- The header, with the offset of the table and the number of its rows.
abbrev elf_header : ℕ → ℕ → List ℕ
elf_header offset count =
    little_endian_bytes 4 0x464c457f
    ++ (2 ∷ 1 ∷ 1 ∷ 0 ∷ replicate 8 0)
    ++ little_endian_bytes 2 2
    ++ little_endian_bytes 2 243
    ++ little_endian_bytes 4 1
    ++ little_endian_bytes 8 0
    ++ little_endian_bytes 8 offset
    ++ replicate 14 0
    ++ little_endian_bytes 2 56
    ++ little_endian_bytes 2 count
    ++ replicate 6 0

abbrev program_header : ℕ → ℕ → ℕ → ℕ → ℕ → List ℕ
program_header flags source_start destination_start source_size destination_size =
    little_endian_bytes 4 1
    ++ little_endian_bytes 4 flags
    ++ little_endian_bytes 8 source_start
    ++ little_endian_bytes 8 destination_start
    ++ replicate 8 0
    ++ little_endian_bytes 8 source_size
    ++ little_endian_bytes 8 destination_size
    ++ replicate 8 0

-- Two bytes of data, in six of memory, and the code `jal x0, 0`.
abbrev pub elf_file : List ℕ
elf_file =
    elf_header 64 2
    ++ program_header 6 176 1 2 6
    ++ program_header 5 178 0 4 4
    ++ (7 ∷ 9 ∷ 0x6f ∷ 0 ∷ 0 ∷ 0 ∷ [])

-- The table has one row, and ends at 2^64.
abbrev pub wrapped_file : List ℕ
wrapped_file = elf_header (2 ^ 64 - 56) 1

abbrev all_bytes : List ℕ → Bool
all_bytes [] = true
all_bytes (b ∷ bs) = ltb b 256 && all_bytes bs

all_bytes-IsByte : (bs : List ℕ) → all_bytes bs ≡ true → All IsByte bs
all_bytes-IsByte [] e = tt
all_bytes-IsByte (b ∷ bs) e = elim (Bool-cases (ltb b 256)) [
  | inl small ↦ (ltb→lt b 256 small, all_bytes-IsByte bs (cc))
  | inr large ↦ absurd (cc)
]

pub elf_file-IsByte : All IsByte elf_file
elf_file-IsByte = all_bytes-IsByte elf_file refl

pub wrapped_file-IsByte : All IsByte wrapped_file
wrapped_file-IsByte = all_bytes-IsByte wrapped_file refl

pub elf_file-IsUnwrappedFile : IsUnwrappedFile little elf_file
unfolding load_header read_segment_header load_u16 load_u32 load_u64
elf_file-IsUnwrappedFile = (
  omega arith,
  (
    (λ e. record { source_lt = omega arith; destination_lt = omega arith }),
    ((λ e. record { source_lt = omega arith; destination_lt = omega arith }), tt),
  ),
)

abbrev pub test_host : Host
test_host = record { native = little; sort_headers = stable_sort; vector_limit = 2 ^ 20 }

abbrev pub test_emulator : Emulator (Unit {0})
test_emulator = record {
  memory = record { base = 64; storage = replicate 16 5; free_space = 12 };
  instructions = [];
  custom_syscall_handlers = [];
  start_time = 0;
}

pub test_emulator-IsArena : IsArena test_emulator.memory
test_emulator-IsArena = record { free_le = omega arith; size_lt = omega arith }
