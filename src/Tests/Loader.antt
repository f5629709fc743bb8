-- ===== src/Tests/Loader.antt =====
-- src/riscv/elf.cpp on small files and lists of segments.
use simple_risc_v_emulator.Common.{ℕ, ◌+◌, ◌^◌, ◌<◌, ◌≡◌, refl, arith, List, [], ◌∷◌, All, length}
use simple_risc_v_emulator.Common.{◌⊎◌, ok, throw, undefined, runtime_error}
use simple_risc_v_emulator.Common.{elf_file_too_small, data_truncated, data_overlap}
use simple_risc_v_emulator.Memory.{little}
use simple_risc_v_emulator.Hart.{initial_thread}
use simple_risc_v_emulator.Emulator.Run.{run}
use simple_risc_v_emulator.Elf.Header.{read_elf_header}
use simple_risc_v_emulator.Elf.Segments.{SegmentHeader}
use simple_risc_v_emulator.Elf.Validate.{validate_data_headers, validate_code_headers}
use simple_risc_v_emulator.Elf.Load.{load_elf}
use simple_risc_v_emulator.Elf.Layout.{IsUnwrapped, Fits, IsApart, validate_data_headers_lem}
use simple_risc_v_emulator.Elf.Layout.Code.{IsImage, Refused, validate_code_headers_lem}
use simple_risc_v_emulator.Elf.Valid.{IsValid, read_elf_header_lem}
use simple_risc_v_emulator.Elf.Ends.{Ends}
use simple_risc_v_emulator.Elf.Correct.{IsLoaded, Refusal}
use simple_risc_v_emulator.Elf.Correct.Proof.{load_elf-IsLoaded}
use simple_risc_v_emulator.Elf.Correct.Results.{load_elf-run-machine_run}
use simple_risc_v_emulator.Common.{◌≤◌}
use simple_risc_v_emulator.Elf.Format.{header_at}
use simple_risc_v_emulator.Instruction.Types.{Instruction}
use simple_risc_v_emulator.Instruction.Program.{decode_program}
use simple_risc_v_emulator.Elf.Wrapped.{IsWrappedFile, load_elf-wrapped}
use simple_risc_v_emulator.Emulator.Machine.{emulator, machine_run, IsRefined}
use simple_risc_v_emulator.Tests.Loop.{
  initial_thread-IsThread, zero_machine, initial_thread-Represents,
}
use simple_risc_v_emulator.Tests.Programs.{
  elf_file, elf_file-IsByte, elf_file-IsUnwrappedFile, wrapped_file, wrapped_file-IsByte, test_host,
  test_emulator, test_emulator-IsArena,
}

read_elf_header_lem_example :
    ((length elf_file < 64)
      × (read_elf_header little elf_file ≡ throw (runtime_error elf_file_too_small)))
    ⊎ ((64 ≤ length elf_file)
        × (((read_elf_header little elf_file ≡ ok (header_at elf_file))
              × IsValid elf_file (header_at elf_file))
            ⊎ Refused (read_elf_header little elf_file) (IsValid elf_file (header_at elf_file))))
read_elf_header_lem_example = read_elf_header_lem little elf_file elf_file-IsByte

abbrev segment : ℕ → ℕ → ℕ → SegmentHeader
segment destination_start source_size destination_size = record {
  type = 1;
  flags = 0;
  source_start = 100;
  destination_start = destination_start;
  source_size = source_size;
  destination_size = destination_size;
}

segment-IsUnwrapped :
    (start source_size size : ℕ)
    → source_size < 2 ^ 60
    → start + size < 2 ^ 60
    → IsUnwrapped (segment start source_size size)
segment-IsUnwrapped start source_size size a b = record {
  source_lt = omega arith;
  destination_lt = omega arith;
}

abbrev overlapping : List SegmentHeader
overlapping = segment 8 2 4 ∷ segment 10 1 1 ∷ []

validate_data_headers_lem_example :
    ((validate_data_headers overlapping ≡ ok tt) × All Fits overlapping × IsApart overlapping)
    ⊎ ((validate_data_headers overlapping ≡ throw (runtime_error data_truncated))
        × ¬ All Fits overlapping)
    ⊎ ((validate_data_headers overlapping ≡ throw (runtime_error data_overlap))
        × All Fits overlapping
        × ¬ IsApart overlapping)
validate_data_headers_lem_example =
    validate_data_headers_lem overlapping (((omega arith), tt), (tt, tt))
      (
        segment-IsUnwrapped 8 2 4 (omega arith) (omega arith),
        (segment-IsUnwrapped 10 1 1 (omega arith) (omega arith), tt),
      )

abbrev adjacent : List SegmentHeader
adjacent = segment 0 4 4 ∷ segment 4 8 8 ∷ []

validate_code_headers_lem_example :
    ((validate_code_headers adjacent ≡ ok tt) × IsImage adjacent)
    ⊎ Refused (validate_code_headers adjacent) (IsImage adjacent)
validate_code_headers_lem_example = validate_code_headers_lem adjacent (
  segment-IsUnwrapped 0 4 4 (omega arith) (omega arith),
  (segment-IsUnwrapped 4 8 8 (omega arith) (omega arith), tt),
)

load_elf-IsLoaded_example :
    Ends
      (IsLoaded test_host elf_file test_emulator)
      (Refusal test_host elf_file test_emulator.memory)
      (load_elf test_host elf_file test_emulator)
load_elf-IsLoaded_example =
    load_elf-IsLoaded test_host elf_file elf_file-IsByte test_emulator test_emulator-IsArena
      elf_file-IsUnwrappedFile

load_elf-run-machine_run_example :
    Ends
      (λ e'.
        (l : IsLoaded test_host elf_file test_emulator e') × (code : List Instruction)
        × (decode_program l.image ≡ ok code)
        × IsRefined
            (run 5 e'.instructions initial_thread)
            (machine_run emulator 5 code zero_machine))
      (Refusal test_host elf_file test_emulator.memory)
      (load_elf test_host elf_file test_emulator)
load_elf-run-machine_run_example =
    load_elf-run-machine_run test_host elf_file test_emulator 5 initial_thread zero_machine
      elf_file-IsByte test_emulator-IsArena initial_thread-IsThread initial_thread-Represents
      elf_file-IsUnwrappedFile

wrapped_file-IsWrappedFile : IsWrappedFile wrapped_file
wrapped_file-IsWrappedFile = record {
  long = omega arith;
  magic = refl;
  elf_class = refl;
  data_encoding = refl;
  version = refl;
  os_abi = refl;
  type = refl;
  machine = refl;
  entry_zero = refl;
  entry_size = refl;
  has_rows = omega arith;
  wraps = omega arith;
  end_le = omega arith;
  small = omega arith;
  offset_lt = omega arith;
  outside = omega arith;
}

load_elf-wrapped_example :
    (read_elf_header little wrapped_file ≡ ok (header_at wrapped_file))
    × (load_elf test_host wrapped_file test_emulator ≡ undefined)
load_elf-wrapped_example =
    load_elf-wrapped test_host wrapped_file test_emulator wrapped_file-IsByte
      wrapped_file-IsWrappedFile
