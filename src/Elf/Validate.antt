-- ===== src/Elf/Validate.antt =====
-- src/riscv/elf.cpp: `validateDataHeaders` and `validateCodeHeaders`, on sorted headers.
use simple_risc_v_emulator.Common.{List, [], ◌∷◌, ltb, ◌==◌, not}
use simple_risc_v_emulator.Common.{Result, ok, throw, ◌>>◌, throw_if, runtime_error}
use simple_risc_v_emulator.Common.{data_truncated, data_overlap, no_code_segments}
use simple_risc_v_emulator.Common.{code_truncated_or_padded, code_not_at_zero, code_not_contiguous}
use simple_risc_v_emulator.Elf.Segments.{SegmentHeader, destination_end}

-- The first loop of `validateDataHeaders`.
unfoldable pub check_not_truncated : List SegmentHeader → Result (Unit {0})
check_not_truncated [] = ok tt
check_not_truncated (h ∷ hs) =
    throw_if (ltb h.destination_size h.source_size) (runtime_error data_truncated)
    >> check_not_truncated hs

-- The second loop: `previous` is `headers[i]`, and the list holds the headers behind it.
unfoldable pub check_no_overlap : SegmentHeader → List SegmentHeader → Result (Unit {0})
unfolding destination_end
check_no_overlap previous [] = ok tt
check_no_overlap previous (h ∷ hs) =
    throw_if (ltb h.destination_start (destination_end previous)) (runtime_error data_overlap)
    >> check_no_overlap h hs

unfoldable pub validate_data_headers : List SegmentHeader → Result (Unit {0})
unfolding check_not_truncated check_no_overlap
validate_data_headers [] = ok tt
validate_data_headers (h ∷ hs) = check_not_truncated (h ∷ hs) >> check_no_overlap h hs

-- The two loops of `validateCodeHeaders`.
unfoldable pub check_exact : List SegmentHeader → Result (Unit {0})
check_exact [] = ok tt
check_exact (h ∷ hs) =
    throw_if (not (h.destination_size == h.source_size)) (runtime_error code_truncated_or_padded)
    >> check_exact hs

unfoldable pub check_contiguous : SegmentHeader → List SegmentHeader → Result (Unit {0})
unfolding destination_end
check_contiguous previous [] = ok tt
check_contiguous previous (h ∷ hs) =
    throw_if (not (destination_end previous == h.destination_start))
      (runtime_error code_not_contiguous)
    >> check_contiguous h hs

unfoldable pub validate_code_headers : List SegmentHeader → Result (Unit {0})
unfolding check_exact check_contiguous
validate_code_headers [] = throw (runtime_error no_code_segments)
validate_code_headers (h ∷ hs) =
    check_exact (h ∷ hs)
    >> throw_if (not (h.destination_start == 0)) (runtime_error code_not_at_zero)
    >> check_contiguous h hs
