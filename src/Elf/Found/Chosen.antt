-- ===== src/Elf/Found/Chosen.antt =====
-- src/riscv/elf.cpp: what `readSegmentHeaders` collects are the loadable rows of the file's table.
use simple_risc_v_emulator.Common.{ℕ, zero, suc, ◌+◌, ◌*◌, ◌^◌, ◌≤◌, ◌<◌, ◌≡◌, ◌∙◌, arith}
use simple_risc_v_emulator.Common.{ap, sym, subst, List, [], ◌∷◌, ◌++◌, All, length, bit_and, ltb}
use simple_risc_v_emulator.Common.{Bool, Bool-cases, ◌==◌, ◌&&◌, inl, inr}
use simple_risc_v_emulator.Common.{Result, ok, throw, undefined, ◌>>=◌}
use mathlib.Core.List.{append-nil}
use simple_risc_v_emulator.Memory.{Endian}
use simple_risc_v_emulator.Memory.Value.{IsByte}
use simple_risc_v_emulator.Elf.Segments.{
  SegmentHeader, Headers, source_end, classify, entry_offset, read_segment_header, read_segments,
  read_segment_headers,
}
use simple_risc_v_emulator.Elf.Reading.{read_segment_header-segment_at}
use simple_risc_v_emulator.Elf.Format.{
  header_at, segment_at, value_at, rows_of, select, is_data, is_code, data_segments, code_segments,
}
use simple_risc_v_emulator.Elf.Found.{IfOk}
use simple_risc_v_emulator.Elf.Found.Loop.{entry_offset-eq}

IfOk-bind :
    (P Q : Headers → Type 0) (r : Result Headers) (f : Headers → Result Headers)
    → IfOk P r
    → ((a : Headers) → P a → IfOk Q (f a))
    → IfOk Q (r >>= f)
IfOk-bind P Q (ok a) f p g = g a p
IfOk-bind P Q (throw e) f p g = tt
IfOk-bind P Q undefined f p g = tt

IfOk-map :
    (P Q : Headers → Type 0) (r : Result Headers)
    → ((a : Headers) → P a → Q a)
    → IfOk P r
    → IfOk Q r
IfOk-map P Q (ok a) f p = f a p
IfOk-map P Q (throw e) f p = tt
IfOk-map P Q undefined f p = tt

append-select :
    (chosen : SegmentHeader → Bool) (hs : List SegmentHeader) (h : SegmentHeader)
    (ks : List SegmentHeader)
    → (hs ++ select chosen (h ∷ [])) ++ select chosen ks ≡ hs ++ select chosen (h ∷ ks)
append-select chosen (x ∷ hs) h ks = ap (λ l. x ∷ l) (append-select chosen hs h ks)
append-select chosen [] h ks = elim (Bool-cases (chosen h)) [ inl e ↦ rw e | inr e ↦ rw e ]

-- The rows have been added that are data and that are code.
record IsAdded (rows : List SegmentHeader) (before after : Headers) : Type 0 where
  data_added : after.data_headers ≡ before.data_headers ++ select is_data rows
  code_added : after.code_headers ≡ before.code_headers ++ select is_code rows

classify-IsAdded :
    (source : List ℕ) (h : SegmentHeader) (hs : Headers)
    → IfOk (IsAdded (h ∷ []) hs) (classify source h hs)
unfolding classify
classify-IsAdded source h hs = elim (Bool-cases (h.type == 1)) [
  | inr e ↦
      rw e
        (record { data_added = rw e (sym (append-nil _)); code_added = rw e (sym (append-nil _)) })
  | inl e ↦ elim (Bool-cases (h.source_size == 0 && h.destination_size == 0)) [
    | inl e' ↦
        rw (e, e')
          (record {
            data_added = rw (e, e') (sym (append-nil _));
            code_added = rw (e, e') (sym (append-nil _));
          })
    | inr e' ↦ elim (Bool-cases (ltb (length source) (source_end h))) [
      | inl out ↦ rw (e, e', out) tt
      | inr within ↦ elim (Bool-cases (bit_and h.flags 1 == 0)) [
        | inl f ↦
            rw (e, e', within, f)
              (record {
                data_added = rw (e, e', f);
                code_added = rw (e, e', f) (sym (append-nil _));
              })
        | inr f ↦
            rw (e, e', within, f)
              (record {
                data_added = rw (e, e', f) (sym (append-nil _));
                code_added = rw (e, e', f);
              })
      ]
    ]
  ]
]

module _ (native : Endian) (source : List ℕ) (bytes : All IsByte source)
    (size : (header_at source).program_header_entry_size ≡ 56) where
  read_segments-IsAdded :
      (rounds i : ℕ) (hs : Headers)
      → value_at source 32 8 + (i + rounds) * 56 < 2 ^ 64
      → value_at source 32 8 + (i + rounds) * 56 ≤ length source
      → IfOk
          (IsAdded (rows_of source rounds i) hs)
          (read_segments native (header_at source) source rounds i hs)
  unfolding read_segments
  read_segments-IsAdded zero i hs lt le = record {
    data_added = sym (append-nil _);
    code_added = sym (append-nil _);
  }
  read_segments-IsAdded (suc rounds) i hs lt le =
      let h : SegmentHeader = segment_at source (value_at source 32 8 + i * 56) in
      let offset : entry_offset (header_at source) i ≡ value_at source 32 8 + i * 56 =
        entry_offset-eq (header_at source) i size (omega arith) in
      let read : read_segment_header native source (entry_offset (header_at source) i) ≡ ok h =
        rw offset (
          read_segment_header-segment_at native source (value_at source 32 8 + i * 56) bytes
            (omega arith)) in
      rw read (
        IfOk-bind (IsAdded (h ∷ []) hs) (IsAdded (h ∷ rows_of source rounds (i + 1)) hs)
          (classify source h hs) _ (classify-IsAdded source h hs)
          (λ next first.
            IfOk-map (IsAdded (rows_of source rounds (i + 1)) next) _ _
              (λ after rest. record {
                data_added =
                    rest.data_added
                    ∙ ap (λ l. l ++ select is_data (rows_of source rounds (i + 1))) first.data_added
                    ∙ append-select is_data hs.data_headers h (rows_of source rounds (i + 1));
                code_added =
                    rest.code_added
                    ∙ ap (λ l. l ++ select is_code (rows_of source rounds (i + 1))) first.code_added
                    ∙ append-select is_code hs.code_headers h (rows_of source rounds (i + 1));
              })
              (read_segments-IsAdded rounds (i + 1) next (omega arith) (omega arith))))

  -- The two lists are the loadable rows of the table, in its order.
  pub read_segment_headers-segments :
      (hs : Headers)
      → value_at source 32 8 + value_at source 56 2 * 56 < 2 ^ 64
      → value_at source 32 8 + value_at source 56 2 * 56 ≤ length source
      → read_segment_headers native (header_at source) source ≡ ok hs
      → (hs.data_headers ≡ data_segments source) × (hs.code_headers ≡ code_segments source)
  unfolding read_segment_headers
  read_segment_headers-segments hs lt le e =
      let none_found : Headers = record { data_headers = []; code_headers = [] } in
      let added : IsAdded (rows_of source (value_at source 56 2) 0) none_found hs =
        subst (IfOk (IsAdded (rows_of source (value_at source 56 2) 0) none_found)) e
          (read_segments-IsAdded (value_at source 56 2) 0 none_found (omega arith) (omega arith)) in
      (added.data_added, added.code_added)
