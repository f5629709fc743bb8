-- ===== src/Elf/Found/Round.antt =====
-- src/riscv/elf.cpp: one round of the loop of `readSegmentHeaders`.
use simple_risc_v_emulator.Common.{ℕ, ◌+◌, ◌<◌, ◌≡◌, ◌∙◌, refl, sym, subst, arith}
use simple_risc_v_emulator.Common.{List, [], ◌∷◌, ◌++◌, All-append, length, ltb, ◌==◌}
use simple_risc_v_emulator.Common.{
  Bool, true, false, Bool-cases, ltb-false→le, ltb→lt, ==→eq, inl, inr, ◌&&◌, ==-ne,
}
use mathlib.Core.Bool.{false≢true}
use simple_risc_v_emulator.Memory.{Endian}
use simple_risc_v_emulator.Elf.Ends.{Ends}
use simple_risc_v_emulator.Elf.Header.{ElfHeader}
use simple_risc_v_emulator.Elf.Segments.{SegmentHeader, Headers, type_load, source_end, classify}
use simple_risc_v_emulator.Common.{◌*◌}
use simple_risc_v_emulator.Elf.Format.{segment_at}
use simple_risc_v_emulator.Elf.Layout.{IsUnwrapped}
use simple_risc_v_emulator.Elf.Mapped.{IsInFile}
use simple_risc_v_emulator.Elf.Found.{
  IsSound, IsLoadable, is_executable, IsListed, IsRow, IsFound, IsExtended, IsBadRow,
  IsExtended-refl, In-append, In-last, Selected, source_end-eq,
}

module _ (native : Endian) (elf : ElfHeader) (source : List ℕ) where
  -- What one round of the loop establishes.
  abbrev pub Classified : SegmentHeader → Headers → Headers → Type 0
  Classified h before after =
      IsFound native elf source after × IsExtended before after × IsListed after h

  -- A row that is not to be loaded.
  Classified-skipped :
      (h : SegmentHeader) (hs : Headers)
      → IsFound native elf source hs
      → ¬ IsLoadable h
      → Classified h hs hs
  Classified-skipped h hs found skipped = (found, IsExtended-refl hs, λ l. absurd (skipped l))

  Classified-code :
      (h : SegmentHeader) (hs : Headers)
      → IsUnwrapped h
      → IsInFile source h
      → IsFound native elf source hs
      → IsRow native elf source true h
      → Classified h hs (record hs { code_headers = hs.code_headers ++ (h ∷ []) })
  unfolding Selected
  Classified-code h hs u f found row =
      let after : Headers = record hs { code_headers = hs.code_headers ++ (h ∷ []) } in
      (
        record {
          data_rows = found.data_rows;
          code_rows =
              All-append (IsRow native elf source true) hs.code_headers (h ∷ []) found.code_rows
                (row, tt);
          data_sound = found.data_sound;
          code_sound = All-append IsUnwrapped hs.code_headers (h ∷ []) found.code_sound (u, tt);
          data_in_file = found.data_in_file;
          code_in_file =
              All-append (IsInFile source) hs.code_headers (h ∷ []) found.code_in_file (f, tt);
        },
        record {
          keeps_data = λ k i. i;
          keeps_code = λ k i. In-append k hs.code_headers (h ∷ []) i;
        },
        λ l. subst (λ (b : Bool). Selected h b after) (sym row.flag) (In-last h hs.code_headers),
      )

  Classified-data :
      (h : SegmentHeader) (hs : Headers)
      → IsUnwrapped h
      → IsInFile source h
      → IsFound native elf source hs
      → IsRow native elf source false h
      → Classified h hs (record hs { data_headers = hs.data_headers ++ (h ∷ []) })
  unfolding Selected
  Classified-data h hs u f found row =
      let after : Headers = record hs { data_headers = hs.data_headers ++ (h ∷ []) } in
      (
        record {
          data_rows =
              All-append (IsRow native elf source false) hs.data_headers (h ∷ []) found.data_rows
                (row, tt);
          code_rows = found.code_rows;
          data_sound = All-append IsUnwrapped hs.data_headers (h ∷ []) found.data_sound (u, tt);
          code_sound = found.code_sound;
          data_in_file =
              All-append (IsInFile source) hs.data_headers (h ∷ []) found.data_in_file (f, tt);
          code_in_file = found.code_in_file;
        },
        record {
          keeps_data = λ k i. In-append k hs.data_headers (h ∷ []) i;
          keeps_code = λ k i. i;
        },
        λ l. subst (λ (b : Bool). Selected h b after) (sym row.flag) (In-last h hs.data_headers),
      )

  pub classify-Classified :
      (h : SegmentHeader) (hs : Headers) (i : ℕ)
      → i < elf.program_header_entry_count
      → h ≡ segment_at source (elf.program_header_offset + i * 56)
      → IsSound h
      → IsFound native elf source hs
      → Ends (Classified h hs) (IsBadRow native elf source) (classify source h hs)
  unfolding classify
  classify-Classified h hs i lt read sound found = elim (Bool-cases (h.type == type_load)) [
    | inr e ↦ rw e (
        Classified-skipped h hs found
          (λ l. absurd (omega (arith, ==-ne h.type type_load e, l.type))))
    | inl e ↦ elim (Bool-cases (h.source_size == 0 && h.destination_size == 0)) [
      | inl empty ↦
          rw (e, empty) (Classified-skipped h hs found (λ l. false≢true (sym l.not_empty ∙ empty)))
      | inr full ↦
          let type : h.type ≡ type_load = ==→eq h.type type_load e in
          let u : IsUnwrapped h = sound type in
          let end : source_end h ≡ h.source_start + h.source_size = source_end-eq h u in
          let row : (b : Bool) → is_executable h ≡ b → IsRow native elf source b h = λ b x. record {
            index = i;
            in_table = lt;
            read = read;
            loadable = record { type = type; not_empty = full };
            flag = x;
          } in
          elim (Bool-cases (ltb (length source) (source_end h))) [
            | inl over ↦
                rw (e, full, over)
                  (record {
                    thrown = refl;
                    header = h;
                    row = row (is_executable h) refl;
                    outside = λ f. absurd (omega (arith, ltb→lt _ _ over, end, f));
                  })
            | inr within ↦
                let f : IsInFile source h = omega (arith, ltb-false→le _ _ within, end) in
                elim (Bool-cases (is_executable h)) [
                  | inl x ↦ rw (e, full, within, x) (Classified-code h hs u f found (row true x))
                  | inr x ↦ rw (e, full, within, x) (Classified-data h hs u f found (row false x))
                ]
          ]
    ]
  ]
