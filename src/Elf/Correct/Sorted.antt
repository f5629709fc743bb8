-- ===== src/Elf/Correct/Sorted.antt =====
-- src/riscv/elf.cpp: the two sorted lists are those that were found, in another order.
use mathlib.Core.List.{Permᴰ}
use mathlib.Core.List.Permᴰ
use simple_risc_v_emulator.Common.{ℕ, zero, suc, ◌+◌, refl}
use simple_risc_v_emulator.Common.{List, [], ◌∷◌, All, inl, inr, true, false}
use simple_risc_v_emulator.Common.{Result, ok, throw, undefined}
use simple_risc_v_emulator.Memory.{Endian}
use simple_risc_v_emulator.Elf.Header.{ElfHeader}
use simple_risc_v_emulator.Elf.Segments.{SegmentHeader, Headers}
use simple_risc_v_emulator.Elf.Sort.{All-perm}
use simple_risc_v_emulator.Elf.Layout.{IsUnwrapped}
use simple_risc_v_emulator.Elf.Mapped.{IsInFile}
use simple_risc_v_emulator.Elf.Found.{IfOk, Rows, In, All-In, is_executable, IsListed, IsRow}
use simple_risc_v_emulator.Elf.Sort.{Sort}
use simple_risc_v_emulator.Elf.Segments.{read_segment_header}
use simple_risc_v_emulator.Elf.Segments.{entry_offset}
use simple_risc_v_emulator.Elf.Found.{Selected}
use simple_risc_v_emulator.Common.{Bool}
use simple_risc_v_emulator.Elf.Found.{IsFound}

IfOk-weaken :
    (P Q : SegmentHeader → Type 0) (r : Result SegmentHeader)
    → ((h : SegmentHeader) → P h → Q h)
    → IfOk P r
    → IfOk Q r
IfOk-weaken P Q (ok h) f p = f h p
IfOk-weaken P Q (throw e) f p = tt
IfOk-weaken P Q undefined f p = tt

Rows-weaken :
    (P Q : SegmentHeader → Type 0) (native : Endian) (elf : ElfHeader) (source : List ℕ)
    (rounds i : ℕ)
    → ((h : SegmentHeader) → P h → Q h)
    → Rows P native elf source rounds i
    → Rows Q native elf source rounds i
Rows-weaken P Q native elf source zero i f rows = tt
Rows-weaken P Q native elf source (suc rounds) i f rows = (
  IfOk-weaken P Q (read_segment_header native source (entry_offset elf i)) f rows.0,
  Rows-weaken P Q native elf source rounds (i + 1) f rows.1,
)

All-tail-In :
    (x : SegmentHeader) (hs ks : List SegmentHeader)
    → All (λ h. In h ks) hs
    → All (λ h. In h (x ∷ ks)) hs
All-tail-In x [] ks all = tt
All-tail-In x (h ∷ hs) ks all = (inr all.0, All-tail-In x hs ks all.1)

All-self : (hs : List SegmentHeader) → All (λ h. In h hs) hs
All-self [] = tt
All-self (h ∷ hs) = (inl refl, All-tail-In h hs hs (All-self hs))

In-perm : (h : SegmentHeader) (xs ys : List SegmentHeader) → Permᴰ xs ys → In h ys → In h xs
In-perm h xs ys perm i =
    All-In (λ k. In k xs) h ys (All-perm (λ k. In k xs) (Permᴰ.symm perm) (All-self xs)) i

module _ (s : Sort) where
  abbrev pub sort_both : Headers → Headers
  sort_both hs = record {
    data_headers = s.sort hs.data_headers;
    code_headers = s.sort hs.code_headers;
  }

  Selected-sort_both :
      (h : SegmentHeader) (b : Bool) (hs : Headers) → Selected h b hs → Selected h b (sort_both hs)
  unfolding Selected
  Selected-sort_both h true hs i =
      In-perm h (s.sort hs.code_headers) hs.code_headers (s.rearranged hs.code_headers) i
  Selected-sort_both h false hs i =
      In-perm h (s.sort hs.data_headers) hs.data_headers (s.rearranged hs.data_headers) i

  IsListed-sort_both :
      (h : SegmentHeader) (hs : Headers) → IsListed hs h → IsListed (sort_both hs) h
  unfolding Selected
  IsListed-sort_both h hs listed l = Selected-sort_both h (is_executable h) hs (listed l)

  pub sort_both-IsListed :
      (native : Endian) (source : List ℕ) (elf : ElfHeader) (hs : Headers) (rounds : ℕ)
      → Rows (IsListed hs) native elf source rounds 0
      → Rows (IsListed (sort_both hs)) native elf source rounds 0
  sort_both-IsListed native source elf hs rounds listed =
      Rows-weaken (IsListed hs) (IsListed (sort_both hs)) native elf source rounds 0
        (λ h. IsListed-sort_both h hs) listed

  pub sort_both-IsFound :
      (native : Endian) (source : List ℕ) (elf : ElfHeader) (hs : Headers)
      → IsFound native elf source hs
      → IsFound native elf source (sort_both hs)
  sort_both-IsFound native source elf hs f =
      let data_perm = s.rearranged hs.data_headers in
      let code_perm = s.rearranged hs.code_headers in
      record {
        data_rows = All-perm (IsRow native elf source false) data_perm f.data_rows;
        code_rows = All-perm (IsRow native elf source true) code_perm f.code_rows;
        data_sound = All-perm IsUnwrapped data_perm f.data_sound;
        code_sound = All-perm IsUnwrapped code_perm f.code_sound;
        data_in_file = All-perm (IsInFile source) data_perm f.data_in_file;
        code_in_file = All-perm (IsInFile source) code_perm f.code_in_file;
      }
