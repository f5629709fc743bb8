-- ===== src/Elf/Found.antt =====
-- src/riscv/elf.cpp: `readSegmentHeaders` on a table of program headers that lies in the file.
pub mod Round
pub mod Loop
pub mod Chosen
use simple_risc_v_emulator.Common.{
  ℕ, zero, suc, ◌+◌, ◌*◌, ◌%◌, ◌^◌, ◌≤◌, ◌<◌, ◌≡◌, ◌∙◌, refl, sym, subst, arith,
}
use simple_risc_v_emulator.Common.{
  List, [], ◌∷◌, ◌++◌, All, All-append, length, bit_and, ltb, ◌==◌, not,
}
use simple_risc_v_emulator.Common.{
  Bool, true, false, if◌then◌else◌, Bool-cases, ltb-false→le, ltb→lt, ==→eq, inl, inr, ◌⊎◌, ◌&&◌,
  ==-ne,
}
use simple_risc_v_emulator.Common.{Result, ok, throw, undefined, ◌>>=◌}
use mathlib.Core.Bool.{false≢true}
use simple_risc_v_emulator.Memory.{Endian}
use simple_risc_v_emulator.Memory.Value.{IsByte}
use simple_risc_v_emulator.Common.{Exception, runtime_error, segment_out_of_bounds}
use simple_risc_v_emulator.Elf.Ends.{Ends, Ends-bind, Ends-weaken}
use simple_risc_v_emulator.Elf.Header.{ElfHeader}
use simple_risc_v_emulator.Elf.Segments.{
  SegmentHeader, Headers, type_load, flag_executable, source_end, classify, entry_offset,
  read_segment_header, read_segments, read_segment_headers,
}
use simple_risc_v_emulator.Elf.Format.{segment_at}
use simple_risc_v_emulator.Elf.Layout.{IsUnwrapped}
use simple_risc_v_emulator.Elf.Mapped.{IsInFile}

-- The value has the property, if there is one.
abbrev pub IfOk {ℓ} : {A : Type ℓ} → (A → Type 0) → Result A → Type 0
IfOk P (ok a) = P a
IfOk P (throw e) = Unit {0}
IfOk P undefined = Unit {0}

-- The program headers from number `i` on have the property.
abbrev pub Rows : (SegmentHeader → Type 0) → Endian → ElfHeader → List ℕ → ℕ → ℕ → Type 0
Rows P native elf source zero i = Unit {0}
Rows P native elf source (suc rounds) i =
    IfOk P (read_segment_header native source (entry_offset elf i))
    × Rows P native elf source rounds (i + 1)

-- A segment that is loaded has ends of 64 bits.
abbrev pub IsSound : SegmentHeader → Type 0
IsSound h = h.type ≡ type_load → IsUnwrapped h

abbrev pub In : SegmentHeader → List SegmentHeader → Type 0
In h [] = ⊥
In h (x ∷ hs) = (h ≡ x) ⊎ In h hs

pub All-In :
    (P : SegmentHeader → Type 0) (h : SegmentHeader) (hs : List SegmentHeader)
    → All P hs
    → In h hs
    → P h
All-In P h [] all i = absurd i
All-In P h (x ∷ hs) all (inl e) = subst P (sym e) all.0
All-In P h (x ∷ hs) all (inr i) = All-In P h hs all.1 i

pub In-append : (h : SegmentHeader) (hs ks : List SegmentHeader) → In h hs → In h (hs ++ ks)
In-append h [] ks i = absurd i
In-append h (x ∷ hs) ks (inl e) = inl e
In-append h (x ∷ hs) ks (inr i) = inr (In-append h hs ks i)

pub In-last : (h : SegmentHeader) (hs : List SegmentHeader) → In h (hs ++ (h ∷ []))
In-last h [] = inl refl
In-last h (x ∷ hs) = inr (In-last h hs)

-- To be loaded: of the type, and not empty both in the file and in memory.
pub record IsLoadable (h : SegmentHeader) : Type 0 where
  pub type : h.type ≡ type_load
  pub not_empty : (h.source_size == 0 && h.destination_size == 0) ≡ false

-- The list of the two in which a segment stands, by its flag.
abbrev pub is_executable : SegmentHeader → Bool
is_executable h = not (bit_and h.flags flag_executable == 0)

abbrev pub IsListed : Headers → SegmentHeader → Type 0
IsListed hs h = IsLoadable h → In h (if is_executable h then hs.code_headers else hs.data_headers)

-- A row of the table that is to be loaded, into the list that its flag selects.
pub record IsRow (native : Endian) (elf : ElfHeader) (source : List ℕ) (executable : Bool)
    (h : SegmentHeader) : Type 0 where
  pub index : ℕ
  pub in_table : index < elf.program_header_entry_count
  pub read : h ≡ segment_at source (elf.program_header_offset + index * 56)
  pub loadable : IsLoadable h
  pub flag : is_executable h ≡ executable

-- The segments found so far are rows of the table and can be loaded.
pub record IsFound (native : Endian) (elf : ElfHeader) (source : List ℕ) (hs : Headers)
    : Type 0 where
  pub data_rows : All (IsRow native elf source false) hs.data_headers
  pub code_rows : All (IsRow native elf source true) hs.code_headers
  pub data_sound : All IsUnwrapped hs.data_headers
  pub code_sound : All IsUnwrapped hs.code_headers
  pub data_in_file : All (IsInFile source) hs.data_headers
  pub code_in_file : All (IsInFile source) hs.code_headers

-- No segment leaves its list.
pub record IsExtended (before after : Headers) : Type 0 where
  pub keeps_data : (h : SegmentHeader) → In h before.data_headers → In h after.data_headers
  pub keeps_code : (h : SegmentHeader) → In h before.code_headers → In h after.code_headers

pub IsExtended-refl : (hs : Headers) → IsExtended hs hs
IsExtended-refl hs = record { keeps_data = λ h i. i; keeps_code = λ h i. i }

pub IsExtended-trans : (a b c : Headers) → IsExtended a b → IsExtended b c → IsExtended a c
IsExtended-trans a b c f g = record {
  keeps_data = λ h i. g.keeps_data h (f.keeps_data h i);
  keeps_code = λ h i. g.keeps_code h (f.keeps_code h i);
}

-- The list that the flag selects.
unfoldable pub Selected : SegmentHeader → Bool → Headers → Type 0
Selected h b hs = In h (if b then hs.code_headers else hs.data_headers)

pub IsExtended-Selected :
    (before after : Headers) (h : SegmentHeader) (b : Bool)
    → IsExtended before after
    → Selected h b before
    → Selected h b after
unfolding Selected
IsExtended-Selected before after h true ext i = ext.keeps_code h i
IsExtended-Selected before after h false ext i = ext.keeps_data h i

pub IsExtended-IsListed :
    (before after : Headers) (h : SegmentHeader)
    → IsExtended before after
    → IsListed before h
    → IsListed after h
unfolding Selected
IsExtended-IsListed before after h ext listed l =
    IsExtended-Selected before after h (is_executable h) ext (listed l)

pub source_end-eq :
    (h : SegmentHeader) → IsUnwrapped h → source_end h ≡ h.source_start + h.source_size
unfolding source_end
source_end-eq h u = omega (arith, u.source_lt)

-- The reason for which a row is refused: the copied part leaves the file.
pub record IsBadRow (native : Endian) (elf : ElfHeader) (source : List ℕ) (e : Exception)
    : Type 0 where
  pub thrown : e ≡ runtime_error segment_out_of_bounds
  pub header : SegmentHeader
  pub row : IsRow native elf source (is_executable header) header
  pub outside : ¬ IsInFile source header
