-- ===== src/Memory.antt =====
-- src/riscv/utils/memory.hpp: unaligned little-endian memory access. A pointer is the list of the
-- bytes from it to the end of its buffer, and an access past the end is undefined. The order
-- `std::endian::native` of the host is an argument.
pub mod Value
pub mod Host
pub mod RoundTrip
use simple_risc_v_emulator.Common.{
  ℕ, zero, suc, ◌+◌, ◌*◌, ◌/◌, ◌%◌, ◌^◌, bit_or, List, [], ◌∷◌, ◌++◌,
}
use simple_risc_v_emulator.Common.{length, get_elem?, set, take, drop, ltb, if◌then◌else◌}
use simple_risc_v_emulator.Common.{Result, ok, undefined, defined, ◌>>=◌}

pub data Endian : Type 0 where
  little big : Endian

-- The unsigned integer whose bytes stand in memory lowest first, and those bytes.
abbrev pub little_endian_value : List ℕ → ℕ
little_endian_value [] = 0
little_endian_value (b ∷ bs) = b + 256 * little_endian_value bs

abbrev pub little_endian_bytes : ℕ → ℕ → List ℕ
little_endian_bytes zero value = []
little_endian_bytes (suc n) value = value % 256 ∷ little_endian_bytes n (value / 256)

-- `std::memcpy` between an integer of `size` bytes and memory, on a little-endian host.
abbrev pub memcpy_from : ℕ → List ℕ → Result ℕ
memcpy_from size ptr =
    if ltb (length ptr) size then undefined else ok (little_endian_value (take size ptr))

abbrev pub memcpy_to : ℕ → List ℕ → ℕ → Result (List ℕ)
memcpy_to size ptr value =
    if ltb (length ptr) size
    then undefined
    else ok (little_endian_bytes size value ++ drop size ptr)

-- `ptr[i]` and `ptr[i] = value`.
abbrev pub read_byte : List ℕ → ℕ → Result ℕ
read_byte ptr i = defined (get_elem? ptr i)

abbrev pub write_byte : List ℕ → ℕ → ℕ → Result (List ℕ)
write_byte ptr i value = if ltb i (length ptr) then ok (set ptr i value) else undefined

-- `static_cast<T>(ptr[i]) << shift`
abbrev pub read_shifted : List ℕ → ℕ → ℕ → Result ℕ
read_shifted ptr i shift = do b ← read_byte ptr i; ok (b * 2 ^ shift)

unfoldable pub load_u16 : Endian → List ℕ → Result ℕ
load_u16 little ptr = memcpy_from 2 ptr
load_u16 big ptr = do b0 ← read_byte ptr 0; b1 ← read_shifted ptr 1 0o10; ok (bit_or b0 b1)

unfoldable pub load_u32 : Endian → List ℕ → Result ℕ
load_u32 little ptr = memcpy_from 4 ptr
load_u32 big ptr = do
  b0 ← read_byte ptr 0
  b1 ← read_shifted ptr 1 0o10
  b2 ← read_shifted ptr 2 0o20
  b3 ← read_shifted ptr 3 0o30
  ok (bit_or (bit_or (bit_or b0 b1) b2) b3)

unfoldable pub load_u64 : Endian → List ℕ → Result ℕ
load_u64 little ptr = memcpy_from 8 ptr
load_u64 big ptr = do
  b0 ← read_byte ptr 0
  b1 ← read_shifted ptr 1 0o10
  b2 ← read_shifted ptr 2 0o20
  b3 ← read_shifted ptr 3 0o30
  b4 ← read_shifted ptr 4 0o40
  b5 ← read_shifted ptr 5 0o50
  b6 ← read_shifted ptr 6 0o60
  b7 ← read_shifted ptr 7 0o70
  ok (bit_or (bit_or (bit_or (bit_or (bit_or (bit_or (bit_or b0 b1) b2) b3) b4) b5) b6) b7)

-- `static_cast<uint8_t>(value >> shift)`
abbrev pub byte_of : ℕ → ℕ → ℕ
byte_of value shift = value / 2 ^ shift % 2 ^ 8

unfoldable pub store_u16 : Endian → List ℕ → ℕ → Result (List ℕ)
store_u16 little ptr value = memcpy_to 2 ptr value
store_u16 big ptr value = do
  ptr ← write_byte ptr 0 (byte_of value 0)
  write_byte ptr 1 (byte_of value 0o10)

unfoldable pub store_u32 : Endian → List ℕ → ℕ → Result (List ℕ)
store_u32 little ptr value = memcpy_to 4 ptr value
store_u32 big ptr value = do
  ptr ← write_byte ptr 0 (byte_of value 0)
  ptr ← write_byte ptr 1 (byte_of value 0o10)
  ptr ← write_byte ptr 2 (byte_of value 0o20)
  write_byte ptr 3 (byte_of value 0o30)

unfoldable pub store_u64 : Endian → List ℕ → ℕ → Result (List ℕ)
store_u64 little ptr value = memcpy_to 8 ptr value
store_u64 big ptr value = do
  ptr ← write_byte ptr 0 (byte_of value 0)
  ptr ← write_byte ptr 1 (byte_of value 0o10)
  ptr ← write_byte ptr 2 (byte_of value 0o20)
  ptr ← write_byte ptr 3 (byte_of value 0o30)
  ptr ← write_byte ptr 4 (byte_of value 0o40)
  ptr ← write_byte ptr 5 (byte_of value 0o50)
  ptr ← write_byte ptr 6 (byte_of value 0o60)
  write_byte ptr 7 (byte_of value 0o70)
