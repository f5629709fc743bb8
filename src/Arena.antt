-- ===== src/Arena.antt =====
-- src/riscv/utils/arena.hpp: the arena that holds the guest memory. `base` is the address of the
-- first byte of `storage`, whatever the allocator chose. `size_t` has 64 bits. Items and objects
-- are of the arithmetic types that the program allocates, whose construction does not throw.
pub mod Align
pub mod Laws
pub mod Write
pub mod Fill
pub mod Items
pub mod Cleanup
use simple_risc_v_emulator.Common.{ℕ, zero, suc, ◌+◌, ◌-◌, ◌*◌, ◌/◌, ◌%◌, ◌^◌, List, ◌++◌}
use simple_risc_v_emulator.Common.{length, take, drop, replicate, ltb, if◌then◌else◌}
use simple_risc_v_emulator.Common.{
  Option, none, some, Result, ok, throw, undefined, bad_alloc, ◌>>=◌,
}

pub record Arena : Type 0 where
  pub base : ℕ
  pub storage : List ℕ
  pub free_space : ℕ

-- `Arena(size_t capacity)`, with the storage at the address `base`.
unfoldable pub make_arena : ℕ → ℕ → Arena
make_arena base capacity = record {
  base = base;
  storage = replicate capacity 0;
  free_space = capacity;
}

unfoldable pub get_free_space : Arena → ℕ
get_free_space a = a.free_space

unfoldable pub get_free_offset : Arena → ℕ
get_free_offset a = (length a.storage + 2 ^ 64 - a.free_space) % 2 ^ 64

-- The two arguments that `std::align` writes.
pub record Aligned : Type 0 where
  pub pointer : ℕ
  pub space : ℕ

-- The next multiple of `alignment` at or above `pointer`.
abbrev pub align_up : ℕ → ℕ → ℕ
align_up alignment pointer = (pointer + (alignment - 1)) / alignment * alignment

-- `std::align`: on success `space` shrinks by the padding only; `none` is `nullptr`.
unfoldable pub align : ℕ → ℕ → ℕ → ℕ → Option Aligned
align alignment size pointer space =
    if ltb space (align_up alignment pointer - pointer + size)
    then none
    else some (record {
      pointer = align_up alignment pointer;
      space = space - (align_up alignment pointer - pointer);
    })

-- `getFreeOffsetAlignedTo<T>()` with the alignment and size of `T`.
unfoldable pub get_free_offset_aligned_to : ℕ → ℕ → Arena → ℕ
get_free_offset_aligned_to alignment size a =
    elim (align alignment size (a.base + get_free_offset a) a.free_space) [
      | none ↦ length a.storage
      | some r ↦ r.pointer - a.base
    ]

-- The pointer and the arena with its new free space.
unfoldable pub allocate_raw : ℕ → ℕ → Arena → Result (ℕ × Arena)
allocate_raw size alignment a =
    elim (align alignment size (a.base + get_free_offset a) a.free_space) [
      | none ↦ throw bad_alloc
      | some r ↦ ok (r.pointer, record a { free_space = r.space })
    ]

-- Bytes written at a pointer; outside the storage this is undefined.
unfoldable pub write_at : Arena → ℕ → List ℕ → Result Arena
write_at a pointer bytes =
    let offset = pointer - a.base in
    if ltb pointer a.base
    then undefined
    else if ltb (length a.storage) (offset + length bytes)
    then undefined
    else ok (record a {
      storage = take offset a.storage ++ bytes ++ drop (offset + length bytes) a.storage;
    })

-- `allocate<Object>(args...)`, where `object` holds the bytes of the constructed object.
unfoldable pub allocate_object : ℕ → List ℕ → Arena → Result (ℕ × Arena)
unfolding allocate_raw write_at
allocate_object alignment object a = do
  (pointer, a') ← allocate_raw (length object) alignment a
  a'' ← write_at a' pointer object
  ok (pointer, a'')

-- The loop of `allocate<Item[]>`, with `rounds` items left: each is value-initialised to zero.
unfoldable pub construct_items : ℕ → ℕ → ℕ → Arena → Result Arena
construct_items item_size zero pointer a = ok a
construct_items item_size (suc rounds) pointer a = do
  a' ← write_at a pointer (replicate item_size 0)
  construct_items item_size rounds (pointer + item_size) a'

-- `allocate<Item[]>(itemCount)`: the pointer of the span and the arena.
unfoldable pub allocate_array : ℕ → ℕ → ℕ → Arena → Result (ℕ × Arena)
unfolding construct_items write_at
allocate_array item_size alignment item_count a = do
  (pointer, a') ← allocate_raw (item_size * item_count % 2 ^ 64) alignment a
  a'' ← construct_items item_size item_count pointer a'
  ok (pointer, a'')
