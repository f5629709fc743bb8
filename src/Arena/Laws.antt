-- ===== src/Arena/Laws.antt =====
-- src/riscv/utils/arena.hpp: `allocateRaw` and the aligned offset, with the alignment, the bounds
-- and the free space that is left.
use simple_risc_v_emulator.Common.{ℕ, ◌+◌, ◌-◌, ◌%◌, ◌^◌, ◌≤◌, ◌<◌, ◌≡◌, ◌∙◌, ap, refl, arith}
use simple_risc_v_emulator.Common.{length, ok, throw, bad_alloc, ◌⊎◌, inl, inr}
use native.Mathlib.Decide.{dec_lt}
use simple_risc_v_emulator.Arena.{Arena, get_free_offset, align_up, allocate_raw}
use simple_risc_v_emulator.Arena.{get_free_offset_aligned_to}
use simple_risc_v_emulator.Arena.Align.{align_up_bounds, align_up-aligned, align-fits, align-full}

-- The free space lies within a storage whose size is a `size_t`.
pub record IsArena (a : Arena) : Type 0 where
  pub free_le : a.free_space ≤ length a.storage
  pub size_lt : length a.storage < 2 ^ 64

pub get_free_offset-eq :
    (a : Arena) → IsArena a → get_free_offset a ≡ length a.storage - a.free_space
unfolding get_free_offset
get_free_offset-eq a v = omega arith

-- A pointer that `allocateRaw` returned for `size` bytes.
pub record IsAllocated (size alignment : ℕ) (a : Arena) (pointer : ℕ) (a' : Arena) : Type 0 where
  pub aligned : pointer % alignment ≡ 0
  pub above : a.base + (length a.storage - a.free_space) ≤ pointer
  pub near : pointer < a.base + (length a.storage - a.free_space) + alignment
  pub inside : pointer + size ≤ a.base + length a.storage
  pub same_storage : a' ≡ record a { free_space = a'.free_space }
  pub left : pointer + a'.free_space ≡ a.base + length a.storage

-- Address of the first free byte, and the bytes skipped from there for an alignment.
abbrev pub free_start : Arena → ℕ
free_start a = a.base + (length a.storage - a.free_space)

abbrev pub padding : ℕ → Arena → ℕ
padding alignment a = align_up alignment (free_start a) - free_start a

module _ (size alignment : ℕ) (a : Arena) (v : IsArena a) where
  pub allocate_raw-fits :
      padding alignment a + size ≤ a.free_space
      → allocate_raw size alignment a
        ≡ ok (
          align_up alignment (free_start a),
          record a { free_space = a.free_space - padding alignment a },
        )
  unfolding allocate_raw
  allocate_raw-fits h = rw (
    allocate_raw,
    get_free_offset-eq a v,
    align-fits alignment size (free_start a) a.free_space h,
  )

  -- `std::bad_alloc` is thrown when the padded size exceeds the free space.
  pub allocate_raw-full :
      a.free_space < padding alignment a + size → allocate_raw size alignment a ≡ throw bad_alloc
  unfolding allocate_raw
  allocate_raw-full h = rw (
    allocate_raw,
    get_free_offset-eq a v,
    align-full alignment size (free_start a) a.free_space h,
  )

  fits_or_full :
      (padding alignment a + size ≤ a.free_space) ⊎ (a.free_space < padding alignment a + size)
  fits_or_full = elim (dec_lt a.free_space (padding alignment a + size)) [
    | yes p ↦ inr p
    | no p ↦ inl (omega arith)
  ]

  -- The two outcomes of a raw allocation, as values.
  pub allocate_raw-inv :
      {p : ℕ} {a' : Arena}
      → allocate_raw size alignment a ≡ ok (p, a')
      → (padding alignment a + size ≤ a.free_space)
        × (p ≡ align_up alignment (free_start a))
        × (a' ≡ record a { free_space = a.free_space - padding alignment a })
  allocate_raw-inv e = elim fits_or_full [
    | inl h ↦ (h, cc (allocate_raw-fits h), cc (allocate_raw-fits h))
    | inr h ↦ absurd (cc (allocate_raw-full h))
  ]

pub allocate_raw-cases :
    (size alignment : ℕ) (a : Arena)
    → IsArena a
    → (allocate_raw size alignment a ≡ throw bad_alloc)
      ⊎ ((p : ℕ) × (left : ℕ) × (allocate_raw size alignment a
            ≡ ok (p, record a { free_space = left })))
allocate_raw-cases size alignment a v = elim (fits_or_full size alignment a v) [
  | inl k ↦ inr (
    align_up alignment (free_start a),
    a.free_space - padding alignment a,
    allocate_raw-fits size alignment a v k,
  )
  | inr k ↦ inl (allocate_raw-full size alignment a v k)
]

-- A pointer that `allocateRaw` returns is aligned and not below the first free byte, and its bytes
-- lie inside the storage; the storage is untouched, and the free space that is left begins at the
-- pointer itself.
pub allocate_raw-IsAllocated :
    (size alignment : ℕ) (a : Arena) (p : ℕ) (a' : Arena)
    → IsArena a
    → 0 < alignment
    → allocate_raw size alignment a ≡ ok (p, a')
    → IsAllocated size alignment a p a' × IsArena a'
allocate_raw-IsAllocated size alignment a p a' v h e =
    let (fits, pointer, arena) = allocate_raw-inv size alignment a v e in
    let (low, high, multiple) = align_up_bounds alignment (free_start a) h in
    rw (pointer, arena)
      (
        record {
          aligned = multiple;
          above = low;
          near = high;
          inside = omega arith;
          same_storage = refl;
          left = omega arith;
        },
        record { free_le = omega arith; size_lt = v.size_lt },
      )

-- `getFreeOffsetAlignedTo` foretells `allocateRaw`: it is the offset of the pointer that an
-- allocation of that size and alignment returns, and the size of the storage when it throws.
pub get_free_offset_aligned_to-allocate_raw :
    (size alignment : ℕ) (a : Arena)
    → IsArena a
    → 0 < alignment
    → ((p : ℕ) × (a' : Arena) × (allocate_raw size alignment a ≡ ok (p, a'))
        × (a.base + get_free_offset_aligned_to alignment size a ≡ p))
      ⊎ ((allocate_raw size alignment a ≡ throw bad_alloc)
          × (get_free_offset_aligned_to alignment size a ≡ length a.storage))
unfolding get_free_offset_aligned_to
get_free_offset_aligned_to-allocate_raw size alignment a v h =
    elim (fits_or_full size alignment a v) [
      | inl k ↦ inl (
        align_up alignment (free_start a),
        record a { free_space = a.free_space - padding alignment a },
        allocate_raw-fits size alignment a v k,
        rw
            (
              get_free_offset_aligned_to,
              get_free_offset-eq a v,
              align-fits alignment size (free_start a) a.free_space k,
            )
            (omega (arith, align_up_bounds alignment (free_start a) h)),
      )
      | inr k ↦ inr (
        allocate_raw-full size alignment a v k,
        rw (
          get_free_offset_aligned_to,
          get_free_offset-eq a v,
          align-full alignment size (free_start a) a.free_space k,
        ),
      )
    ]

-- An allocation whose first free byte is aligned already changes nothing.
pub allocate_raw-aligned :
    (size alignment : ℕ) (a : Arena)
    → IsArena a
    → 0 < alignment
    → free_start a % alignment ≡ 0
    → size ≤ a.free_space
    → allocate_raw size alignment a ≡ ok (free_start a, a)
allocate_raw-aligned size alignment a v h multiple fits =
    allocate_raw-fits size alignment a v (omega (arith, still))
    ∙ (λ i. ok (still i, record a { free_space = unpadded i }))
  where
    still : align_up alignment (free_start a) ≡ free_start a
    still = align_up-aligned alignment (free_start a) h multiple

    unpadded : a.free_space - padding alignment a ≡ a.free_space
    unpadded = omega (arith, still)

-- An allocation does not take its bytes from the free space: a second one of the same size and
-- alignment succeeds and returns the same pointer and the same arena.
pub allocate_raw-again :
    (size alignment : ℕ) (a : Arena) (p : ℕ) (a' : Arena)
    → IsArena a
    → 0 < alignment
    → allocate_raw size alignment a ≡ ok (p, a')
    → allocate_raw size alignment a' ≡ ok (p, a')
allocate_raw-again size alignment a p a' v h e =
    let (r, v') = allocate_raw-IsAllocated size alignment a p a' v h e in
    let start : free_start a' ≡ p = omega (arith, r.left, same_base r, same_size r) in
    allocate_raw-aligned size alignment a' v' h (rw start r.aligned)
      (omega (arith, r.left, r.inside))
    ∙ ap (λ (q : ℕ). ok (q, a')) start
  where
    same_base : IsAllocated size alignment a p a' → a'.base ≡ a.base
    same_base r = ap (λ (b : Arena). b.base) r.same_storage

    same_size : IsAllocated size alignment a p a' → length a'.storage ≡ length a.storage
    same_size r = ap (λ (b : Arena). length b.storage) r.same_storage
