-- ===== src/App/Memory.antt =====
-- src/app.cpp: the framebuffer in the emulator's memory.
use native.Mathlib.Nat.{mul-le-mul_right}
use simple_risc_v_emulator.Common.{ℕ, ◌+◌, ◌*◌, ◌%◌, ◌^◌, ◌≤◌, ◌<◌, ◌≡◌, arith}
use simple_risc_v_emulator.Common.{List, get_elem?, some, inl, inr, ◌⊎◌}
use simple_risc_v_emulator.Common.{ok, throw, runtime_error, no_memory_for_framebuffer}
use simple_risc_v_emulator.Arena.{Arena}
use simple_risc_v_emulator.Arena.Laws.{IsArena, free_start}
use simple_risc_v_emulator.Arena.Fill.{IsArray, allocate_array-cases}
use simple_risc_v_emulator.Emulator.Syscalls.{Emulator}
use simple_risc_v_emulator.Elf.Load.{Host}
use simple_risc_v_emulator.Common.{◌∙◌, ◌-◌, ltb-false, lt→ltb}
use simple_risc_v_emulator.Elf.Correct.{IsLoaded}
use simple_risc_v_emulator.App.Options.{Options, IsPositive}
use simple_risc_v_emulator.App.State.{allocate_framebuffer}

-- Two positive `int32_t` have a product that `size_t` holds, also in bytes.
pub area-lt : (w h : ℕ) → IsPositive w → IsPositive h → w * h < 2 ^ 62
area-lt w h pw ph =
    let bound : w ≤ 2147483647 = omega (arith, pw.1) in
    omega (arith, mul-le-mul_right h bound, ph.1)

-- The framebuffer in the arena.
pub allocate_framebuffer-cases :
    (o : Options) (a : Arena)
    → IsArena a
    → IsPositive o.framebuffer_width
    → IsPositive o.framebuffer_height
    → (allocate_framebuffer o a ≡ throw (runtime_error no_memory_for_framebuffer))
      ⊎ ((p : ℕ) × (left : ℕ) × (s : List ℕ) × (allocate_framebuffer o a
            ≡ ok (p, record a { free_space = left; storage = s }))
          × IsArray (4 * (o.framebuffer_width * o.framebuffer_height)) 4 a p left s)
unfolding allocate_framebuffer
allocate_framebuffer-cases o a v pw ph =
    let area : ℕ = o.framebuffer_width * o.framebuffer_height in
    let lt : area < 2 ^ 62 = area-lt o.framebuffer_width o.framebuffer_height pw ph in
    let same : area % 2 ^ 64 ≡ area = omega (arith, lt) in
    elim (allocate_array-cases 4 4 area a v (omega arith) (omega (arith, lt))) [
      | inl full ↦ inl (rw (same, full))
      | inr (p, left, s, e, array) ↦ inr (p, left, s, rw (same, e), array)
    ]

-- In a loaded program, the framebuffer lies over the data segments: when its allocation succeeds,
-- it begins less than four bytes behind the start of their region, and each byte of the
-- emulator's memory from the fourth byte of that region on is zero, as far as the framebuffer
-- reaches, whatever data the file had there.
pub allocate_framebuffer-overwrites :
    {H : Type 0} (host : Host) (source : List ℕ) (before loaded : Emulator H) (o : Options)
    (l : IsLoaded host source before loaded) (p : ℕ) (memory : Arena)
    → IsPositive o.framebuffer_width
    → IsPositive o.framebuffer_height
    → allocate_framebuffer o loaded.memory ≡ ok (p, memory)
    → (p < loaded.memory.base + l.data_loaded.offset + 4)
      × ((j : ℕ)
          → l.data_loaded.offset + 3 ≤ j
          → j < l.data_loaded.offset + 4 * (o.framebuffer_width * o.framebuffer_height)
          → get_elem? memory.storage j ≡ some 0)
allocate_framebuffer-overwrites host source before loaded o l p memory pw ph e =
    let d = l.data_loaded in
    elim (allocate_framebuffer-cases o loaded.memory d.arena pw ph) [
      | inl full ↦ absurd (cc)
      | inr (q, left, s, got, array) ↦
          let same_p : p ≡ q = cc in
          let same_memory : memory ≡ record loaded.memory { free_space = left; storage = s } = cc in
          let start : free_start loaded.memory ≡ loaded.memory.base + d.offset =
            omega (arith, d.start_at, d.same_length) in
          rw (same_p, same_memory)
            (
              omega (arith, array.near, start),
              λ j low high.
                  array.zeroed.bytes j
                  ∙ rw (
                    ltb-false j (q - loaded.memory.base) (omega (arith, array.near, start)),
                    lt→ltb j
                        (q - loaded.memory.base + 4 * (o.framebuffer_width * o.framebuffer_height))
                        (omega (arith, array.above, start)),
                  ),
            )
    ]
