-- ===== src/Arena/Cleanup.antt =====
-- src/riscv/utils/arena.hpp: what is destroyed when the constructor of an item throws.
use simple_risc_v_emulator.Common.{
  if◌then◌else◌, ltb-false, ==-false, ℕ, zero, suc, ◌+◌, ◌*◌, ◌%◌, ◌^◌, ◌≤◌, ◌<◌, ◌≡◌, ◌∙◌, ap,
  refl, arith,
}
use simple_risc_v_emulator.Common.{List, [], ◌∷◌, length, Bool, false, ltb, leb, ◌==◌, ◌&&◌, ◌||◌}
use simple_risc_v_emulator.Common.{
  Exception, Result, ok, throw, undefined, bad_alloc, ◌⊎◌, inl, inr, Bool-cases, ==→eq, ==-ne,
}
use simple_risc_v_emulator.Arena.{Arena}
use simple_risc_v_emulator.Arena.Laws.{IsArena, allocate_raw-cases, allocate_raw-IsAllocated}
use simple_risc_v_emulator.Arena.Write.{write_at-IsWritten}
use simple_risc_v_emulator.Arena.Items.{
  stopped, destroy_items, rethrow, after_build, build_items, allocate_items,
}

abbrev pub contains : ℕ → List ℕ → Bool
contains k [] = false
contains k (x ∷ xs) = k == x || contains k xs

contains-destroy_items : (i k : ℕ) → contains k (destroy_items i) ≡ (ltb 0 k && leb k i)
unfolding destroy_items
contains-destroy_items zero k = ground arith
contains-destroy_items (suc i) k = ground (arith, contains-destroy_items i k)

-- Among the destroyed items is one that was not constructed, unless there are none.
destroy_items-result :
    (i : ℕ) (e : Exception)
    → rethrow i e (destroy_items i) ≡ (if i == 0 then throw e else undefined)
unfolding destroy_items
destroy_items-result zero e = refl
destroy_items-result (suc i) e =
    rw (ltb-false (suc i) (suc i) (omega arith), ==-false (suc i) 0 (omega arith))

-- The items of a call, the first `i` of which have constructors that return.
pub record IsStopped (construct : ℕ → Result (List ℕ)) (item_size i : ℕ) (e : Exception)
    : Type 0 where
  pub returns :
      (j : ℕ) → j < i → (bytes : List ℕ) × (construct j ≡ ok bytes) × (length bytes ≡ item_size)
  pub throws : construct i ≡ throw e

le_or_eq : (k i : ℕ) → k ≤ i → (k < i) ⊎ (k ≡ i)
le_or_eq k i h = elim (Bool-cases (k == i)) [
  | inl e ↦ inr (==→eq k i e)
  | inr e ↦ inl (omega (arith, ==-ne k i e))
]

module _ (construct : ℕ → Result (List ℕ)) (item_size i : ℕ) (e : Exception)
    (s : IsStopped construct item_size i e) where
  build_items-stopped :
      (rounds k pointer : ℕ) (a : Arena)
      → k ≤ i
      → i < k + rounds
      → a.base ≤ pointer
      → pointer + item_size * rounds ≤ a.base + length a.storage
      → (a' : Arena) × (build_items construct item_size rounds k pointer a ≡ stopped i e a')
  unfolding build_items
  build_items-stopped zero k pointer a low high above inside = absurd (omega arith)
  build_items-stopped (suc rounds) k pointer a low high above inside = elim (le_or_eq k i low) [
    | inr here ↦
        let throws : construct k ≡ throw e = ap construct here ∙ s.throws in
        (a, rw (throws, build_items) (ap (λ (n : ℕ). stopped n e a) here))
    | inl before ↦
        let (bytes, made, size) = s.returns k before in
        let all : item_size + item_size * rounds ≡ item_size * suc rounds = grind arith in
        let (storage, written, w) =
          write_at-IsWritten a pointer bytes above (omega (arith, size, all, inside)) in
        let next : Arena = record a { storage = storage } in
        let (a', built) =
          build_items-stopped rounds (k + 1) (pointer + item_size) next (omega arith) (omega arith)
            (omega arith) (omega (arith, all, inside, w.same_length)) in
        (a', rw (made, written, build_items) built)
  ]

-- The `catch (...)` of the array allocation does not destroy the items that were constructed: when
-- the constructor of item `i` throws, with the items before it constructed, the items from 1 to `i`
-- are destroyed, so that item `i`, which does not exist, is among them when `i` is not zero, which
-- is undefined, and item 0, which then does, is not. Only when it is the first item that throws is
-- the exception passed on. The allocation of the bytes may throw `std::bad_alloc` before that.
pub allocate_items-stopped :
    (construct : ℕ → Result (List ℕ)) (item_size alignment item_count i : ℕ) (e : Exception)
    (a : Arena)
    → IsArena a
    → 0 < alignment
    → item_size * item_count < 2 ^ 64
    → i < item_count
    → IsStopped construct item_size i e
    → ((allocate_items construct item_size alignment item_count a).result ≡ throw bad_alloc)
      ⊎ (((allocate_items construct item_size alignment item_count a).result
            ≡ (if i == 0 then throw e else undefined))
          × ((k : ℕ)
              → contains k (allocate_items construct item_size alignment item_count a).destroyed
                ≡ (ltb 0 k && leb k i)))
unfolding allocate_items after_build
allocate_items-stopped construct item_size alignment item_count i e a v pos fits lt s =
    let size : ℕ = item_size * item_count in
    let unwrapped : size % 2 ^ 64 ≡ size = omega (arith, fits) in
    elim (allocate_raw-cases size alignment a v) [
      | inl full ↦ inl (rw (unwrapped, full, allocate_items))
      | inr (p, left, got) ↦
          let a' : Arena = record a { free_space = left } in
          let (r, v') = allocate_raw-IsAllocated size alignment a p a' v pos got in
          let (a'', built) =
            build_items-stopped construct item_size i e s item_count 0 p a' (omega arith)
              (omega arith) (omega (arith, r.above)) r.inside in
          inr (
            rw (unwrapped, got, built, allocate_items) (destroy_items-result i e),
            λ k. rw (unwrapped, got, built, allocate_items) (contains-destroy_items i k),
          )
    ]
