-- ===== src/Arena/Fill.antt =====
-- src/riscv/utils/arena.hpp: what `allocate` of an array writes.
use simple_risc_v_emulator.Common.{ℕ, zero, suc, ◌+◌, ◌-◌, ◌*◌, ◌%◌, ◌^◌, ◌≤◌, ◌<◌, ◌≡◌, ◌∙◌}
use simple_risc_v_emulator.Common.{refl, subst, arith, List, length, get_elem?}
use simple_risc_v_emulator.Common.{replicate}
use simple_risc_v_emulator.Common.{length-replicate, ltb, if◌then◌else◌, ok, throw, bad_alloc}
use simple_risc_v_emulator.Common.{some, ◌⊎◌, inl, inr}
use simple_risc_v_emulator.Arena.{Arena, allocate_array, construct_items, write_at}
use simple_risc_v_emulator.Arena.Write.{IsWritten, write_at-IsWritten}
use simple_risc_v_emulator.Arena.Laws.{
  IsArena, free_start, allocate_raw-cases, allocate_raw-IsAllocated,
}

-- `after` is `before` with the `size` bytes from `offset` on set to zero.
pub record IsZeroed (offset size : ℕ) (before after : List ℕ) : Type 0 where
  pub same_length : length after ≡ length before
  pub bytes :
      (i : ℕ)
      → get_elem? after i ≡ (
          if ltb i offset
          then get_elem? before i
          else if ltb i (offset + size)
          then some 0
          else get_elem? before i)

pub get_elem?-zeros : (k i : ℕ) → i < k → get_elem? {A = ℕ} (replicate k 0) i ≡ some 0
get_elem?-zeros zero i h = elim h [ ]
get_elem?-zeros (suc k) zero h = refl
get_elem?-zeros (suc k) (suc i) h = get_elem?-zeros k i (omega arith)

IsWritten-zeros :
    (offset k : ℕ) (before after : List ℕ)
    → IsWritten offset (replicate k 0) before after
    → IsZeroed offset k before after
IsWritten-zeros offset k before after w = record {
  same_length = w.same_length;
  bytes = λ i.
      ground (arith, w.content i, length-replicate {A = ℕ} k 0, get_elem?-zeros k (i - offset));
}

-- One item.
write_at-zeros :
    (a : Arena) (pointer k : ℕ)
    → a.base ≤ pointer
    → pointer + k ≤ a.base + length a.storage
    → (s : List ℕ) × (write_at a pointer (replicate k 0) ≡ ok (record a { storage = s }))
      × IsZeroed (pointer - a.base) k a.storage s
write_at-zeros a pointer k low high =
    let (s, e, w) =
      write_at-IsWritten a pointer (replicate k 0) low
        (omega (arith, high, length-replicate {A = ℕ} k 0)) in
    (s, e, IsWritten-zeros (pointer - a.base) k a.storage s w)

IsZeroed-empty : (offset : ℕ) (s : List ℕ) → IsZeroed offset 0 s s
IsZeroed-empty offset s = record { same_length = refl; bytes = λ i. ground arith }

-- Two regions, one behind the other.
IsZeroed-join :
    (offset k n : ℕ) (s s' s'' : List ℕ)
    → IsZeroed offset k s s'
    → IsZeroed (offset + k) n s' s''
    → IsZeroed offset (k + n) s s''
IsZeroed-join offset k n s s' s'' z y = record {
  same_length = y.same_length ∙ z.same_length;
  bytes = λ i. ground (arith, y.bytes i, z.bytes i);
}

construct_items-IsZeroed :
    (item_size rounds pointer : ℕ) (a : Arena)
    → a.base ≤ pointer
    → pointer + item_size * rounds ≤ a.base + length a.storage
    → (s : List ℕ) × (construct_items item_size rounds pointer a ≡ ok (record a { storage = s }))
      × IsZeroed (pointer - a.base) (item_size * rounds) a.storage s
unfolding construct_items
construct_items-IsZeroed k zero pointer a low high =
    let none : 0 ≡ k * 0 = omega arith in
    (
      a.storage,
      refl,
      subst (λ (n : ℕ). IsZeroed (pointer - a.base) n a.storage a.storage) none
          (IsZeroed-empty (pointer - a.base) a.storage),
    )
construct_items-IsZeroed k (suc rounds) pointer a low high =
    let all : k + k * rounds ≡ k * suc rounds = grind arith in
    let (s, written, zeroed) = write_at-zeros a pointer k low (omega (arith, all, high)) in
    let next : Arena = record a { storage = s } in
    let (s', filled, more) =
      construct_items-IsZeroed k rounds (pointer + k) next (omega arith)
        (omega (arith, all, high, zeroed.same_length)) in
    let behind : pointer + k - a.base ≡ pointer - a.base + k = omega (arith, low) in
    (
      s',
      rw written filled,
      subst (λ (n : ℕ). IsZeroed (pointer - a.base) n a.storage s') all
          (IsZeroed-join (pointer - a.base) k (k * rounds) a.storage s s' zeroed
            (subst (λ (o : ℕ). IsZeroed o (k * rounds) s s') behind more)),
    )

-- What a successful array allocation leaves: the items at `p` in the storage `s`, and the free
-- space `left`.
pub record IsArray (size alignment : ℕ) (a : Arena) (p left : ℕ) (s : List ℕ) : Type 0 where
  pub aligned : p % alignment ≡ 0
  pub above : free_start a ≤ p
  pub near : p < free_start a + alignment
  pub inside : p + size ≤ a.base + length a.storage
  pub left_at : p + left ≡ a.base + length a.storage
  pub zeroed : IsZeroed (p - a.base) size a.storage s
  pub arena : IsArena (record a { free_space = left; storage = s })

pub allocate_array-cases :
    (item_size alignment item_count : ℕ) (a : Arena)
    → IsArena a
    → 0 < alignment
    → item_size * item_count < 2 ^ 64
    → (allocate_array item_size alignment item_count a ≡ throw bad_alloc)
      ⊎ ((p : ℕ) × (left : ℕ) × (s : List ℕ) × (allocate_array item_size alignment item_count a
            ≡ ok (p, record a { free_space = left; storage = s }))
          × IsArray (item_size * item_count) alignment a p left s)
unfolding allocate_array
allocate_array-cases item_size alignment item_count a v h fits =
    let size : ℕ = item_size * item_count in
    let unwrapped : size % 2 ^ 64 ≡ size = omega (arith, fits) in
    elim (allocate_raw-cases size alignment a v) [
      | inl full ↦ inl (rw (unwrapped, full))
      | inr got ↦
          let (p, left, e) = got in
          let a' : Arena = record a { free_space = left } in
          let (r, v') = allocate_raw-IsAllocated size alignment a p a' v h e in
          let (s, filled, zeroed) =
            construct_items-IsZeroed item_size item_count p a' (omega (arith, r.above)) r.inside in
          inr (
            p,
            left,
            s,
            rw (unwrapped, e, filled),
            record {
              aligned = r.aligned;
              above = r.above;
              near = r.near;
              inside = r.inside;
              left_at = r.left;
              zeroed = zeroed;
              arena = record {
                free_le = omega (arith, v'.free_le, zeroed.same_length);
                size_lt = omega (arith, v'.size_lt, zeroed.same_length);
              };
            },
          )
    ]
