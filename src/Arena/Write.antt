-- ===== src/Arena/Write.antt =====
-- src/riscv/utils/arena.hpp: bytes written into the storage, read back one by one.
use simple_risc_v_emulator.Common.{ℕ, zero, suc, ◌+◌, ◌-◌, ◌≤◌, ◌<◌, ◌≡◌, ◌∙◌}
use simple_risc_v_emulator.Common.{
  ap, refl, sym, arith, List, [], ◌∷◌, ◌++◌, length, get_elem?, take, drop, append_assoc,
}
use simple_risc_v_emulator.Common.{length-append, length-take, length-drop}
use simple_risc_v_emulator.Common.{
  ltb, if◌then◌else◌, ok, true, false, ltb-false, lt→ltb, ◌⊎◌, inl, inr,
}
use simple_risc_v_emulator.Common.{All, All-append, All-take, All-drop}
use simple_risc_v_emulator.Memory.Value.{IsByte}
use simple_risc_v_emulator.Arena.{Arena, write_at}

-- `after` is `before` with `bytes` from `offset` on.
pub record IsWritten (offset : ℕ) (bytes before after : List ℕ) : Type 0 where
  pub same_length : length after ≡ length before
  pub content :
      (i : ℕ)
      → get_elem? after i ≡ (
          if ltb i offset
          then get_elem? before i
          else if ltb i (offset + length bytes)
          then get_elem? bytes (i - offset)
          else get_elem? before i)
  pub all_bytes : All IsByte before → All IsByte bytes → All IsByte after

pub IsWritten-inside :
    {offset : ℕ} {bytes before after : List ℕ}
    → IsWritten offset bytes before after
    → (i : ℕ) → i < length bytes
    → get_elem? after (offset + i) ≡ get_elem? bytes i
IsWritten-inside {offset} {bytes} w i h =
    let back : offset + i - offset ≡ i = omega arith in
    let at = w.content (offset + i) in
    let later : ltb (offset + i) offset ≡ false = ltb-false (offset + i) offset (omega arith) in
    let within : ltb (offset + i) (offset + length bytes) ≡ true =
      lt→ltb (offset + i) (offset + length bytes) (omega arith) in
    at ∙ rw (later, within, back)

pub IsWritten-outside :
    {offset : ℕ} {bytes before after : List ℕ}
    → IsWritten offset bytes before after
    → (i : ℕ) → (i < offset) ⊎ (offset + length bytes ≤ i)
    → get_elem? after i ≡ get_elem? before i
IsWritten-outside {offset} {bytes} w i (inl h) = w.content i ∙ rw (lt→ltb i offset h)
IsWritten-outside {offset} {bytes} w i (inr h) =
    w.content i ∙ rw (ltb-false i offset (omega arith), ltb-false i (offset + length bytes) h)

drop_nil : (m : ℕ) → drop {A = ℕ} m [] ≡ []
drop_nil zero = refl
drop_nil (suc m) = refl

pub drop-add : (a b : ℕ) (s : List ℕ) → drop (a + b) s ≡ drop b (drop a s)
drop-add zero b s = ap (λ (n : ℕ). drop n s) (omega arith)
drop-add (suc a) b [] = drop_nil (suc a + b) ∙ sym (drop_nil b)
drop-add (suc a) b (x ∷ s) = ap (λ (n : ℕ). drop n (x ∷ s)) sum ∙ drop-add a b s
  where
    sum : suc a + b ≡ suc (a + b)
    sum = omega arith

bytes_first :
    (bytes s : List ℕ) (i : ℕ)
    → length bytes ≤ length s
    → get_elem? (bytes ++ drop (length bytes) s) i
      ≡ (if ltb i (length bytes) then get_elem? bytes i else get_elem? s i)
bytes_first [] s i h = ground arith
bytes_first (b ∷ bytes) [] i h = absurd (omega arith)
bytes_first (b ∷ bytes) (x ∷ s) zero h = ground arith
bytes_first (b ∷ bytes) (x ∷ s) (suc i) h = ground (arith, bytes_first bytes s i)

bytes_inside :
    (s bytes : List ℕ) (offset i : ℕ)
    → offset + length bytes ≤ length s
    → get_elem? (take offset s ++ (bytes ++ drop (length bytes) (drop offset s))) i ≡ (
        if ltb i offset
        then get_elem? s i
        else if ltb i (offset + length bytes)
        then get_elem? bytes (i - offset)
        else get_elem? s i)
bytes_inside s bytes zero i h =
    let whole : i - 0 ≡ i = omega arith in rw whole (ground (arith, bytes_first bytes s i))
bytes_inside [] bytes (suc offset) i h = absurd (omega arith)
bytes_inside (x ∷ s) bytes (suc offset) zero h = ground arith
bytes_inside (x ∷ s) bytes (suc offset) (suc i) h =
    let before : suc i - suc offset ≡ i - offset = omega arith in
    rw before (ground (arith, bytes_inside s bytes offset i))

written_length :
    (s bytes : List ℕ) (offset : ℕ)
    → offset + length bytes ≤ length s
    → length (take offset s ++ (bytes ++ drop (length bytes) (drop offset s))) ≡ length s
written_length s bytes offset h = omega (
  arith,
  length-append (take offset s) (bytes ++ drop (length bytes) (drop offset s)),
  length-append bytes (drop (length bytes) (drop offset s)),
  length-take offset s (omega arith),
  length-drop (length bytes) (drop offset s),
  length-drop offset s,
)

-- A write within the storage succeeds.
pub write_at-IsWritten :
    (a : Arena) (pointer : ℕ) (bytes : List ℕ)
    → a.base ≤ pointer
    → pointer + length bytes ≤ a.base + length a.storage
    → (s : List ℕ) × (write_at a pointer bytes ≡ ok (record a { storage = s }))
      × IsWritten (pointer - a.base) bytes a.storage s
unfolding write_at
write_at-IsWritten a pointer bytes low high =
    let offset : ℕ = pointer - a.base in
    let room : offset + length bytes ≤ length a.storage = omega (arith, low, high) in
    (
      take offset a.storage ++ (bytes ++ drop (length bytes) (drop offset a.storage)),
      rw (
        ltb-false pointer a.base low,
        ltb-false (length a.storage) (offset + length bytes) room,
        drop-add offset (length bytes) a.storage,
        append_assoc (take offset a.storage) bytes (drop (length bytes) (drop offset a.storage)),
      ),
      record {
        same_length = written_length a.storage bytes offset room;
        content = λ i. bytes_inside a.storage bytes offset i room;
        all_bytes = λ before new.
            All-append IsByte (take offset a.storage)
              (bytes ++ drop (length bytes) (drop offset a.storage))
              (All-take IsByte offset a.storage before)
              (All-append IsByte bytes (drop (length bytes) (drop offset a.storage)) new (
                All-drop IsByte (length bytes) (drop offset a.storage)
                  (All-drop IsByte offset a.storage before)));
      },
    )
