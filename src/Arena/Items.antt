-- ===== src/Arena/Items.antt =====
-- src/riscv/utils/arena.hpp: `allocate` of an array of any type of items. The constructor of an item
-- is an argument: it gives the bytes of the item with a number, or throws.
use simple_risc_v_emulator.Common.{ℕ, zero, suc, ◌+◌, ◌*◌, ◌%◌, ◌^◌, List, [], ◌∷◌}
use simple_risc_v_emulator.Common.{ltb, if◌then◌else◌, Exception, Result, ok, throw, undefined}
use simple_risc_v_emulator.Arena.{Arena, allocate_raw, write_at}

-- `raw()`
unfoldable pub raw : Arena → List ℕ
raw a = a.storage

-- How the loop of the constructions ends: with all items, or at the item whose constructor threw.
pub data Built : Type 0 where
  all_built : Arena → Built
  stopped : ℕ → Exception → Arena → Built
  lost : Built

-- The items that were destroyed, in order, and what the call returns.
pub record Allocated : Type 0 where
  pub destroyed : List ℕ
  pub arena : Arena
  pub result : Result ℕ

-- `for (; i != 0; i--) std::destroy_at(&ptr[i]);`
unfoldable pub destroy_items : ℕ → List ℕ
destroy_items zero = []
destroy_items (suc i) = suc i ∷ destroy_items i

-- `throw;` behind the loop, when the items before number `i` are those that exist. To destroy one
-- that does not is undefined.
abbrev pub rethrow : ℕ → Exception → List ℕ → Result ℕ
rethrow i e [] = throw e
rethrow i e (k ∷ ks) = let rest = rethrow i e ks in if ltb k i then rest else undefined

-- What the `catch (...)` makes of it.
unfoldable pub after_build : Arena → ℕ → Built → Allocated
unfolding destroy_items
after_build a pointer (all_built a') = record { destroyed = []; arena = a'; result = ok pointer }
after_build a pointer (stopped i e a') = record {
  destroyed = destroy_items i;
  arena = a';
  result = rethrow i e (destroy_items i);
}
after_build a pointer lost = record { destroyed = []; arena = a; result = undefined }

module _ (construct : ℕ → Result (List ℕ)) (item_size : ℕ) where
  -- The loop of the `try` block, with `rounds` items left, from number `i` at `pointer` on.
  unfoldable pub build_items : ℕ → ℕ → ℕ → Arena → Built
  build_items zero i pointer a = all_built a
  build_items (suc rounds) i pointer a = elim (construct i) [
    | throw e ↦ stopped i e a
    | undefined ↦ lost
    | ok bytes ↦ elim (write_at a pointer bytes) [
      | ok a' ↦ build_items rounds (i + 1) (pointer + item_size) a'
      | _ ↦ lost
    ]
  ]

  unfoldable pub allocate_items : ℕ → ℕ → Arena → Allocated
  unfolding build_items after_build
  allocate_items alignment item_count a =
      elim (allocate_raw (item_size * item_count % 2 ^ 64) alignment a) [
        | throw e ↦ record { destroyed = []; arena = a; result = throw e }
        | undefined ↦ record { destroyed = []; arena = a; result = undefined }
        | ok (pointer, a') ↦ after_build a' pointer (build_items item_count 0 pointer a')
      ]
