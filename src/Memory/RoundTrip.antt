-- ===== src/Memory/RoundTrip.antt =====
-- src/riscv/utils/memory.hpp: loads after stores, on the three widths.
use simple_risc_v_emulator.Common.{ℕ, zero, suc, ◌^◌, ◌<◌, ◌≤◌}
use simple_risc_v_emulator.Common.{List, [], ◌∷◌, ◌++◌, All, ◌≡◌, refl, ap, ◌∙◌, arith}
use simple_risc_v_emulator.Common.{length, take, drop, ltb-false, ok, Result, All-append, subst}
use simple_risc_v_emulator.Common.{length-append, length-drop}
use simple_risc_v_emulator.Memory.{
  Endian, little, memcpy_from, memcpy_to, little_endian_bytes, little_endian_value,
}
use simple_risc_v_emulator.Memory.{load_u16, load_u32, load_u64, store_u16, store_u32, store_u64}
use simple_risc_v_emulator.Memory.Value.{IsByte, length-little_endian_bytes}
use simple_risc_v_emulator.Memory.Value.{little_endian_bytes-IsByte, little_endian_value-bytes}
use simple_risc_v_emulator.Memory.Host.{load-host, store-host}

-- `store ptr v` succeeds, its result reads back as `v`, is as long, and agrees behind `width`.
pub record Stored (width : ℕ) (read : List ℕ → Result ℕ) (ptr : List ℕ) (v : ℕ)
    (result : Result (List ℕ)) : Type 0 where
  pub out : List ℕ
  pub returns : result ≡ ok out
  pub reads_back : read out ≡ ok v
  pub same_rest : drop width out ≡ drop width ptr
  pub same_length : length out ≡ length ptr
  pub bytes : All IsByte out

memcpy_to-ok :
    (size : ℕ) (ptr : List ℕ) (v : ℕ)
    → size ≤ length ptr
    → memcpy_to size ptr v ≡ ok (little_endian_bytes size v ++ drop size ptr)
memcpy_to-ok size ptr v h = rw (ltb-false _ _ h)

module _ {ℓ} {A : Type ℓ} where
  take-append : (xs ys : List A) → take (length xs) (xs ++ ys) ≡ xs
  take-append [] ys = refl
  take-append (x ∷ xs) ys = ap (◌∷◌ x) (take-append xs ys)

  drop-append : (xs ys : List A) → drop (length xs) (xs ++ ys) ≡ ys
  drop-append [] ys = refl
  drop-append (x ∷ xs) ys = drop-append xs ys

All-drop : (n : ℕ) (bs : List ℕ) → All IsByte bs → All IsByte (drop n bs)
All-drop zero bs h = h
All-drop (suc n) [] h = tt
All-drop (suc n) (b ∷ bs) h = All-drop n bs h.1

memcpy_to-Stored :
    (size : ℕ) (ptr : List ℕ) (v : ℕ)
    → size ≤ length ptr
    → v < 256 ^ size
    → All IsByte ptr
    → Stored size (memcpy_from size) ptr v (memcpy_to size ptr v)
memcpy_to-Stored size ptr v room fits bytes = record {
  out = written ++ drop size ptr;
  returns = memcpy_to-ok size ptr v room;
  reads_back =
      rw (ltb-false (length (written ++ drop size ptr)) size (omega (arith, same)))
        (ap ok (ap little_endian_value front ∙ little_endian_value-bytes size v fits));
  same_rest =
      subst (λ n. drop n (written ++ drop size ptr) ≡ drop size ptr) exact
        (drop-append written (drop size ptr));
  same_length = same;
  bytes =
      All-append IsByte written (drop size ptr) (little_endian_bytes-IsByte size v)
        (All-drop size ptr bytes);
}
  where
    written : List ℕ
    written = little_endian_bytes size v

    exact : length written ≡ size
    exact = length-little_endian_bytes size v

    same : length (written ++ drop size ptr) ≡ length ptr
    same = omega (arith, length-append written (drop size ptr), exact, length-drop size ptr)

    front : take size (written ++ drop size ptr) ≡ written
    front =
        subst (λ n. take n (written ++ drop size ptr) ≡ written) exact
          (take-append written (drop size ptr))

Stored-transfer :
    (width : ℕ) (read read' : List ℕ → Result ℕ) (ptr : List ℕ) (v : ℕ)
    (result result' : Result (List ℕ))
    → ((bs : List ℕ) → All IsByte bs → read bs ≡ read' bs)
    → result ≡ result'
    → Stored width read' ptr v result'
    → Stored width read ptr v result
Stored-transfer width read read' ptr v result result' loads stores s = record {
  out = s.out;
  returns = stores ∙ s.returns;
  reads_back = loads s.out s.bytes ∙ s.reads_back;
  same_rest = s.same_rest;
  same_length = s.same_length;
  bytes = s.bytes;
}

-- The three widths of the file.
pub data Width : Type 0 where
  u16 u32 u64 : Width

abbrev pub size : Width → ℕ
size u16 = 2
size u32 = 4
size u64 = 8

abbrev pub load : Width → Endian → List ℕ → Result ℕ
load u16 = load_u16
load u32 = load_u32
load u64 = load_u64

abbrev pub store : Width → Endian → List ℕ → ℕ → Result (List ℕ)
store u16 = store_u16
store u32 = store_u32
store u64 = store_u64

-- On a buffer of bytes with room for it, the store of each width succeeds; the load of that width
-- then gives the value back, the bytes behind are as they were, and the buffer is as long and
-- still holds bytes, whatever the byte order of the host.
pub load-store :
    (w : Width) (e : Endian) (ptr : List ℕ) (v : ℕ)
    → All IsByte ptr
    → size w ≤ length ptr
    → v < 256 ^ size w
    → Stored (size w) (load w e) ptr v (store w e ptr v)
unfolding load_u16 load_u32 load_u64 store_u16 store_u32 store_u64
load-store u16 e ptr v bytes room fits =
    Stored-transfer 2 _ (load_u16 little) ptr v _ (store_u16 little ptr v)
      (λ bs h. (load-host e bs h).0) (store-host e ptr v).0
      (memcpy_to-Stored 2 ptr v room fits bytes)
load-store u32 e ptr v bytes room fits =
    Stored-transfer 4 _ (load_u32 little) ptr v _ (store_u32 little ptr v)
      (λ bs h. (load-host e bs h).1) (store-host e ptr v).1
      (memcpy_to-Stored 4 ptr v room fits bytes)
load-store u64 e ptr v bytes room fits =
    Stored-transfer 8 _ (load_u64 little) ptr v _ (store_u64 little ptr v)
      (λ bs h. (load-host e bs h).2) (store-host e ptr v).2
      (memcpy_to-Stored 8 ptr v room fits bytes)
