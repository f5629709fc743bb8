-- ===== src/Memory/Host.antt =====
-- src/riscv/utils/memory.hpp: loads and stores on hosts of either byte order.
use simple_risc_v_emulator.Common.{ℕ, ◌+◌, ◌*◌, ◌^◌}
use simple_risc_v_emulator.Common.{
  List, [], ◌∷◌, All, ◌≡◌, refl, sym, ap, ◌∙◌, arith, ok, length, take, ltb-false, ◌≤◌,
}
use simple_risc_v_emulator.Memory.{Endian, little, big, little_endian_value, memcpy_from}
use simple_risc_v_emulator.Memory.{load_u16, load_u32, load_u64, store_u16, store_u32, store_u64}
use simple_risc_v_emulator.Memory.Value.{IsByte}
use simple_risc_v_emulator.Bits.Digits.{bit_or-above}

memcpy_from-ok :
    (size : ℕ) (bs : List ℕ)
    → size ≤ length bs
    → memcpy_from size bs ≡ ok (little_endian_value (take size bs))
memcpy_from-ok size bs h = rw (ltb-false _ _ h)

load_u16-big : (bs : List ℕ) → All IsByte bs → load_u16 big bs ≡ load_u16 little bs
unfolding load_u16
load_u16-big [] h = refl
load_u16-big (a ∷ []) h = refl
load_u16-big (a ∷ b ∷ bs) h =
    ap ok (omega (arith, bit_or-above 8 a b (omega arith)))
    ∙ sym (memcpy_from-ok 2 (a ∷ b ∷ bs) (omega arith))

load_u32-big : (bs : List ℕ) → All IsByte bs → load_u32 big bs ≡ load_u32 little bs
unfolding load_u32
load_u32-big [] h = refl
load_u32-big (a ∷ []) h = refl
load_u32-big (a ∷ b ∷ []) h = refl
load_u32-big (a ∷ b ∷ c ∷ []) h = refl
load_u32-big (a ∷ b ∷ c ∷ d ∷ bs) h =
    ap ok (
      rw
        (
          bit_or-above 8 a b (omega arith),
          bit_or-above 16 (a + b * 2 ^ 8) c (omega arith),
          bit_or-above 24 (a + b * 2 ^ 8 + c * 2 ^ 16) d (omega arith),
        )
        (omega arith))
    ∙ sym (memcpy_from-ok 4 (a ∷ b ∷ c ∷ d ∷ bs) (omega arith))

load_u64-big : (bs : List ℕ) → All IsByte bs → load_u64 big bs ≡ load_u64 little bs
unfolding load_u64
load_u64-big [] h = refl
load_u64-big (a ∷ []) h = refl
load_u64-big (a ∷ b ∷ []) h = refl
load_u64-big (a ∷ b ∷ c ∷ []) h = refl
load_u64-big (a ∷ b ∷ c ∷ d ∷ []) h = refl
load_u64-big (a ∷ b ∷ c ∷ d ∷ e ∷ []) h = refl
load_u64-big (a ∷ b ∷ c ∷ d ∷ e ∷ f ∷ []) h = refl
load_u64-big (a ∷ b ∷ c ∷ d ∷ e ∷ f ∷ g ∷ []) h = refl
load_u64-big (a ∷ b ∷ c ∷ d ∷ e ∷ f ∷ g ∷ k ∷ bs) h =
    let s2 : ℕ = a + b * 2 ^ 8 in
    let s3 : ℕ = s2 + c * 2 ^ 16 in
    let s4 : ℕ = s3 + d * 2 ^ 24 in
    let s5 : ℕ = s4 + e * 2 ^ 32 in
    let s6 : ℕ = s5 + f * 2 ^ 40 in
    let s7 : ℕ = s6 + g * 2 ^ 48 in
    ap ok (
      rw
        (
          bit_or-above 8 a b (omega arith),
          bit_or-above 16 s2 c (omega arith),
          bit_or-above 24 s3 d (omega arith),
          bit_or-above 32 s4 e (omega arith),
          bit_or-above 40 s5 f (omega arith),
          bit_or-above 48 s6 g (omega arith),
          bit_or-above 56 s7 k (omega arith),
        )
        (omega arith))
    ∙ sym (memcpy_from-ok 8 (a ∷ b ∷ c ∷ d ∷ e ∷ f ∷ g ∷ k ∷ bs) (omega arith))

-- On a buffer of bytes, of any length, the three loads give the same on every host.
pub load-host :
    (e : Endian) (bs : List ℕ)
    → All IsByte bs
    → (load_u16 e bs ≡ load_u16 little bs)
      × (load_u32 e bs ≡ load_u32 little bs)
      × (load_u64 e bs ≡ load_u64 little bs)
load-host little bs h = (refl, refl, refl)
load-host big bs h = (load_u16-big bs h, load_u32-big bs h, load_u64-big bs h)

store_u16-big : (bs : List ℕ) (v : ℕ) → store_u16 big bs v ≡ store_u16 little bs v
unfolding store_u16
store_u16-big [] v = refl
store_u16-big (a ∷ []) v = refl
store_u16-big (a ∷ b ∷ bs) v = ground arith

store_u32-big : (bs : List ℕ) (v : ℕ) → store_u32 big bs v ≡ store_u32 little bs v
unfolding store_u32
store_u32-big [] v = refl
store_u32-big (a ∷ []) v = refl
store_u32-big (a ∷ b ∷ []) v = refl
store_u32-big (a ∷ b ∷ c ∷ []) v = refl
store_u32-big (a ∷ b ∷ c ∷ d ∷ bs) v = ground arith

store_u64-big : (bs : List ℕ) (v : ℕ) → store_u64 big bs v ≡ store_u64 little bs v
unfolding store_u64
store_u64-big [] v = refl
store_u64-big (a ∷ []) v = refl
store_u64-big (a ∷ b ∷ []) v = refl
store_u64-big (a ∷ b ∷ c ∷ []) v = refl
store_u64-big (a ∷ b ∷ c ∷ d ∷ []) v = refl
store_u64-big (a ∷ b ∷ c ∷ d ∷ e ∷ []) v = refl
store_u64-big (a ∷ b ∷ c ∷ d ∷ e ∷ f ∷ []) v = refl
store_u64-big (a ∷ b ∷ c ∷ d ∷ e ∷ f ∷ g ∷ []) v = refl
store_u64-big (a ∷ b ∷ c ∷ d ∷ e ∷ f ∷ g ∷ k ∷ bs) v = ground arith

-- On a buffer of any length, the three stores give the same on every host.
pub store-host :
    (e : Endian) (bs : List ℕ) (v : ℕ)
    → (store_u16 e bs v ≡ store_u16 little bs v)
      × (store_u32 e bs v ≡ store_u32 little bs v)
      × (store_u64 e bs v ≡ store_u64 little bs v)
store-host little bs v = (refl, refl, refl)
store-host big bs v = (store_u16-big bs v, store_u32-big bs v, store_u64-big bs v)

-- The loads, on a buffer of bytes, and the stores, on any buffer, give the same on every host, for
-- each of the three widths and for buffers that are too short, too.
pub access-host :
    (e : Endian) (bs : List ℕ) (v : ℕ)
    → All IsByte bs
    → ((load_u16 e bs ≡ load_u16 little bs)
        × (load_u32 e bs ≡ load_u32 little bs)
        × (load_u64 e bs ≡ load_u64 little bs))
      × ((store_u16 e bs v ≡ store_u16 little bs v)
          × (store_u32 e bs v ≡ store_u32 little bs v)
          × (store_u64 e bs v ≡ store_u64 little bs v))
access-host e bs v h = (load-host e bs h, store-host e bs v)
