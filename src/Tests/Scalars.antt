-- ===== src/Tests/Scalars.antt =====
-- src/riscv/utils/bits.hpp and memory.hpp on concrete integers and buffers.
use simple_risc_v_emulator.Common.{ℕ, List, [], ◌∷◌, ◌≡◌, arith}
use simple_risc_v_emulator.Common.{signed, ok}
use simple_risc_v_emulator.Bits.{get_bits_checked, sign_extend}
use simple_risc_v_emulator.Bits.Fields.{get_bits_checked-eq}
use simple_risc_v_emulator.Bits.Sign.{signed-sign_extend}
use simple_risc_v_emulator.Memory.{little, big, load_u16, load_u32, load_u64}
use simple_risc_v_emulator.Memory.{store_u16, store_u32, store_u64}
use simple_risc_v_emulator.Memory.Host.{access-host}
use simple_risc_v_emulator.Memory.RoundTrip.{load-store, Stored, load, store, u32}

-- A branch offset of -4 in thirteen bits.
signed-sign_extend_example : signed 32 (sign_extend 32 0x1FFC 12) ≡ signed 13 0x1FFC
signed-sign_extend_example = signed-sign_extend 32 0x1FFC 12 (omega arith) (omega arith)

get_bits_checked-eq_example : get_bits_checked 32 0xDEADBEEF 12 14 ≡ ok 3
get_bits_checked-eq_example =
    get_bits_checked-eq 32 0xDEADBEEF 12 14 (omega arith) (omega arith) (omega arith)

abbrev ten_bytes : List ℕ
ten_bytes = 0x78 ∷ 0x56 ∷ 0x34 ∷ 0x12 ∷ 0xEF ∷ 0xCD ∷ 0xAB ∷ 0x90 ∷ 1 ∷ 2 ∷ []

access-host_example :
    ((load_u16 big ten_bytes ≡ load_u16 little ten_bytes)
      × (load_u32 big ten_bytes ≡ load_u32 little ten_bytes)
      × (load_u64 big ten_bytes ≡ load_u64 little ten_bytes))
    × ((store_u16 big ten_bytes 0xFFFE ≡ store_u16 little ten_bytes 0xFFFE)
        × (store_u32 big ten_bytes 0xFFFE ≡ store_u32 little ten_bytes 0xFFFE)
        × (store_u64 big ten_bytes 0xFFFE ≡ store_u64 little ten_bytes 0xFFFE))
access-host_example = access-host big ten_bytes 0xFFFE (omega arith)

load-store_example :
    Stored 4 (load u32 big) ten_bytes 0xCAFEBABE (store u32 big ten_bytes 0xCAFEBABE)
load-store_example =
    load-store u32 big ten_bytes 0xCAFEBABE (omega arith) (omega arith) (omega arith)
