-- ===== src/Hart/Float.antt =====
-- src/riscv/base.cpp: the floating-point control and status register, and the exception flags.
use simple_risc_v_emulator.Common.{ℕ, ◌+◌, ◌*◌, ◌/◌, ◌%◌, ◌^◌, ◌<◌, ◌≡◌, ap, ◌∙◌, arith}
use simple_risc_v_emulator.Common.{Bool, true, false, ◌==◌, if◌then◌else◌, bit_or}
use simple_risc_v_emulator.Bits.{get_bits}
use simple_risc_v_emulator.Bits.Digits.{bit_or-fields}
use simple_risc_v_emulator.Bits.Fields.{get_bits-eq}
use simple_risc_v_emulator.Bits.Single.{has_bit-set_bit, has_bit-clear_bit}
use simple_risc_v_emulator.Hart.{Thread, FloatExceptionFlag, flag_bit, inexact, underflow, overflow}
use simple_risc_v_emulator.Hart.{divide_by_zero, invalid_operation}
use simple_risc_v_emulator.Hart.{set_float_exception_flag, get_float_exception_flag}
use simple_risc_v_emulator.Hart.{get_float_control_status_register}
use simple_risc_v_emulator.Hart.{set_float_control_status_register}

flag_bit-lt : (f : FloatExceptionFlag) → flag_bit f < 8
flag_bit-lt inexact = omega arith
flag_bit-lt underflow = omega arith
flag_bit-lt overflow = omega arith
flag_bit-lt divide_by_zero = omega arith
flag_bit-lt invalid_operation = omega arith

-- After a flag is set to a value it reads as that value, and every other flag as before.
pub get_float_exception_flag-set :
    (t : Thread) (f g : FloatExceptionFlag) (value : Bool)
    → get_float_exception_flag (set_float_exception_flag t f value) g
      ≡ (if flag_bit f == flag_bit g then value else get_float_exception_flag t g)
unfolding get_float_exception_flag set_float_exception_flag
get_float_exception_flag-set t f g true =
    has_bit-set_bit 8 t.float_exception_flags (flag_bit f) (flag_bit g) (flag_bit-lt f)
      (flag_bit-lt g)
get_float_exception_flag-set t f g false =
    has_bit-clear_bit 8 t.float_exception_flags (flag_bit f) (flag_bit g) (flag_bit-lt f)
      (flag_bit-lt g)

-- Reading the register after a write gives the low eight bits of what was written, with no
-- condition on the thread or the value.
pub get_float_control_status_register-set :
    (t : Thread) (value : ℕ)
    → get_float_control_status_register (set_float_control_status_register t value) ≡ value % 2 ^ 8
unfolding get_float_control_status_register set_float_control_status_register
get_float_control_status_register-set t value =
    rw (get_bits-eq 64 value 5 7 (omega arith), get_bits-eq 64 value 0 4 (omega arith))
      (ap (λ (q : ℕ). bit_or q (value / 2 ^ 0 % 2 ^ 5 % 2 ^ 8)) small
        ∙ bit_or-fields 5 (value / 2 ^ 5 % 2 ^ 3) (value / 2 ^ 0 % 2 ^ 5 % 2 ^ 8) (omega arith)
        ∙ omega arith)
  where
    small : value / 2 ^ 5 % 2 ^ 3 % 2 ^ 8 * 2 ^ 5 % 2 ^ 64 ≡ value / 2 ^ 5 % 2 ^ 3 * 2 ^ 5
    small = omega arith

fcsr-sum :
    (t : Thread)
    → t.dynamic_float_rounding_mode < 8
    → t.float_exception_flags < 32
    → get_float_control_status_register t
      ≡ t.dynamic_float_rounding_mode * 2 ^ 5 + t.float_exception_flags
unfolding get_float_control_status_register
fcsr-sum t m f =
    ap (λ (q : ℕ). bit_or q t.float_exception_flags) small
    ∙ bit_or-fields 5 t.dynamic_float_rounding_mode t.float_exception_flags f
  where
    small : t.dynamic_float_rounding_mode * 2 ^ 5 % 2 ^ 64 ≡ t.dynamic_float_rounding_mode * 2 ^ 5
    small = omega arith

-- Writing back what was read restores the two fields, when the rounding mode has three bits and
-- the flags five.
set_float_control_status_register-get :
    (t : Thread)
    → t.dynamic_float_rounding_mode < 8
    → t.float_exception_flags < 32
    → set_float_control_status_register t (get_float_control_status_register t) ≡ t
unfolding set_float_control_status_register
set_float_control_status_register-get t m f =
    λ i. record t { dynamic_float_rounding_mode = mode i; float_exception_flags = flags i }
  where
    mode :
        get_bits 64 (get_float_control_status_register t) 5 7 % 2 ^ 8
        ≡ t.dynamic_float_rounding_mode
    mode = rw (fcsr-sum t m f, get_bits-eq 64 _ 5 7 (omega arith)) (omega arith)

    flags : get_bits 64 (get_float_control_status_register t) 0 4 % 2 ^ 8 ≡ t.float_exception_flags
    flags = rw (fcsr-sum t m f, get_bits-eq 64 _ 0 4 (omega arith)) (omega arith)
