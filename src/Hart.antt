-- ===== src/Hart.antt =====
-- src/riscv/base.hpp and base.cpp: the state of a RISC-V hart. `Register` is a `uint64_t`, a number
-- below 2 ^ 64; a float register is the bit pattern of its `double`, which no operation computes
-- with; a rounding mode is the number behind the enumeration, since casts store any value of three
-- bits there. An access to a register array past its end is undefined.
pub mod Registers
pub mod Float
pub mod Time
pub mod Names
use simple_risc_v_emulator.Common.{ℕ, zero, suc, ◌+◌, ◌*◌, ◌/◌, ◌%◌, ◌^◌, bit_or, List}
use simple_risc_v_emulator.Common.{
  length, get_elem?, set, replicate, ltb, ◌==◌, if◌then◌else◌, Bool,
}
use simple_risc_v_emulator.Common.{Result, ok, undefined, defined}
use simple_risc_v_emulator.Bits.{has_bit, set_bit, clear_bit, get_bits}

abbrev pub register_count : ℕ
register_count = 32

abbrev pub float_register_count : ℕ
float_register_count = 32

pub record RegisterFile : Type 0 where
  pub registers : List ℕ

-- `std::array<Register, registerCount> registers {}`
abbrev pub zero_registers : RegisterFile
zero_registers = record { registers = replicate register_count 0 }

-- `operator[]`
unfoldable pub get_register : RegisterFile → ℕ → Result ℕ
get_register file index = defined (get_elem? file.registers index)

unfoldable pub set_register : RegisterFile → ℕ → ℕ → Result RegisterFile
set_register file index value =
    if index == 0
    then ok file
    else if ltb index (length file.registers)
    then ok (record file { registers = set file.registers index value })
    else undefined

-- The enumerators of `FloatRoundingMode`.
abbrev pub round_to_nearest_even : ℕ
round_to_nearest_even = 0b000

abbrev pub dynamic_rounding : ℕ
dynamic_rounding = 0b111

pub data FloatExceptionFlag : Type 0 where
  inexact underflow overflow divide_by_zero invalid_operation : FloatExceptionFlag

-- `static_cast<uint8_t>(flag)`
abbrev pub flag_bit : FloatExceptionFlag → ℕ
flag_bit inexact = 0
flag_bit underflow = 1
flag_bit overflow = 2
flag_bit divide_by_zero = 3
flag_bit invalid_operation = 4

pub record Thread : Type 0 where
  pub registers : RegisterFile
  pub float_registers : List ℕ
  pub program_counter : ℕ
  pub dynamic_float_rounding_mode : ℕ
  pub float_exception_flags : ℕ
  pub cycle_counter : ℕ

-- `Thread mainThread {}`
abbrev pub initial_thread : Thread
initial_thread = record {
  registers = zero_registers;
  float_registers = replicate float_register_count 0;
  program_counter = 0;
  dynamic_float_rounding_mode = 0;
  float_exception_flags = 0;
  cycle_counter = 0;
}

unfoldable pub set_float_exception_flag : Thread → FloatExceptionFlag → Bool → Thread
set_float_exception_flag t flag value = record t {
  float_exception_flags =
      if value
      then set_bit 8 t.float_exception_flags (flag_bit flag)
      else clear_bit 8 t.float_exception_flags (flag_bit flag);
}

unfoldable pub get_float_exception_flag : Thread → FloatExceptionFlag → Bool
get_float_exception_flag t flag = has_bit t.float_exception_flags (flag_bit flag)

unfoldable pub get_float_control_status_register : Thread → ℕ
get_float_control_status_register t =
    bit_or (t.dynamic_float_rounding_mode * 2 ^ 5 % 2 ^ 64) t.float_exception_flags

unfoldable pub set_float_control_status_register : Thread → ℕ → Thread
set_float_control_status_register t value = record t {
  dynamic_float_rounding_mode = get_bits 64 value 5 7 % 2 ^ 8;
  float_exception_flags = get_bits 64 value 0 4 % 2 ^ 8;
}

unfoldable pub get_instruction_index : Thread → ℕ
get_instruction_index t = t.program_counter / 4

unfoldable pub get_next_program_counter : Thread → ℕ
get_next_program_counter t = (t.program_counter + 4) % 2 ^ 64
