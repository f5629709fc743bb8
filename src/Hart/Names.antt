-- ===== src/Hart/Names.antt =====
-- src/riscv/base.hpp: the names of registers and of control and status registers.
use simple_risc_v_emulator.Common.{ℕ, ◌<◌, ◌≡◌, arith, ok}
use simple_risc_v_emulator.Hart.{RegisterFile, register_count, get_register}
use simple_risc_v_emulator.Hart.Registers.{IsFile, get_register-defined}

pub data AbiRegisterIndex : Type 0 where
  return_address stack_pointer global_pointer thread_pointer : AbiRegisterIndex
  argument0 argument1 argument2 argument3 : AbiRegisterIndex
  argument4 argument5 argument6 argument7 : AbiRegisterIndex

abbrev pub abi_register_index : AbiRegisterIndex → ℕ
abi_register_index return_address = 1
abi_register_index stack_pointer = 2
abi_register_index global_pointer = 3
abi_register_index thread_pointer = 4
abi_register_index argument0 = 10
abi_register_index argument1 = 11
abi_register_index argument2 = 12
abi_register_index argument3 = 13
abi_register_index argument4 = 14
abi_register_index argument5 = 15
abi_register_index argument6 = 16
abi_register_index argument7 = 17

pub data AbiFloatRegisterIndex : Type 0 where
  float_argument0 float_argument1 float_argument2 float_argument3 : AbiFloatRegisterIndex
  float_argument4 float_argument5 float_argument6 float_argument7 : AbiFloatRegisterIndex

abbrev pub abi_float_register_index : AbiFloatRegisterIndex → ℕ
abi_float_register_index float_argument0 = 10
abi_float_register_index float_argument1 = 11
abi_float_register_index float_argument2 = 12
abi_float_register_index float_argument3 = 13
abi_float_register_index float_argument4 = 14
abi_float_register_index float_argument5 = 15
abi_float_register_index float_argument6 = 16
abi_float_register_index float_argument7 = 17

pub data ControlStatusRegister : Type 0 where
  float_exception_flags_register float_rounding_mode_register : ControlStatusRegister
  float_control_status_register : ControlStatusRegister
  cycle_register time_register instret_register : ControlStatusRegister

abbrev pub control_status_register_number : ControlStatusRegister → ℕ
control_status_register_number float_exception_flags_register = 0x001
control_status_register_number float_rounding_mode_register = 0x002
control_status_register_number float_control_status_register = 0x003
control_status_register_number cycle_register = 0xC00
control_status_register_number time_register = 0xC01
control_status_register_number instret_register = 0xC02

abi_register_index-lt : (r : AbiRegisterIndex) → abi_register_index r < register_count
abi_register_index-lt return_address = omega arith
abi_register_index-lt r = omega arith

-- Every register with a name can be read.
get_register-named :
    (file : RegisterFile) (r : AbiRegisterIndex)
    → IsFile file
    → (x : ℕ) × (get_register file (abi_register_index r) ≡ ok x)
get_register-named file r v =
    let (x, e, small) =
      get_register-defined file (abi_register_index r) v (abi_register_index-lt r) in
    (x, e)
