-- ===== src/Common/Errors.antt =====
-- The result of a C++ call: a value, a thrown exception, or undefined behaviour. Exceptions are
-- those that the modelled sources throw; each text of a `std::runtime_error` is a
-- constructor of `Message`.
use Prim.Native.Nat.{ℕ}
use mathlib.Core.Bool.{Bool, true, false}
use mathlib.Core.Option.{Option, none, some}

-- The `clazz` argument of `UnknownInstructionException`.
pub data InstructionClass : Type 0 where
  branch_class load_class store_class op_imm32_class op_class op32_class : InstructionClass
  misc_mem_class system_class amo_class load_fp_class store_fp_class : InstructionClass
  fp_fused_multiply_add_class op_fp_class unknown_class : InstructionClass

pub data Message : Type 0 where
  unsupported_instruction : Message
  size_not_divisible : ℕ → Message
  compressed_unsupported : Message
  elf_file_too_small invalid_elf_header entry_not_zero program_headers_out_of_bounds : Message
  segment_out_of_bounds data_truncated data_overlap : Message
  no_code_segments code_truncated_or_padded code_not_at_zero code_not_contiguous : Message
  no_memory_for_data : Message
  memory_size_zero framebuffer_size_not_positive : Message
  no_sdl_window no_sdl_renderer no_sdl_texture : Message
  no_program_file no_memory_for_framebuffer : Message

pub data Exception : Type 0 where
  unknown_instruction : ℕ → InstructionClass → Exception
  -- `throw new UnknownInstructionException(...)`: what is thrown is a pointer.
  unknown_instruction_pointer : ℕ → InstructionClass → Exception
  runtime_error : Message → Exception
  bad_alloc : Exception
  length_error : Exception
  invalid_argument : Exception

pub data Result {ℓ} (A : Type ℓ) : Type ℓ where
  ok : A → Result A
  throw : Exception → Result A
  undefined : Result A

-- The rest of the body runs on the value; an exception and undefined behaviour end it.
infixl 5 ◌>>=◌ ◌>>◌
abbrev pub ◌>>=◌ {ℓ κ} : {A : Type ℓ} {B : Type κ} → Result A → (A → Result B) → Result B
undefined >>= rest = undefined
throw e >>= rest = throw e
ok value >>= rest = rest value

-- A statement without a value.
abbrev pub ◌>>◌ {κ} : {B : Type κ} → Result (Unit {0}) → Result B → Result B
statement >> rest = statement >>= λ done. rest

-- `if (test) throw e;`
abbrev pub throw_if : Bool → Exception → Result (Unit {0})
throw_if true e = throw e
throw_if false e = ok tt

-- A read through a pointer that may be out of range.
abbrev pub defined {ℓ} : {A : Type ℓ} → Option A → Result A
defined none = undefined
defined (some a) = ok a
