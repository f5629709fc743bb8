-- ===== src/Instruction/Fields.antt =====
-- src/riscv/instruction.cpp: the fields of an encoded instruction, and the readers of the formats.
-- A reader returns the instruction with its fields written and the parts of the function code.
pub mod Values
pub mod Layout
use simple_risc_v_emulator.Common.{ℕ, ◌*◌, ◌%◌, ◌^◌, bit_or}
use simple_risc_v_emulator.Bits.{get_bits, sign_extend}
use simple_risc_v_emulator.Instruction.Types.{Instruction, immediate}

-- `getBits` and `<<` on `uint32_t`, and the cast to `uint8_t`.
abbrev field : ℕ → ℕ → ℕ → ℕ
field = get_bits 32

infixl 75 ◌<<<◌
abbrev ◌<<<◌ : ℕ → ℕ → ℕ
x <<< k = x * 2 ^ k % 2 ^ 32

abbrev u8 : ℕ → ℕ
u8 x = x % 2 ^ 8

unfoldable pub get_opcode : ℕ → ℕ
get_opcode encoded = u8 (field encoded 0 6)

unfoldable pub get_funct3 : ℕ → ℕ
get_funct3 encoded = u8 (field encoded 12 14)

unfoldable pub get_funct7 : ℕ → ℕ
get_funct7 encoded = u8 (field encoded 25 31)

unfoldable pub get_destination_register : ℕ → ℕ
get_destination_register encoded = u8 (field encoded 7 11)

unfoldable pub get_source_register1 : ℕ → ℕ
get_source_register1 encoded = u8 (field encoded 15 19)

unfoldable pub get_source_register2 : ℕ → ℕ
get_source_register2 encoded = u8 (field encoded 20 24)

unfoldable pub get_immediate_i : ℕ → ℕ
get_immediate_i encoded = sign_extend 32 (field encoded 20 31) 11

unfoldable pub get_immediate_s : ℕ → ℕ
get_immediate_s encoded =
    sign_extend 32 (bit_or (field encoded 7 11) (field encoded 25 31 <<< 5)) 11

unfoldable pub get_immediate_b : ℕ → ℕ
get_immediate_b encoded =
    sign_extend 32
      (bit_or
        (bit_or (bit_or (field encoded 8 11 <<< 1) (field encoded 25 30 <<< 5))
          (field encoded 7 7 <<< 11))
        (field encoded 31 31 <<< 12))
      12

unfoldable pub get_immediate_u : ℕ → ℕ
get_immediate_u encoded = field encoded 12 31 <<< 12

unfoldable pub get_immediate_j : ℕ → ℕ
get_immediate_j encoded =
    sign_extend 32
      (bit_or
        (bit_or (bit_or (field encoded 21 30 <<< 1) (field encoded 20 20 <<< 11))
          (field encoded 12 19 <<< 12))
        (field encoded 31 31 <<< 20))
      20

-- What a reader gives beside the instruction, where the format has these parts.
pub record FieldsR : Type 0 where
  pub instr : Instruction
  pub funct3 : ℕ
  pub funct7 : ℕ

pub record Fields : Type 0 where
  pub instr : Instruction
  pub funct3 : ℕ

unfoldable pub read_fields_r : ℕ → Instruction → FieldsR
read_fields_r encoded instr = record {
  instr = record instr {
    source_register1 = get_source_register1 encoded;
    source_register2 = get_source_register2 encoded;
    destination_register = get_destination_register encoded;
  };
  funct3 = get_funct3 encoded;
  funct7 = get_funct7 encoded;
}

unfoldable pub read_fields_i : ℕ → Instruction → Fields
read_fields_i encoded instr = record {
  instr = record instr {
    source_register1 = get_source_register1 encoded;
    destination_register = get_destination_register encoded;
    payload = immediate (get_immediate_i encoded);
  };
  funct3 = get_funct3 encoded;
}

unfoldable pub read_fields_s : ℕ → Instruction → Fields
read_fields_s encoded instr = record {
  instr = record instr {
    source_register1 = get_source_register1 encoded;
    source_register2 = get_source_register2 encoded;
    payload = immediate (get_immediate_s encoded);
  };
  funct3 = get_funct3 encoded;
}

unfoldable pub read_fields_b : ℕ → Instruction → Fields
read_fields_b encoded instr = record {
  instr = record instr {
    source_register1 = get_source_register1 encoded;
    source_register2 = get_source_register2 encoded;
    payload = immediate (get_immediate_b encoded);
  };
  funct3 = get_funct3 encoded;
}

unfoldable pub read_fields_u : ℕ → Instruction → Instruction
read_fields_u encoded instr = record instr {
  destination_register = get_destination_register encoded;
  payload = immediate (get_immediate_u encoded);
}

unfoldable pub read_fields_j : ℕ → Instruction → Instruction
read_fields_j encoded instr = record instr {
  destination_register = get_destination_register encoded;
  payload = immediate (get_immediate_j encoded);
}
