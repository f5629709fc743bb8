-- ===== src/Emulator/Decoded/Formats.antt =====
-- src/riscv/instruction.cpp: an instruction whose fields were read by one of the formats.
use simple_risc_v_emulator.Common.{ℕ, arith}
use simple_risc_v_emulator.Instruction.Types.{InstructionType, Payload}
use simple_risc_v_emulator.Instruction.Fields.{
  get_destination_register, get_source_register1, get_source_register2,
}
use simple_risc_v_emulator.Emulator.WellFormed.{IsRunnable, PayloadFits}
use simple_risc_v_emulator.Emulator.Decoded.Parts.{
  get_destination_register-lt, get_source_register1-lt, get_source_register2-lt,
}

module _ (w : ℕ) (p : Payload) (t : InstructionType) (fits : PayloadFits p t) where
  -- `readFieldsR`
  pub read_r : IsRunnable (record {
    payload = p;
    destination_register = get_destination_register w;
    source_register1 = get_source_register1 w;
    source_register2 = get_source_register2 w;
    type = t;
  })
  read_r = record {
    rd_lt = get_destination_register-lt w;
    rs1_lt = get_source_register1-lt w;
    rs2_lt = get_source_register2-lt w;
    payload_fits = fits;
  }

  -- `readFieldsI`
  pub read_i : IsRunnable (record {
    payload = p;
    destination_register = get_destination_register w;
    source_register1 = get_source_register1 w;
    source_register2 = 0;
    type = t;
  })
  read_i = record {
    rd_lt = get_destination_register-lt w;
    rs1_lt = get_source_register1-lt w;
    rs2_lt = omega arith;
    payload_fits = fits;
  }

  -- `readFieldsS` and `readFieldsB`
  pub read_s : IsRunnable (record {
    payload = p;
    destination_register = 0;
    source_register1 = get_source_register1 w;
    source_register2 = get_source_register2 w;
    type = t;
  })
  read_s = record {
    rd_lt = omega arith;
    rs1_lt = get_source_register1-lt w;
    rs2_lt = get_source_register2-lt w;
    payload_fits = fits;
  }

  -- `readFieldsU` and `readFieldsJ`
  pub read_u : IsRunnable (record {
    payload = p;
    destination_register = get_destination_register w;
    source_register1 = 0;
    source_register2 = 0;
    type = t;
  })
  read_u = record {
    rd_lt = get_destination_register-lt w;
    rs1_lt = omega arith;
    rs2_lt = omega arith;
    payload_fits = fits;
  }
