-- ===== src/Instruction/Types.antt =====
-- src/riscv/instruction.hpp: a decoded instruction. An `int32_t` immediate is its bit pattern, a
-- number below 2 ^ 32; a register index is a `uint8_t`.
use simple_risc_v_emulator.Common.{ℕ, Option, Result, ok, undefined}

-- `Instruction::Type`: all RV64G instructions, group by group.
pub data InstructionType : Type 0 where
  -- RV32I Base Instruction Set
  lui auipc jal jalr beq bne blt bge bltu : InstructionType
  bgeu lb lh lw lbu lhu sb sh sw : InstructionType
  addi slti sltiu xori ori andi slli srli srai : InstructionType
  add sub sll slt sltu xor srl sra or : InstructionType
  and fence fencetso pause ecall ebreak : InstructionType
  -- RV64I Base Instruction Set
  lwu ld sd addiw slliw srliw sraiw addw subw : InstructionType
  sllw srlw sraw : InstructionType
  -- Zifencei Standard Extension
  fencei : InstructionType
  -- Zicsr Standard Extension
  csrrw csrrs csrrc csrrwi csrrsi csrrci : InstructionType
  -- RV32M Standard Extension
  mul mulh mulhsu mulhu div divu rem remu : InstructionType
  -- RV64M Standard Extension
  mulw divw divuw remw remuw : InstructionType
  -- RV32A Standard Extension
  lrw scw amoswapw amoaddw amoxorw amoandw amoorw amominw amomaxw : InstructionType
  amominuw amomaxuw : InstructionType
  -- RV64A Standard Extension
  lrd scd amoswapd amoaddd amoxord amoandd amoord amomind amomaxd : InstructionType
  amominud amomaxud : InstructionType
  -- RV32F Standard Extension
  flw fsw fmadds fmsubs fnmadds fnmsubs fadds fsubs fmuls : InstructionType
  fdivs fsqrts fsgnjs fsgnjns fsgnjxs fmins fmaxs feqs flts : InstructionType
  fles fclasss fcvtws fcvtsw fcvtwus fcvtswu fmvxw fmvwx : InstructionType
  -- RV64F Standard Extension
  fcvtls fcvtsl fcvtlus fcvtslu : InstructionType
  -- RV32D Standard Extension
  fld fsd fmaddd fmsubd fnmaddd fnmsubd faddd fsubd fmuld : InstructionType
  fdivd fsqrtd fsgnjd fsgnjnd fsgnjxd fmind fmaxd feqd fltd : InstructionType
  fled fclassd fcvtsd fcvtds fcvtwd fcvtdw fcvtwud fcvtdwu : InstructionType
  -- RV64D Standard Extension
  fcvtld fcvtdl fcvtlud fcvtdlu fmvxd fmvdx : InstructionType

-- The union of `immediate` and `floatOp`: the member written last. A `floatOp` of which only the
-- rounding mode was written has no third source register.
pub data Payload : Type 0 where
  immediate : ℕ → Payload
  float_op : ℕ → Option ℕ → Payload

pub record Instruction : Type 0 where
  pub payload : Payload
  pub destination_register : ℕ
  pub source_register1 : ℕ
  pub source_register2 : ℕ
  pub type : InstructionType

-- `Instruction instruction {}`
abbrev pub empty_instruction : Instruction
empty_instruction = record {
  payload = immediate 0;
  destination_register = 0;
  source_register1 = 0;
  source_register2 = 0;
  type = lui;
}

-- A read of `instr.immediate`, which is undefined after a write to `floatOp`.
abbrev pub read_immediate : Instruction → Result ℕ
read_immediate instr = elim instr.payload [
  | immediate x ↦ ok x
  | float_op mode register ↦ undefined
]
