-- ===== src/Instruction.antt =====
-- src/riscv/instruction.hpp and instruction.cpp: the decoder. The children follow the source from
-- top to bottom; the ones under `Isa` state what the decoder is to do and relate the two.
pub mod Types
pub mod Fields
pub mod Integer
pub mod System
pub mod Floating
pub mod Decode
pub mod Isa
pub mod Program
