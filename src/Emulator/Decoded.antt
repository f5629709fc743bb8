-- ===== src/Emulator/Decoded.antt =====
-- src/riscv/instruction.cpp: the decoders return what `Emulator::run` can run, or throw.
pub mod Parts
pub mod Formats
pub mod Types
pub mod Fields
pub mod Immediates
pub mod Decode
pub mod Program
