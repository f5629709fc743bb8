-- ===== src/Instruction/Isa.antt =====
-- What the decoder of src/riscv/instruction.cpp is to do, taken from the instruction set manual,
-- and the decoder held against it.
pub mod Codes
pub mod Assemble
pub mod Formats
pub mod Parts
pub mod Tables
pub mod Reads
pub mod RoundTrip
pub mod Words
pub mod Programs
pub mod Departures
