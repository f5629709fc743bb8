-- ===== src/Instruction/Isa/Reads.antt =====
-- The decoder on the words of each group of instructions.
pub mod Integer
pub mod Shift
pub mod Upper
pub mod System
pub mod Floating
