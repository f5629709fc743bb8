-- ===== src/Instruction/Isa/Tables.antt =====
-- The switches of the decoder against the table of the manual.
pub mod Integer
pub mod System
pub mod Floating
pub mod OpFp
