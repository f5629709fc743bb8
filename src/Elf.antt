-- ===== src/Elf.antt =====
-- src/riscv/elf.cpp: loading an ELF executable into the emulator. The file is the list of its
-- bytes; a pointer into it is the list from there on, as in Memory.
pub mod Header
pub mod Segments
pub mod Sort
pub mod Validate
pub mod Load
pub mod Layout
pub mod Copy
pub mod Mapped
pub mod Reading
pub mod Valid
pub mod Ends
pub mod Padding
pub mod Found
pub mod Format
pub mod Correct
pub mod Wrapped
