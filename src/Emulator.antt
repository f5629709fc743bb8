-- ===== src/Emulator.antt =====
-- src/riscv/emulator.hpp and emulator.cpp: the emulator, its custom system calls and its loop. The
-- thread that the loop changes in place is passed on; a thrown exception ends the loop.
pub mod Execute
pub mod Run
pub mod Syscalls
pub mod Numbers
pub mod WellFormed
pub mod Decoded
pub mod Safety
pub mod Manual
pub mod Control
pub mod Machine
pub mod Ending
