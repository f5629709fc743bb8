-- ===== src/Lib.antt =====
-- A model of simple-risc-v-emulator, an emulator of a RISC-V hart (RV64G, little endian), and
-- the theorems about it.
--
-- The callbacks of SDL (src/main.cpp) start an `App` (src/app.cpp) with the `Options` of the
-- command line (src/options.cpp) and a `Renderer` (src/renderer.cpp). It reads an ELF file
-- (src/riscv/elf.cpp) into the memory of an `Emulator` (src/riscv/emulator.hpp), which is an
-- `Arena` (src/riscv/utils/arena.hpp), and decodes its code once into a vector of `Instruction`
-- (src/riscv/instruction.hpp, instruction.cpp). At each tick `Emulator::run`
-- (src/riscv/emulator.cpp) executes these on a `Thread` (src/riscv/base.hpp, base.cpp), the state
-- of a hart, until the program counter leaves the vector or an exception is thrown, and then the
-- framebuffer, which lies in the arena, is presented.
--
-- What each file models:
-- - Bits: src/riscv/utils/bits.hpp. `has_bit`, `set_bit`, `clear_bit`, `one_bits`, `get_bits`
--   and `sign_extend` take the width of the C++ type as an argument where the result depends on
--   it.
-- - Memory: src/riscv/utils/memory.hpp, `load_u16` to `store_u64`. A pointer is the list of
--   bytes from it to the end of its buffer; `std::endian::native` is an argument.
-- - Hart: src/riscv/base.hpp and base.cpp. `RegisterFile` and `Thread` are records; a method
--   that changes its object returns the new one. Time is `Thread::getTime`, with the clock as an
--   argument, and Names the enumerations of registers.
-- - Instruction: src/riscv/instruction.hpp and instruction.cpp. Types has the enumeration and
--   the record, Fields the getters and the readers of the formats, Integer, System and Floating
--   the decoders of the opcodes, and Decode `decode_instruction` and `decode_instructions`. The
--   switch of a decoder is a function to the type. Program has a reference for whole programs.
--   Isa has the encodings of the instruction set manual: the code of every type (Codes), the
--   word of an instruction with its operands (Assemble), and what the decoder makes of it and of
--   whole programs (Programs).
-- - Arena: src/riscv/utils/arena.hpp. The address of the storage is a field, since alignment
--   depends on it; `std::align` is written out after the C++ standard. `allocate_array` is for
--   items that are numbers, and Items has the call for any items, whose constructors are an
--   argument, with the cleanup (Cleanup is about it).
-- - Emulator: src/riscv/emulator.hpp and emulator.cpp. Execute is the switch of the loop, Run
--   the loop, Syscalls the table of custom handlers, Numbers the numbers of the system calls, also
--   those of src/app.cpp. Manual and Machine are the instruction set manual on the types that the
--   loop supports. WellFormed has the invariants of threads and instructions, Safety is
--   about the loop under them, and Decoded about the instructions that come from the decoders.
-- - Elf: src/riscv/elf.cpp. Header is `ElfHeader`, Segments `SegmentHeader` and
--   `readSegmentHeaders`, Sort `sortHeadersBySegmentAddresses`, Validate the two validations, and
--   Load the copying, the mapping and `loadElf`. Format is the file by the offsets of ELF64, with
--   which the others compare the loader, in the order of the calls: Reading, Valid, Found, Layout,
--   Copy, Mapped, and Correct for the whole.
-- - App: src/app.cpp (State, Start), src/options.cpp (Options), src/renderer.cpp (Renderer) and
--   src/main.cpp (Callbacks). A body that calls SDL is a `Traced` one (Calls): it has the calls in
--   their order next to its result. Keys, Memory, Ticks, Frames, Started and Contained are about
--   these, and Session about the callbacks in the order in which SDL calls them.
-- - Common: what these share. Tests: the theorems at concrete inputs.
--
-- Integers are natural numbers with the wrap-around of their width written out; a signed
-- integer is its two's complement pattern. A call returns `ok`, or `throw` with the exception,
-- or `undefined` where C++ gives no meaning, such as an access out of range. Exceptions carry
-- data in place of their texts.
--
-- The loop of `Emulator::run` need not end, so `run` takes a number of rounds and returns
-- `running` when they are used up. Emulator/Ending is about how many are enough. No other
-- function needs a bound.
--
-- What is not under src/ is an argument, with what is asked of it as a hypothesis: `std::sort`
-- gives the same headers in order (Elf.Sort), the allocator has a greatest size for vectors, and
-- `SDL_UpdateTexture` takes rows of bytes that are there (App.Ticks). The parser of the
-- command line is the three values that it stores, and the file system a function from paths.
--
-- Not modelled: the values of float registers, which no code computes with, the messages on the
-- error stream, and the allocation of the vectors that hold headers, instructions, key events
-- and the file. A custom handler is any function of the thread and the emulator.
pub mod Common
pub mod Bits
pub mod Memory
pub mod Hart
pub mod Instruction
pub mod App
pub mod Arena
pub mod Emulator
pub mod Elf
pub mod Tests
