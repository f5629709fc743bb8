-- ===== src/Emulator/Execute.antt =====
-- src/riscv/emulator.cpp: the body of the loop of `Emulator::run`, one instruction.
use simple_risc_v_emulator.Common.{ℕ, ◌+◌, ◌-◌, ◌%◌, ◌^◌, bit_and, Bool, not}
use simple_risc_v_emulator.Common.{ltb, ltb_ℤ, signed, ◌==◌, if◌then◌else◌}
use simple_risc_v_emulator.Common.{Result, ok, throw, ◌>>=◌, runtime_error, unsupported_instruction}
use simple_risc_v_emulator.Hart.{Thread, get_register, set_register, get_next_program_counter}
use simple_risc_v_emulator.Instruction.Types.{Instruction, InstructionType, read_immediate}
use simple_risc_v_emulator.Instruction.Types.{lui, auipc, jal, jalr, beq, bne, blt, bge, bltu, bgeu}

-- The conversion of an `int32_t` to `uint64_t`, on patterns.
abbrev pub to_u64 : ℕ → ℕ
to_u64 x = if ltb x (2 ^ 31) then x else x + (2 ^ 64 - 2 ^ 32)

-- `t.registers.set(instr.destinationRegister, value)`
abbrev pub set_destination : Instruction → ℕ → Thread → Result Thread
set_destination instr value t = do
  file ← set_register t.registers instr.destination_register value
  ok (record t { registers = file })

-- `t.programCounter += instr.immediate`
abbrev pub add_immediate : Instruction → Thread → Result Thread
add_immediate instr t = do
  value ← read_immediate instr
  ok (record t { program_counter = (t.program_counter + to_u64 value) % 2 ^ 64 })

-- A branch: the test is on the two source registers.
abbrev pub branch : (ℕ → ℕ → Bool) → Instruction → Thread → Result Thread
branch test instr t = do
  left ← get_register t.registers instr.source_register1
  right ← get_register t.registers instr.source_register2
  let taken = add_immediate instr t
  if test left right then taken else ok t

-- `static_cast<int64_t>(a) < static_cast<int64_t>(b)`
abbrev pub less_signed : ℕ → ℕ → Bool
less_signed a b = ltb_ℤ (signed 64 a) (signed 64 b)

-- The switch on the type.
unfoldable pub execute_type : InstructionType → Instruction → Thread → Result Thread
execute_type lui instr t = do value ← read_immediate instr; set_destination instr (to_u64 value) t
execute_type auipc instr t = do
  value ← read_immediate instr
  set_destination instr ((t.program_counter + to_u64 value) % 2 ^ 64) t
execute_type jal instr t = do
  t' ← set_destination instr (get_next_program_counter t) t
  add_immediate instr t'
execute_type jalr instr t = do
  t' ← set_destination instr (get_next_program_counter t) t
  source ← get_register t'.registers instr.source_register1
  value ← read_immediate instr
  let target = (source + to_u64 value) % 2 ^ 64
  ok (record t' { program_counter = bit_and target (2 ^ 64 - 2) })
execute_type beq instr t = branch (λ a b. a == b) instr t
execute_type bne instr t = branch (λ a b. not (a == b)) instr t
execute_type blt instr t = branch less_signed instr t
execute_type bge instr t = branch (λ a b. not (less_signed a b)) instr t
execute_type bltu instr t = branch ltb instr t
execute_type bgeu instr t = branch (λ a b. not (ltb a b)) instr t
execute_type _ instr t = throw (runtime_error unsupported_instruction)

-- One round of the loop: the cycle counter, the switch, and the `for` statement's last part, which
-- `break` out of the switch and `continue` both reach.
unfoldable pub execute : Instruction → Thread → Result Thread
unfolding execute_type
execute instr t = do
  let counted = record t { cycle_counter = (t.cycle_counter + 1) % 2 ^ 64 }
  t' ← execute_type instr.type instr counted
  ok (record t' { program_counter = get_next_program_counter t' })
