-- ===== src/Tests/Loop.antt =====
-- src/riscv/emulator.cpp on short programs.
use simple_risc_v_emulator.Common.{List, [], ◌∷◌, ◌≡◌, ◌≤◌, refl, arith}
use simple_risc_v_emulator.Common.{All}
use simple_risc_v_emulator.Hart.{Thread, initial_thread, get_register, get_instruction_index}
use simple_risc_v_emulator.Arena.Fill.{get_elem?-zeros}
use simple_risc_v_emulator.Hart.Registers.{zero_registers-IsFile}
use simple_risc_v_emulator.Instruction.Types.{Instruction, immediate, empty_instruction}
use simple_risc_v_emulator.Instruction.Types.{jal, beq, addi}
use simple_risc_v_emulator.Emulator.Run.{finished, run}
use simple_risc_v_emulator.Emulator.WellFormed.{IsThread, IsRunnable}
use simple_risc_v_emulator.Emulator.Safety.{IsSafeOutcome, run-IsSafe}
use simple_risc_v_emulator.Emulator.Machine.{Machine, emulator, Represents, IsRefined, machine_run}
use simple_risc_v_emulator.Emulator.Machine.Refinement.{run-machine_run}
use simple_risc_v_emulator.Emulator.Ending.{IsForward, run-forward}

pub initial_thread-IsThread : IsThread initial_thread
initial_thread-IsThread = record {
  file = zero_registers-IsFile;
  counter_lt = omega arith;
  cycles_lt = omega arith;
}

-- `jal x1, 4`, `lui x2, 1`, `beq x0, x0, 0` and `addi x1, x1, 1`.
abbrev pub call_next : Instruction
call_next = record empty_instruction { payload = immediate 4; destination_register = 1; type = jal }

abbrev load_upper : Instruction
load_upper = record empty_instruction { payload = immediate 4096; destination_register = 2 }

abbrev stay : Instruction
stay = record empty_instruction { type = beq }

abbrev increment : Instruction
increment = record empty_instruction {
  payload = immediate 1;
  destination_register = 1;
  source_register1 = 1;
  type = addi;
}

abbrev pub forward_program : List Instruction
forward_program = call_next ∷ load_upper ∷ load_upper ∷ stay ∷ []

abbrev failing_program : List Instruction
failing_program = increment ∷ []

pub call_next-IsRunnable : IsRunnable call_next
call_next-IsRunnable = omega arith

load_upper-IsForward : IsForward load_upper
load_upper-IsForward = record {
  value = 4096;
  payload = refl;
  value_lt = omega arith;
  forward = tt;
  runnable = omega arith;
}

pub forward_program-IsForward : All IsForward forward_program
forward_program-IsForward = (
  record {
    value = 4;
    payload = refl;
    value_lt = omega arith;
    forward = omega arith;
    runnable = call_next-IsRunnable;
  },
  (
    load_upper-IsForward,
    (
      load_upper-IsForward,
      (
        record {
          value = 0;
          payload = refl;
          value_lt = omega arith;
          forward = omega arith;
          runnable = omega arith;
        },
        tt,
      ),
    ),
  ),
)

forward_program-IsRunnable : All IsRunnable forward_program
forward_program-IsRunnable = (
  call_next-IsRunnable,
  (load_upper-IsForward.runnable, (load_upper-IsForward.runnable, (omega arith, tt))),
)

run-IsSafe_example : IsSafeOutcome (run 7 forward_program initial_thread)
run-IsSafe_example =
    run-IsSafe 7 forward_program initial_thread forward_program-IsRunnable initial_thread-IsThread

run-forward_example :
    (t' : Thread) × (run 4 forward_program initial_thread ≡ finished t')
    × (4 ≤ get_instruction_index t')
    × IsThread t'
run-forward_example =
    run-forward 4 forward_program initial_thread forward_program-IsForward initial_thread-IsThread
      (omega arith) (omega arith)

-- All registers, the program counter and the count of cycles are zero.
abbrev pub zero_machine : Machine
zero_machine = record { registers = λ j. 0; counter = 0; cycles = 0 }

pub initial_thread-Represents : Represents initial_thread zero_machine
unfolding get_register
initial_thread-Represents = record {
  registers = λ j inside. rw (get_elem?-zeros 32 j inside) refl;
  counter = refl;
  cycles = refl;
}

run-machine_run_example :
    IsRefined
      (run 5 forward_program initial_thread)
      (machine_run emulator 5 forward_program zero_machine)
run-machine_run_example =
    run-machine_run 5 forward_program initial_thread zero_machine forward_program-IsRunnable
      initial_thread-IsThread initial_thread-Represents
