-- ===== src/Elf/Correct/Results.antt =====
-- src/riscv/elf.cpp: consequences for a loaded program.
use simple_risc_v_emulator.Common.{ℕ, ◌≡◌, ◌∙◌, sym, ok}
use simple_risc_v_emulator.Instruction.Types.{Instruction}
use simple_risc_v_emulator.Instruction.Program.{decode_program, decode_instructions-eq}
use simple_risc_v_emulator.Common.{List, All}
use simple_risc_v_emulator.Memory.Value.{IsByte}
use simple_risc_v_emulator.Arena.Laws.{IsArena}
use simple_risc_v_emulator.Hart.{Thread}
use simple_risc_v_emulator.Emulator.Syscalls.{Emulator}
use simple_risc_v_emulator.Emulator.WellFormed.{IsThread}
use simple_risc_v_emulator.Emulator.Run.{run}
use simple_risc_v_emulator.Emulator.Machine.{Machine, emulator, machine_run, Represents, IsRefined}
use simple_risc_v_emulator.Emulator.Machine.Refinement.{run-machine_run}
use simple_risc_v_emulator.Elf.Load.{Host, load_elf}
use simple_risc_v_emulator.Elf.Ends.{Ends, Ends-weaken}
use simple_risc_v_emulator.Elf.Correct.{IsUnwrappedFile, Refusal, IsLoaded}
use simple_risc_v_emulator.Elf.Correct.Proof.{load_elf-IsLoaded}

-- A program that is loaded runs as the manual says, up to the two departures of the loop. When
-- `loadElf` returns, the code segments of the file, by its program headers, make an image (that of
-- `IsLoaded`) whose words decode by the reference, and from any well-formed thread that holds a
-- machine's state, and for any number of rounds, `run` on the instructions that have been set ends
-- as the machine does on those that the reference gives; so it has no undefined behaviour. Else
-- `loadElf` throws for one of the defects that `Refusal` lists. The file's bytes are arbitrary,
-- but its table and loadable segments end at numbers of 64 bits.
pub load_elf-run-machine_run :
    {H : Type 0} (host : Host) (source : List ℕ) (e : Emulator H) (rounds : ℕ) (t : Thread)
    (m : Machine)
    → All IsByte source
    → IsArena e.memory
    → IsThread t
    → Represents t m
    → IsUnwrappedFile host.native source
    → Ends
        (λ e'.
          (l : IsLoaded host source e e') × (code : List Instruction) × (decode_program l.image
            ≡ ok code)
          × IsRefined (run rounds e'.instructions t) (machine_run emulator rounds code m))
        (Refusal host source e.memory)
        (load_elf host source e)
load_elf-run-machine_run host source e rounds t m bytes v thread same unwrapped =
    Ends-weaken (IsLoaded host source e) _ (Refusal host source e.memory)
      (Refusal host source e.memory) (load_elf host source e)
      (λ e' l. (
        l,
        e'.instructions,
        sym (decode_instructions-eq host.native l.image l.image_bytes) ∙ l.decoded,
        run-machine_run rounds e'.instructions t m l.runnable thread same,
      ))
      (λ x r. r) (load_elf-IsLoaded host source bytes e v unwrapped)
