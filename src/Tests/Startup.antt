-- ===== src/Tests/Startup.antt =====
-- src/app.cpp and src/main.cpp: a program that is started on a small file, its ticks and its keys.
use mathlib.Core.List.{map}
use simple_risc_v_emulator.Common.{length, none, Option, Result}
use simple_risc_v_emulator.Arena.{make_arena}
use simple_risc_v_emulator.App.Options.{parse_options}
use simple_risc_v_emulator.App.Renderer.{make_renderer, present_empty_frame}
use simple_risc_v_emulator.App.State.{make_emulator, read_program_file}
use simple_risc_v_emulator.App.Callbacks.{app_init, AppResult, app_continue, Program, alive}
use simple_risc_v_emulator.Common.{
  ℕ, ◌+◌, ◌*◌, ◌≤◌, ◌<◌, ◌≡◌, refl, arith, List, [], ◌∷◌, ◌++◌, All, get_elem?, replicate,
}
use simple_risc_v_emulator.Common.{true, false, some, ok, subst}
use simple_risc_v_emulator.Memory.{little, load_u16, load_u32, load_u64}
use simple_risc_v_emulator.Memory.Value.{IsByte}
use simple_risc_v_emulator.Arena.{Arena}
use simple_risc_v_emulator.Hart.{initial_thread}
use simple_risc_v_emulator.Emulator.Syscalls.{Emulator}
use simple_risc_v_emulator.Emulator.Decoded.Parts.{Gives}
use simple_risc_v_emulator.Instruction.Types.{empty_instruction, immediate, jal}
use simple_risc_v_emulator.Bits.{get_bits, sign_extend}
use simple_risc_v_emulator.Instruction.Fields.{
  get_opcode, read_fields_j, get_immediate_j, get_destination_register,
}
use simple_risc_v_emulator.Instruction.Decode.{decode_instruction}
use simple_risc_v_emulator.Arena.{allocate_array, allocate_raw, align, get_free_offset}
use simple_risc_v_emulator.Elf.Header.{read_elf_header}
use simple_risc_v_emulator.Elf.Segments.{read_segment_header, read_segment_headers, classify}
use simple_risc_v_emulator.Elf.Sort.{insertion_sort}
use simple_risc_v_emulator.Elf.Validate.{validate_data_headers, validate_code_headers}
use simple_risc_v_emulator.Elf.Load.{load_elf}
use simple_risc_v_emulator.Elf.Ends.{Ends}
use simple_risc_v_emulator.Elf.Correct.{IsLoaded, Refusal, IsUnwrappedFile}
use simple_risc_v_emulator.Elf.Correct.Proof.{load_elf-IsLoaded}
use simple_risc_v_emulator.App.Options.{Arguments}
use simple_risc_v_emulator.App.Renderer.{Sdl}
use simple_risc_v_emulator.App.State.{Environment, App, allocate_framebuffer}
use simple_risc_v_emulator.App.Start.{load_app, make_app}
use simple_risc_v_emulator.App.Callbacks.{app_iterate}
use simple_risc_v_emulator.App.Keys.{
  Press, to_event, read_event, known, deliver, deliver-key_events,
}
use simple_risc_v_emulator.App.Memory.{allocate_framebuffer-overwrites}
use simple_risc_v_emulator.App.Ticks.{IsReady, IsDocumented}
use simple_risc_v_emulator.App.Started.{HasPrograms, make_app-IsReady}
use simple_risc_v_emulator.App.Contained.{IsContained, app_iterate-IsContained}
use simple_risc_v_emulator.Tests.Loop.{initial_thread-IsThread, call_next, call_next-IsRunnable}
use simple_risc_v_emulator.Tests.Programs.{
  elf_file, elf_file-IsByte, elf_file-IsUnwrappedFile, test_host, test_emulator,
  test_emulator-IsArena,
}

-- An SDL that creates everything and takes every update.
abbrev pub test_sdl : Sdl
test_sdl = record {
  window_created = λ w h. true;
  renderer_created = true;
  texture_created = λ w h. true;
  update_texture = λ w h pixels pitch. ok tt;
}

pub test_sdl-IsDocumented : IsDocumented test_sdl
test_sdl-IsDocumented width height pitch pixels a b c = refl

abbrev pub test_environment : Environment
test_environment = record {
  host = test_host;
  sdl = test_sdl;
  read_file = λ path. some elf_file;
  memory_base = 4096;
  clock = record { now = 0; numerator = 1; denominator = 1 };
}

pub test_environment-HasPrograms : HasPrograms test_environment
test_environment-HasPrograms path source e =
    let same : elf_file ≡ source = cc in
    subst (λ s. All IsByte s × IsUnwrappedFile little s) same
      (elf_file-IsByte, elf_file-IsUnwrappedFile)

abbrev pub test_arguments : Arguments
test_arguments = record { program_path = []; framebuffer_size = 2 ∷ 3 ∷ []; memory_size_kib = 16 }

make_app-IsReady_example :
    Gives (IsReady {H = Unit {0}}) (make_app test_environment test_arguments).result
make_app-IsReady_example =
    make_app-IsReady (Unit {0}) test_environment test_environment-HasPrograms test_arguments 2 3
      refl (omega arith)

abbrev pub test_app : App (Unit {0})
test_app = record {
  options = record {
    program_path = [];
    framebuffer_width = 2;
    framebuffer_height = 1;
    memory_size = 16;
  };
  emulator = record test_emulator { instructions = call_next ∷ [] };
  main_thread = initial_thread;
  renderer = record { framebuffer_width = 2; framebuffer_height = 1 };
  framebuffer = record { pointer = 68; pixel_count = 2 };
  key_events = 3 ∷ [];
}

pub test_app-IsReady : IsReady test_app
test_app-IsReady = record {
  runnable = (call_next-IsRunnable, tt);
  thread = initial_thread-IsThread;
  width_positive = (omega arith, omega arith);
  narrow = omega arith;
  height_positive = (omega arith, omega arith);
  above = omega arith;
  inside = omega arith;
}

app_iterate-IsContained_example : IsContained (app_iterate test_sdl 3 test_app)
app_iterate-IsContained_example =
    app_iterate-IsContained test_sdl 3 test_app test_sdl-IsDocumented test_app-IsReady

abbrev presses : List Press
presses = (97, true) ∷ (0, true) ∷ (97, false) ∷ []

deliver-key_events_example :
    (events : List ℕ) × (deliver (map to_event presses) test_app
      ≡ ok (record test_app { key_events = 3 ∷ events }))
    × (map read_event events ≡ known presses)
deliver-key_events_example =
    deliver-key_events presses test_app (omega arith, (omega arith, (omega arith, tt)))

-- `elf_file` in `test_emulator`.
abbrev loaded_emulator : Emulator (Unit {0})
loaded_emulator = record {
  memory = record {
    base = 64;
    storage = 5 ∷ 5 ∷ 5 ∷ 5 ∷ 0 ∷ 7 ∷ 9 ∷ 0 ∷ 0 ∷ 0 ∷ 0 ∷ 5 ∷ 5 ∷ 5 ∷ 5 ∷ 5 ∷ [];
    free_space = 12;
  };
  instructions = record empty_instruction { payload = immediate 0; type = jal } ∷ [];
  custom_syscall_handlers = [];
  start_time = 0;
}

elf_file-loaded : load_elf test_host elf_file test_emulator ≡ ok loaded_emulator
unfolding load_elf read_elf_header load_u16 load_u32 load_u64 read_segment_headers
    read_segment_header classify validate_data_headers validate_code_headers insertion_sort
    allocate_raw align get_free_offset decode_instruction get_opcode get_bits read_fields_j
    get_immediate_j get_destination_register sign_extend
elf_file-loaded = refl

loaded : IsLoaded test_host elf_file test_emulator loaded_emulator
loaded =
    subst
      (Ends (IsLoaded test_host elf_file test_emulator)
        (Refusal test_host elf_file test_emulator.memory))
      elf_file-loaded
      (load_elf-IsLoaded test_host elf_file elf_file-IsByte test_emulator test_emulator-IsArena
        elf_file-IsUnwrappedFile)

-- The framebuffer of two pixels.
abbrev framed_memory : Arena
framed_memory = record {
  base = 64;
  storage = (5 ∷ 5 ∷ 5 ∷ 5 ∷ []) ++ replicate 8 0 ++ (5 ∷ 5 ∷ 5 ∷ 5 ∷ []);
  free_space = 12;
}

framebuffer-allocated :
    allocate_framebuffer test_app.options loaded_emulator.memory ≡ ok (68, framed_memory)
unfolding allocate_framebuffer allocate_array allocate_raw align get_free_offset
framebuffer-allocated = refl

allocate_framebuffer-overwrites_example :
    (68 < 64 + loaded.data_loaded.offset + 4)
    × ((j : ℕ)
        → loaded.data_loaded.offset + 3 ≤ j
        → j < loaded.data_loaded.offset + 4 * (2 * 1)
        → get_elem? framed_memory.storage j ≡ some 0)
allocate_framebuffer-overwrites_example =
    allocate_framebuffer-overwrites test_host elf_file test_emulator loaded_emulator
      test_app.options loaded 68 framed_memory (omega arith, omega arith) (omega arith, omega arith)
      framebuffer-allocated

-- Whether the program goes on, and with how many instructions.
abbrev started : Result (AppResult × Program (Unit {0})) → Option ℕ
started (ok (app_continue, alive app)) = some (length app.emulator.instructions)
started _ = none

-- One KiB is enough for `elf_file` and a framebuffer of six pixels.
app_init-started :
    started (app_init true test_environment (record test_arguments { memory_size_kib = 1 })).result
    ≡ some 1
unfolding app_init make_app load_app present_empty_frame parse_options make_emulator make_arena
    make_renderer read_program_file load_elf read_elf_header load_u16 load_u32 load_u64
    read_segment_headers read_segment_header classify validate_data_headers validate_code_headers
    insertion_sort allocate_framebuffer allocate_array allocate_raw align get_free_offset
    decode_instruction get_opcode get_bits read_fields_j get_immediate_j get_destination_register
    sign_extend
app_init-started = refl

-- After a failure to start SDL nothing is tried.
app_init-no_video : started (app_init false test_environment test_arguments).result ≡ none
unfolding app_init
app_init-no_video = refl
