-- ===== src/App/Start.antt =====
-- src/app.cpp: the constructor of `App` and `tick`, with the calls of SDL that they make.
use simple_risc_v_emulator.Common.{ℕ, ◌-◌, ◌*◌, ◌%◌, ◌^◌, [], drop}
use simple_risc_v_emulator.Common.{Option, none, some, ok, throw, undefined}
use simple_risc_v_emulator.Hart.{initial_thread}
use simple_risc_v_emulator.Emulator.Syscalls.{Emulator}
use simple_risc_v_emulator.Emulator.Run.{Outcome, finished, failed, faulted, running, run}
use simple_risc_v_emulator.Elf.Load.{load_elf}
use simple_risc_v_emulator.App.Options.{Options, Arguments, parse_options}
use simple_risc_v_emulator.App.Calls.{Traced, ◌>>=◌, ◌>>◌, lift, unwinding}
use simple_risc_v_emulator.App.Renderer.{
  Sdl, Renderer, make_renderer, destroy_renderer, present_empty_frame, present_framebuffer,
}
use simple_risc_v_emulator.App.State.{
  Environment, App, make_emulator, read_program_file, allocate_framebuffer,
}

module _ {H : Type 0} where
  -- The body of the constructor.
  unfoldable pub load_app : Environment → Options → Emulator H → Renderer → Traced (App H)
  unfolding read_program_file allocate_framebuffer
  load_app env options emulator renderer = do
    program_data ← lift (read_program_file env options.program_path)
    loaded ← lift (load_elf env.host program_data emulator)
    (pointer, memory) ← lift (allocate_framebuffer options loaded.memory)
    present_empty_frame
    lift (
        ok (record {
          options = options;
          emulator = record loaded { memory = memory };
          main_thread = initial_thread;
          renderer = renderer;
          framebuffer = record {
            pointer = pointer;
            pixel_count = options.framebuffer_width * options.framebuffer_height % 2 ^ 64;
          };
          key_events = [];
        }))

  -- The members are constructed before the body runs; when it throws, they are destroyed.
  unfoldable pub make_app : Environment → Arguments → Traced (App H)
  unfolding make_emulator load_app
  make_app env args = do
    options ← lift (parse_options args)
    emulator ← lift (make_emulator env options.memory_size)
    renderer ← make_renderer env.sdl options.framebuffer_width options.framebuffer_height
    unwinding destroy_renderer (load_app env options emulator renderer)

  -- What follows `emulator.run(mainThread)`; `none` when it still runs.
  unfoldable pub after_run : Sdl → App H → Outcome → Option (Traced (App H))
  after_run sdl app (finished t) =
      let arena = app.emulator.memory in
      some (
        present_framebuffer sdl app.renderer
          (drop (app.framebuffer.pointer - arena.base) arena.storage)
        >> lift (ok (record app { main_thread = t })))
  after_run sdl app (failed e) = some (lift (throw e))
  after_run sdl app faulted = some (lift undefined)
  after_run sdl app (running t) = none

  unfoldable pub tick : Sdl → ℕ → App H → Option (Traced (App H))
  unfolding after_run
  tick sdl rounds app = after_run sdl app (run rounds app.emulator.instructions app.main_thread)
