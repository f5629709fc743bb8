-- ===== src/App/State.antt =====
-- src/app.cpp, src/app.hpp: the state of `App`, the parts of its constructor that do not call SDL, and
-- `handleKey`.
use simple_risc_v_emulator.Common.{ℕ, ◌-◌, ◌*◌, ◌%◌, ◌^◌, List, [], ◌∷◌, ◌++◌}
use simple_risc_v_emulator.Common.{Bool, true, false, ◌==◌, if◌then◌else◌, Option, none, some}
use simple_risc_v_emulator.Common.{Result, ok, throw, undefined, ◌>>=◌, runtime_error, bad_alloc}
use simple_risc_v_emulator.Common.{no_program_file, no_memory_for_framebuffer}
use simple_risc_v_emulator.Arena.{Arena, make_arena, allocate_array}
use simple_risc_v_emulator.Hart.{Thread}
use simple_risc_v_emulator.Hart.Time.{Clock}
use simple_risc_v_emulator.Emulator.Syscalls.{Emulator}
use simple_risc_v_emulator.Elf.Load.{Host, make_vector}
use simple_risc_v_emulator.App.Options.{Options}
use simple_risc_v_emulator.App.Renderer.{Sdl, Renderer, pixel_size}

-- What the program is started in: the host, SDL, the files, the address at which the allocator
-- places the guest memory, and the clock.
pub record Environment : Type 0 where
  pub host : Host
  pub sdl : Sdl
  pub read_file : List ℕ → Option (List ℕ)
  pub memory_base : ℕ
  pub clock : Clock

-- `std::span<Renderer::Pixel>`
pub record Framebuffer : Type 0 where
  pub pointer : ℕ
  pub pixel_count : ℕ

pub record App (H : Type 0) : Type 0 where
  pub options : Options
  pub emulator : Emulator H
  pub main_thread : Thread
  pub renderer : Renderer
  pub framebuffer : Framebuffer
  pub key_events : List ℕ

-- `readProgramFile`
unfoldable pub read_program_file : Environment → List ℕ → Result (List ℕ)
read_program_file env path = elim (env.read_file path) [
  | none ↦ throw (runtime_error no_program_file)
  | some bytes ↦ ok bytes
]

-- `catch (std::bad_alloc const&)` around the allocation.
abbrev pub catch_full : Result (ℕ × Arena) → Result (ℕ × Arena)
catch_full (throw bad_alloc) = throw (runtime_error no_memory_for_framebuffer)
catch_full r = r

unfoldable pub allocate_framebuffer : Options → Arena → Result (ℕ × Arena)
allocate_framebuffer o memory = catch_full (
    allocate_array pixel_size pixel_size (o.framebuffer_width * o.framebuffer_height % 2 ^ 64)
      memory)

-- Pushed with the sign of a release; `-x` of the least `int32_t` is undefined.
unfoldable pub key_event : ℕ → Bool → Result ℕ
key_event key_code true = ok key_code
key_event key_code false =
    if key_code == 2 ^ 31 then undefined else ok ((2 ^ 32 - key_code) % 2 ^ 32)

abbrev pub sdlk_unknown : ℕ
sdlk_unknown = 0

module _ {H : Type 0} where
  -- `Emulator(size_t)`: the vector of the arena is allocated.
  unfoldable pub make_emulator : Environment → ℕ → Result (Emulator H)
  make_emulator env memory_size = do
    storage ← make_vector env.host.vector_limit memory_size
    ok (record {
      memory = make_arena env.memory_base memory_size;
      instructions = [];
      custom_syscall_handlers = [];
      start_time = env.clock.now;
    })

  unfoldable pub handle_key : ℕ → Bool → App H → Result (App H)
  unfolding key_event
  handle_key key_code is_key_down app =
      if key_code == sdlk_unknown
      then ok app
      else (key_event key_code is_key_down >>= λ event.
          ok (record app { key_events = app.key_events ++ (event ∷ []) }))
