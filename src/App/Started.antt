-- ===== src/App/Started.antt =====
-- src/app.cpp: what the constructor of `App` starts.
use simple_risc_v_emulator.Common.{ℕ, ◌*◌, ◌%◌, ◌^◌, ◌<◌, ◌≡◌, refl, sym, subst, arith}
use simple_risc_v_emulator.Common.{
  List, [], ◌∷◌, All, length, replicate, length-replicate, Option, some, none, inl, inr,
}
use simple_risc_v_emulator.Common.{ok, throw, runtime_error, no_program_file}
use simple_risc_v_emulator.Common.{ltb, Bool-cases, ltb→lt}
use simple_risc_v_emulator.Memory.Value.{IsByte}
use simple_risc_v_emulator.Arena.{Arena, make_arena}
use simple_risc_v_emulator.Arena.Laws.{IsArena}
use simple_risc_v_emulator.Hart.{initial_thread}
use simple_risc_v_emulator.Hart.Registers.{zero_registers-IsFile}
use simple_risc_v_emulator.Emulator.Syscalls.{Emulator}
use simple_risc_v_emulator.Emulator.Decoded.Parts.{Gives}
use simple_risc_v_emulator.Elf.Load.{Host, load_elf}
use simple_risc_v_emulator.Elf.Ends.{Ends-Gives}
use simple_risc_v_emulator.Elf.Correct.{IsUnwrappedFile, IsLoaded, Refusal}
use simple_risc_v_emulator.Elf.Correct.Proof.{load_elf-IsLoaded}
use simple_risc_v_emulator.App.Options.{Options, Arguments, IsPositive, parse_options_lem}
use simple_risc_v_emulator.App.Calls.{◌>>=◌, lift, unwinding, Gives-follow}
use simple_risc_v_emulator.App.Renderer.{
  Sdl, Renderer, make_renderer, destroy_renderer, present_empty_frame,
}
use simple_risc_v_emulator.App.State.{
  Environment, make_emulator, read_program_file, allocate_framebuffer,
}
use simple_risc_v_emulator.App.Start.{load_app, make_app}
use simple_risc_v_emulator.App.Memory.{allocate_framebuffer-cases}
use simple_risc_v_emulator.App.Ticks.{IsReady}

-- `Arena(size_t)` for a size that a vector can have.
make_emulator-IsArena :
    (H : Type 0) (env : Environment) (size : ℕ)
    → Gives (λ (e : Emulator H). IsArena e.memory) (make_emulator env size)
unfolding make_emulator make_arena
make_emulator-IsArena H env size = elim (Bool-cases (ltb size (2 ^ 63))) [
  | inr e ↦ rw e tt
  | inl e ↦
      let lt : size < 2 ^ 63 = ltb→lt size (2 ^ 63) e in
      let long : length (replicate size 0) ≡ size = length-replicate {A = ℕ} size 0 in
      rw e (elim (Bool-cases (ltb env.host.vector_limit size)) [
        | inl over ↦ rw over tt
        | inr within ↦
            rw within (record { free_le = omega (arith, long); size_lt = omega (arith, long) })
      ])
]

make_renderer-size :
    (sdl : Sdl) (w h : ℕ)
    → Gives
        (λ r. (r.framebuffer_width ≡ w) × (r.framebuffer_height ≡ h))
        (make_renderer sdl w h).result
unfolding make_renderer
make_renderer-size sdl w h = elim (Bool-cases (sdl.window_created (w % 2 ^ 32) (h % 2 ^ 32))) [
  | inr e ↦ rw e tt
  | inl e ↦ elim (Bool-cases sdl.renderer_created) [
    | inr e' ↦ rw (e, e') tt
    | inl e' ↦ elim (Bool-cases (sdl.texture_created (w % 2 ^ 32) (h % 2 ^ 32))) [
      | inr e'' ↦ rw (e, e', e'') tt
      | inl e'' ↦ rw (e, e', e'') (refl, refl)
    ]
  ]
]

read-Gives :
    (P : List ℕ → Type 0) (r : Option (List ℕ))
    → ((source : List ℕ) → r ≡ some source → P source)
    → Gives P (elim r [ none ↦ throw (runtime_error no_program_file) | some bytes ↦ ok bytes ])
read-Gives P none f = tt
read-Gives P (some source) f = f source refl

read_program_file-read :
    (env : Environment) (path : List ℕ)
    → Gives (λ source. env.read_file path ≡ some source) (read_program_file env path)
unfolding read_program_file
read_program_file-read env path =
    read-Gives (λ source. env.read_file path ≡ some source) (env.read_file path) (λ source e. e)

-- The program files can be loaded: bytes, in a file whose tables do not wrap around.
abbrev pub HasPrograms : Environment → Type 0
HasPrograms env =
    (path source : List ℕ)
    → env.read_file path ≡ some source
    → All IsByte source × IsUnwrappedFile env.host.native source

load_elf-Gives :
    {H : Type 0} (host : Host) (source : List ℕ) (e : Emulator H)
    → IsArena e.memory
    → All IsByte source × IsUnwrappedFile host.native source
    → Gives (IsLoaded host source e) (load_elf host source e)
load_elf-Gives host source e v file =
    Ends-Gives (IsLoaded host source e) (Refusal host source e.memory) (load_elf host source e)
      (load_elf-IsLoaded host source file.0 e v file.1)

module _ (H : Type 0) (env : Environment) (programs : HasPrograms env) (args : Arguments) where
  -- From the loaded program on.
  framed-IsReady :
      (o : Options) (r : Renderer) (source : List ℕ) (before loaded : Emulator H)
      → IsLoaded env.host source before loaded
      → IsPositive o.framebuffer_width
      → o.framebuffer_width < 2 ^ 29
      → IsPositive o.framebuffer_height
      → r.framebuffer_width ≡ o.framebuffer_width
      → r.framebuffer_height ≡ o.framebuffer_height
      → Gives
          (λ (got : ℕ × Arena). IsReady (record {
            options = o;
            emulator = record loaded { memory = got.1 };
            main_thread = initial_thread;
            renderer = r;
            framebuffer = record {
              pointer = got.0;
              pixel_count = o.framebuffer_width * o.framebuffer_height % 2 ^ 64;
            };
            key_events = [];
          }))
          (allocate_framebuffer o loaded.memory)
  framed-IsReady o r source before loaded l pw narrow ph same_w same_h =
      elim (allocate_framebuffer-cases o loaded.memory l.data_loaded.arena pw ph) [
        | inl full ↦ rw full tt
        | inr (p, left, s, got, array) ↦ rw got (record {
          runnable = l.runnable;
          thread = record {
            file = zero_registers-IsFile;
            counter_lt = omega arith;
            cycles_lt = omega arith;
          };
          width_positive = subst IsPositive (sym same_w) pw;
          narrow = rw same_w narrow;
          height_positive = subst IsPositive (sym same_h) ph;
          above = omega (arith, array.above);
          inside = rw (same_w, same_h) (omega (arith, array.inside, array.zeroed.same_length));
        })
      ]

  -- The body of the constructor.
  load_app-IsReady :
      (o : Options) (e : Emulator H) (r : Renderer)
      → IsArena e.memory
      → IsPositive o.framebuffer_width
      → o.framebuffer_width < 2 ^ 29
      → IsPositive o.framebuffer_height
      → (r.framebuffer_width ≡ o.framebuffer_width) × (r.framebuffer_height ≡ o.framebuffer_height)
      → Gives (IsReady {H = H}) (load_app env o e r).result
  unfolding load_app present_empty_frame
  load_app-IsReady o e r v pw narrow ph same =
      Gives-follow _ IsReady [] (read_program_file env o.program_path) _
        (read_program_file-read env o.program_path)
        (λ source read.
          Gives-follow _ IsReady [] (load_elf env.host source e) _
            (load_elf-Gives env.host source e v (programs o.program_path source read))
            (λ loaded l.
              Gives-follow _ IsReady [] (allocate_framebuffer o loaded.memory) _
                (framed-IsReady o r source e loaded l pw narrow ph same.0 same.1)
                (λ got ready. ready)))

  started-IsReady :
      (o : Options)
      → IsPositive o.framebuffer_width
      → o.framebuffer_width < 2 ^ 29
      → IsPositive o.framebuffer_height
      → Gives
          (IsReady {H = H})
          (do
            emulator ← lift (make_emulator env o.memory_size)
            renderer ← make_renderer env.sdl o.framebuffer_width o.framebuffer_height
            unwinding destroy_renderer (load_app env o emulator renderer)).result
  started-IsReady o pw narrow ph =
      let made = make_renderer env.sdl o.framebuffer_width o.framebuffer_height in
      Gives-follow (λ (e : Emulator H). IsArena e.memory) IsReady []
        (make_emulator env o.memory_size) _ (make_emulator-IsArena H env o.memory_size)
        (λ e v.
          Gives-follow _ IsReady made.calls made.result _
            (make_renderer-size env.sdl o.framebuffer_width o.framebuffer_height)
            (λ r same. load_app-IsReady o e r v pw narrow ph same))

  -- A program that starts can tick: on two numbers for the framebuffer's size, of which the width is
  -- below 2^29, and program files of arbitrary bytes whose tables do not wrap around, the
  -- constructor of `App` throws or gives a program that is ready: its instructions are runnable,
  -- its thread is well formed, the pitch of its framebuffer is an `int`, and the framebuffer, of
  -- the renderer's size, lies in the emulator's memory.
  pub make_app-IsReady :
      (width height : ℕ)
      → args.framebuffer_size ≡ width ∷ height ∷ []
      → width < 2 ^ 29
      → Gives (IsReady {H = H}) (make_app env args).result
  unfolding make_app
  make_app-IsReady width height sizes narrow = elim (parse_options_lem args width height sizes) [
    | inl (zero_size, thrown) ↦ rw thrown tt
    | inr (inl (pos, bad, thrown)) ↦ rw thrown tt
    | inr (inr (pos, o, parsed, accepted)) ↦ rw parsed (
        started-IsReady o (subst IsPositive (sym accepted.same_width) accepted.width_positive)
          (rw accepted.same_width narrow)
          (subst IsPositive (sym accepted.same_height) accepted.height_positive))
  ]
