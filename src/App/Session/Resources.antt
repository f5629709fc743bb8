-- ===== src/App/Session/Resources.antt =====
-- src/app.cpp and src/renderer.cpp: what the constructor of `App` and a tick create and destroy.
use mathlib.Core.List.{append-nil}
use simple_risc_v_emulator.Common.{
  ℕ, ◌%◌, ◌^◌, Bool-cases, inl, inr, Option, none, some, List, [], ◌∷◌, ◌++◌, ◌≡◌, refl, drop, ◌-◌,
}
use simple_risc_v_emulator.Common.{Result, ok, throw, undefined}
use simple_risc_v_emulator.Emulator.Syscalls.{Emulator}
use simple_risc_v_emulator.Emulator.Run.{Outcome, finished, failed, faulted, running, run}
use simple_risc_v_emulator.Elf.Load.{load_elf}
use simple_risc_v_emulator.App.Options.{Options, Arguments, parse_options}
use simple_risc_v_emulator.App.Calls.{
  Call, sdl_update_texture, Traced, follow, on_throw, unwinding, ◌>>=◌, lift,
}
use simple_risc_v_emulator.App.Renderer.{
  Sdl, Renderer, make_renderer, destroy_renderer, present_empty_frame, framebuffer_pitch,
  present_framebuffer,
}
use simple_risc_v_emulator.App.State.{
  Environment, App, make_emulator, read_program_file, allocate_framebuffer,
}
use simple_risc_v_emulator.App.Start.{load_app, make_app, after_run, tick}
use simple_risc_v_emulator.App.Session.{
  is_resource_call, resources, IsOpen, Lifecycle, unopened, window_refused, window_leaked,
  renderer_leaked, released,
}

pub resources-append : (xs ys : List Call) → resources (xs ++ ys) ≡ resources xs ++ resources ys
resources-append [] ys = refl
resources-append (x ∷ xs) ys = elim (Bool-cases (is_resource_call x)) [
  | inl e ↦ simp (e, resources-append xs ys) refl
  | inr e ↦ simp (e, resources-append xs ys) refl
]

-- The open resources, and the calls of the destructor.
pub IsOpen-released :
    (sdl : Sdl) (calls : List Call) → IsOpen sdl calls → Lifecycle sdl (calls ++ destroy_renderer)
IsOpen-released sdl calls o =
    released o.width o.height o.window o.renderer o.texture
      (rw (resources-append calls destroy_renderer, o.created) refl)

pub IsOpen-quiet :
    (sdl : Sdl) (calls more : List Call)
    → IsOpen sdl calls
    → resources more ≡ []
    → IsOpen sdl (calls ++ more)
IsOpen-quiet sdl calls more o quiet = record {
  width = o.width;
  height = o.height;
  window = o.window;
  renderer = o.renderer;
  texture = o.texture;
  created = rw (resources-append calls more, o.created, quiet) refl;
}

quiet-follow :
    {A B : Type 0} (calls : List Call) (r : Result A) (rest : A → Traced B)
    → resources calls ≡ []
    → ((a : A) → resources (rest a).calls ≡ [])
    → resources (follow calls r rest).calls ≡ []
quiet-follow calls undefined rest q f = q
quiet-follow calls (throw e) rest q f = q
quiet-follow calls (ok a) rest q f = rw (resources-append calls (rest a).calls, q, f a) refl

present_framebuffer-quiet :
    (sdl : Sdl) (r : Renderer) (pixels : List ℕ)
    → resources (present_framebuffer sdl r pixels).calls ≡ []
unfolding present_framebuffer
present_framebuffer-quiet sdl r pixels =
    let pitch = framebuffer_pitch r in
    quiet-follow (sdl_update_texture pitch ∷ [])
      (sdl.update_texture r.framebuffer_width r.framebuffer_height pixels pitch) _ refl
      (λ done. refl)

-- What a constructor leaves: something open, or, when it throws, nothing that is destroyed later.
abbrev pub Made {ℓ} : {A : Type ℓ} → Sdl → Traced A → Type 0
Made sdl m = elim m.result [
  | ok a ↦ IsOpen sdl m.calls
  | throw e ↦ Lifecycle sdl m.calls
  | undefined ↦ Unit {0}
]

make_renderer-Made : (sdl : Sdl) (w h : ℕ) → Made sdl (make_renderer sdl w h)
unfolding make_renderer
make_renderer-Made sdl w h = elim (Bool-cases (sdl.window_created (w % 2 ^ 32) (h % 2 ^ 32))) [
  | inr e ↦ simp e (window_refused (w % 2 ^ 32) (h % 2 ^ 32) e refl)
  | inl e ↦ elim (Bool-cases sdl.renderer_created) [
    | inr e' ↦ simp (e, e') (window_leaked (w % 2 ^ 32) (h % 2 ^ 32) e e' refl)
    | inl e' ↦ elim (Bool-cases (sdl.texture_created (w % 2 ^ 32) (h % 2 ^ 32))) [
      | inr e'' ↦ simp (e, e', e'') (renderer_leaked (w % 2 ^ 32) (h % 2 ^ 32) e e' e'' refl)
      | inl e'' ↦
          simp (e, e', e'')
            (record {
              width = w % 2 ^ 32;
              height = h % 2 ^ 32;
              window = e;
              renderer = e';
              texture = e'';
              created = refl;
            })
    ]
  ]
]

Made-lift :
    {A B : Type 0} (sdl : Sdl) (r : Result A) (rest : A → Traced B)
    → ((a : A) → Made sdl (rest a))
    → Made sdl (lift r >>= rest)
Made-lift sdl (ok a) rest f = f a
Made-lift sdl (throw e) rest f = unopened refl
Made-lift sdl undefined rest f = tt

-- A body without such calls, with the destructor for its exceptions.
Made-unwinding :
    {A : Type 0} (sdl : Sdl) (calls body : List Call) (r : Result A)
    → IsOpen sdl calls
    → resources body ≡ []
    → Made sdl (record { calls = calls ++ (body ++ on_throw destroy_renderer r); result = r })
Made-unwinding sdl calls body (ok a) o quiet =
    IsOpen-quiet sdl calls (body ++ []) o (rw (append-nil body) quiet)
Made-unwinding sdl calls body (throw e) o quiet =
    released o.width o.height o.window o.renderer o.texture (
      rw
        (
          resources-append calls (body ++ destroy_renderer),
          resources-append body destroy_renderer,
          o.created,
          quiet,
        )
        refl)
Made-unwinding sdl calls body undefined o quiet = tt

Made-body :
    {A B : Type 0} (sdl : Sdl) (m : Traced A) (rest : A → Traced B)
    → Made sdl m
    → ((a : A) → resources (rest a).calls ≡ [])
    → Made sdl (m >>= λ a. unwinding destroy_renderer (rest a))
Made-body sdl m rest o quiet = by_result m.calls m.result o
  where
    by_result :
        (calls : List Call) (r : Result _)
        → Made sdl (record { calls = calls; result = r })
        → Made sdl (follow calls r (λ a. unwinding destroy_renderer (rest a)))
    by_result calls (ok a) o' = Made-unwinding sdl calls (rest a).calls (rest a).result o' (quiet a)
    by_result calls (throw e) o' = o'
    by_result calls undefined o' = tt

module _ (H : Type 0) where
  load_app-quiet :
      (env : Environment) (o : Options) (e : Emulator H) (r : Renderer)
      → resources (load_app env o e r).calls ≡ []
  unfolding load_app present_empty_frame
  load_app-quiet env o e r =
      quiet-follow [] (read_program_file env o.program_path) _ refl (λ source.
        quiet-follow [] (load_elf env.host source e) _ refl
          (λ loaded. quiet-follow [] (allocate_framebuffer o loaded.memory) _ refl (λ got. refl)))

  pub make_app-Made :
      (env : Environment) (args : Arguments) → Made env.sdl (make_app {H = H} env args)
  unfolding make_app
  make_app-Made env args = Made-lift env.sdl (parse_options args) _ (λ o.
      Made-lift env.sdl (make_emulator env o.memory_size) _ (λ e.
        Made-body env.sdl (make_renderer env.sdl o.framebuffer_width o.framebuffer_height)
          (λ r. load_app env o e r)
          (make_renderer-Made env.sdl o.framebuffer_width o.framebuffer_height)
          (λ r. load_app-quiet env o e r)))

module _ {H : Type 0} where
  -- No call of a tick creates or destroys anything.
  abbrev pub IsQuiet : Option (Traced (App H)) → Type 0
  IsQuiet none = Unit {0}
  IsQuiet (some m) = resources m.calls ≡ []

  abbrev pixels_of : App H → List ℕ
  pixels_of app =
      let arena = app.emulator.memory in drop (app.framebuffer.pointer - arena.base) arena.storage

  after_run-IsQuiet : (sdl : Sdl) (app : App H) (o : Outcome) → IsQuiet (after_run sdl app o)
  unfolding after_run present_framebuffer
  after_run-IsQuiet sdl app (finished t) =
      quiet-follow (present_framebuffer sdl app.renderer (pixels_of app)).calls
        (present_framebuffer sdl app.renderer (pixels_of app)).result _
        (present_framebuffer-quiet sdl app.renderer (pixels_of app)) (λ done. refl)
  after_run-IsQuiet sdl app (failed e) = refl
  after_run-IsQuiet sdl app faulted = refl
  after_run-IsQuiet sdl app (running t) = tt

  pub tick-IsQuiet : (sdl : Sdl) (rounds : ℕ) (app : App H) → IsQuiet (tick sdl rounds app)
  unfolding tick
  tick-IsQuiet sdl rounds app =
      after_run-IsQuiet sdl app (run rounds app.emulator.instructions app.main_thread)
