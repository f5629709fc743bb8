-- ===== src/App/Ticks.antt =====
-- src/app.cpp, src/renderer.cpp: the ticks of a program that is ready.
use native.Mathlib.Nat.{mul_assoc, mul_comm}
use simple_risc_v_emulator.Common.{ℕ, ◌+◌, ◌-◌, ◌*◌, ◌^◌, ◌≤◌, ◌<◌, ◌≡◌, ◌∙◌, ap, arith}
use simple_risc_v_emulator.Common.{List, All, length, drop, length-drop, Option, some, none}
use simple_risc_v_emulator.Common.{
  Result, ok, throw, undefined, runtime_error, unsupported_instruction,
}
use simple_risc_v_emulator.Hart.{Thread}
use simple_risc_v_emulator.Emulator.WellFormed.{IsThread, IsRunnable}
use simple_risc_v_emulator.Emulator.Run.{Outcome, finished, failed, faulted, running, run}
use simple_risc_v_emulator.Emulator.Safety.{IsSafeOutcome, run-IsSafe}
use simple_risc_v_emulator.App.Options.{IsPositive}
use simple_risc_v_emulator.App.Renderer.{Sdl, framebuffer_pitch, present_framebuffer}
use simple_risc_v_emulator.App.Calls.{Traced}
use simple_risc_v_emulator.App.State.{App}
use simple_risc_v_emulator.App.Start.{after_run, tick}

-- A program that can tick.
pub record IsReady {H : Type 0} (app : App H) : Type 0 where
  pub runnable : All IsRunnable app.emulator.instructions
  pub thread : IsThread app.main_thread
  pub width_positive : IsPositive app.renderer.framebuffer_width
  pub narrow : app.renderer.framebuffer_width < 2 ^ 29
  pub height_positive : IsPositive app.renderer.framebuffer_height
  pub above : app.emulator.memory.base ≤ app.framebuffer.pointer
  pub inside :
      app.framebuffer.pointer
        + 4 * (app.renderer.framebuffer_width * app.renderer.framebuffer_height)
      ≤ app.emulator.memory.base + length app.emulator.memory.storage

-- What SDL documents of `SDL_UpdateTexture`: it reads the texture's rows, `pitch` bytes from one to
-- the next, and no more. It is asked only that such a call with enough bytes is defined.
abbrev pub IsDocumented : Sdl → Type 0
IsDocumented sdl =
    (width height pitch : ℕ) (pixels : List ℕ)
    → width * 4 ≤ pitch
    → pitch < 2 ^ 31
    → height * pitch ≤ length pixels
    → sdl.update_texture width height pixels pitch ≡ ok tt

-- A program that can tick again, or the one exception of the loop.
abbrev pub IsSafeTick : {H : Type 0} → Result (App H) → Type 0
IsSafeTick (ok app) = IsReady app
IsSafeTick (throw e) = e ≡ runtime_error unsupported_instruction
IsSafeTick undefined = ⊥

-- Or one that still runs.
abbrev pub IsSafeTicked : {H : Type 0} → Option (Traced (App H)) → Type 0
IsSafeTicked none = Unit {0}
IsSafeTicked (some m) = IsSafeTick m.result

module _ {H : Type 0} (sdl : Sdl) (documented : IsDocumented sdl) (app : App H)
    (ready : IsReady app) where
  abbrev pub pixels : List ℕ
  pixels = drop (app.framebuffer.pointer - app.emulator.memory.base) app.emulator.memory.storage

  pub framebuffer_pitch-eq : framebuffer_pitch app.renderer ≡ app.renderer.framebuffer_width * 4
  framebuffer_pitch-eq = omega (arith, ready.narrow)

  pub update_texture-ok :
      sdl.update_texture app.renderer.framebuffer_width app.renderer.framebuffer_height pixels
        (framebuffer_pitch app.renderer)
      ≡ ok tt
  update_texture-ok =
      let w : ℕ = app.renderer.framebuffer_width in
      let h : ℕ = app.renderer.framebuffer_height in
      let area : h * (w * 4) ≡ 4 * (w * h) = omega (arith, mul_assoc h w 4, mul_comm w h) in
      ap (λ (n : ℕ). sdl.update_texture w h pixels n) framebuffer_pitch-eq
      ∙ (documented w h (w * 4) pixels (omega arith) (omega (arith, ready.narrow)) (
          omega (
            arith,
            area,
            ready.above,
            ready.inside,
            length-drop (app.framebuffer.pointer - app.emulator.memory.base)
                app.emulator.memory.storage,
          )))

  pub with_thread-IsReady : (t : Thread) → IsThread t → IsReady (record app { main_thread = t })
  with_thread-IsReady t v = record {
    runnable = ready.runnable;
    thread = v;
    width_positive = ready.width_positive;
    narrow = ready.narrow;
    height_positive = ready.height_positive;
    above = ready.above;
    inside = ready.inside;
  }

  after_run-IsSafeTicked : (o : Outcome) → IsSafeOutcome o → IsSafeTicked (after_run sdl app o)
  unfolding after_run present_framebuffer
  after_run-IsSafeTicked (finished t) v = rw update_texture-ok (with_thread-IsReady t v)
  after_run-IsSafeTicked (failed e) v = v
  after_run-IsSafeTicked faulted v = v
  after_run-IsSafeTicked (running t) v = tt

  -- A tick of a program that is ready has no undefined behaviour, however many rounds the guest
  -- runs for: it gives a program that is ready again, still runs, or throws that an instruction is
  -- not supported, when SDL does what its documentation says.
  pub tick-IsSafeTick : (rounds : ℕ) → IsSafeTicked (tick sdl rounds app)
  unfolding tick
  tick-IsSafeTick rounds =
      after_run-IsSafeTicked (run rounds app.emulator.instructions app.main_thread)
        (run-IsSafe rounds app.emulator.instructions app.main_thread ready.runnable ready.thread)
