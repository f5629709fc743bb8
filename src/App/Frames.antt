-- ===== src/App/Frames.antt =====
-- src/app.cpp and src/renderer.cpp: the frames that the ticks present.
use simple_risc_v_emulator.Common.{ℕ, ◌+◌, ◌*◌, ◌^◌, ◌≤◌, ◌<◌, ◌≡◌, ◌∙◌, ap, refl}
use simple_risc_v_emulator.Common.{List, [], ◌∷◌, All, length, some, ok}
use simple_risc_v_emulator.Hart.{Thread, get_instruction_index}
use simple_risc_v_emulator.Emulator.Run.{finished}
use simple_risc_v_emulator.Emulator.Ending.{IsForward, run-forward}
use simple_risc_v_emulator.App.Calls.{
  Call, sdl_update_texture, sdl_set_render_draw_color, sdl_render_clear, sdl_render_texture,
  sdl_render_present,
}
use simple_risc_v_emulator.App.Renderer.{Sdl, Renderer, present_framebuffer}
use simple_risc_v_emulator.App.State.{App}
use simple_risc_v_emulator.App.Start.{after_run, tick}
use simple_risc_v_emulator.App.Ticks.{
  IsReady, IsDocumented, framebuffer_pitch-eq, update_texture-ok, with_thread-IsReady,
}

-- A frame: the texture is updated with rows of four bytes for each pixel, and drawn over black.
abbrev pub frame : Renderer → List Call
frame r =
    sdl_update_texture (r.framebuffer_width * 4)
    ∷ sdl_set_render_draw_color 0 0 0 255
    ∷ sdl_render_clear
    ∷ sdl_render_texture
    ∷ sdl_render_present
    ∷ []

module _ {H : Type 0} (sdl : Sdl) (documented : IsDocumented sdl) (app : App H)
    (ready : IsReady app) where
  after_run-frame :
      (t : Thread)
      → after_run sdl app (finished t)
        ≡ some (record { calls = frame app.renderer; result = ok (record app { main_thread = t }) })
  unfolding after_run present_framebuffer
  after_run-frame t =
      rw (update_texture-ok sdl documented app ready, framebuffer_pitch-eq sdl documented app ready)
        refl

  -- A tick of a program that is ready, whose instructions are of the nine supported types without
  -- `JALR` and do not jump backwards, returns, when it has as many rounds as instructions are
  -- left: it makes exactly the calls of one frame, in their order, and changes nothing but
  -- the thread, which stands behind the last instruction. The program is ready for the tick after.
  -- SDL does what its documentation says of an update.
  pub tick-frame :
      (rounds : ℕ)
      → All IsForward app.emulator.instructions
      → length app.emulator.instructions < 2 ^ 61
      → length app.emulator.instructions ≤ get_instruction_index app.main_thread + rounds
      → (t : Thread) × (tick sdl rounds app
          ≡ some
              (record { calls = frame app.renderer; result = ok (record app { main_thread = t }) }))
        × (length app.emulator.instructions ≤ get_instruction_index t)
        × IsReady (record app { main_thread = t })
  unfolding tick
  tick-frame rounds forward short enough =
      let (t, ends, behind, v) =
        run-forward rounds app.emulator.instructions app.main_thread forward ready.thread short
          enough in
      (
        t,
        ap (after_run sdl app) ends ∙ after_run-frame t,
        behind,
        with_thread-IsReady sdl documented app ready t v,
      )
