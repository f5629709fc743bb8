-- ===== src/App/Session/Frames.antt =====
-- src/main.cpp: sessions that present frames until the program is to quit.
use simple_risc_v_emulator.Common.{ℕ, zero, suc, ◌+◌, ◌^◌, ◌≤◌, ◌<◌, ◌≡◌, ◌∙◌, ap, refl, arith}
use simple_risc_v_emulator.Common.{List, [], ◌∷◌, ◌++◌, All, length, append_assoc, some, none, ok}
use simple_risc_v_emulator.Hart.{get_instruction_index}
use simple_risc_v_emulator.Emulator.Ending.{IsForward}
use simple_risc_v_emulator.App.Calls.{Call, Traced}
use simple_risc_v_emulator.App.Renderer.{Sdl, Renderer, destroy_renderer}
use simple_risc_v_emulator.App.State.{App}
use simple_risc_v_emulator.App.Callbacks.{
  AppResult, Program, abandoned, catch_std, app_continue, app_success, alive, quit, app_event,
  app_iterate, app_quit,
}
use simple_risc_v_emulator.App.Start.{tick}
use simple_risc_v_emulator.App.Ticks.{IsReady, IsDocumented}
use simple_risc_v_emulator.App.Frames.{frame, tick-frame}
use simple_risc_v_emulator.App.Session.{Step, deliver_event, iterate, perform, rest_of_session}

-- A number of iterations, and then the end.
abbrev pub iterations : ℕ → ℕ → List Step → List Step
iterations zero rounds steps = deliver_event quit ∷ steps
iterations (suc n) rounds steps = iterate rounds ∷ iterations n rounds steps

abbrev pub frames : ℕ → Renderer → List Call
frames zero r = []
frames (suc n) r = frame r ++ frames n r

rest_of_session-step :
    {H : Type 0} (sdl : Sdl) (step : Step) (steps : List Step) (calls : List Call) (app : App H)
    (m : Traced (AppResult × Program H))
    → perform sdl step app ≡ some m
    → rest_of_session sdl (step ∷ steps) calls (ok (app_continue, alive app))
      ≡ rest_of_session sdl steps (calls ++ m.calls) m.result
unfolding rest_of_session
rest_of_session-step sdl step steps calls app m e =
    ap
      (λ o. elim o [
        | none ↦ none
        | some m' ↦ rest_of_session sdl steps (calls ++ m'.calls) m'.result
      ])
      e

perform-iterate :
    {H : Type 0} (sdl : Sdl) (rounds : ℕ) (app app' : App H) (calls : List Call)
    → tick sdl rounds app ≡ some (record { calls = calls; result = ok app' })
    → perform sdl (iterate rounds) app
      ≡ some (record { calls = calls; result = ok (app_continue, alive app') })
unfolding perform app_iterate
perform-iterate sdl rounds app app' calls e =
    ap
      (λ o. elim o [
        | none ↦ none
        | some m ↦ some (record { calls = m.calls; result = catch_std abandoned m.result })
      ])
      e

-- From a program that is ready, whose instructions are of the nine supported types without `JALR`
-- and do not jump backwards, a session of any number of iterations, each with as many rounds for
-- the guest as instructions are left, and then the event to quit, comes to its end with success:
-- it presents one frame in each iteration, and then destroys the texture, the renderer and the
-- window, without another call of SDL. SDL does what its documentation says of an update.
pub rest_of_session-frames :
    {H : Type 0} (sdl : Sdl) (n rounds : ℕ) (later : List Step) (calls : List Call) (app : App H)
    → IsDocumented sdl
    → IsReady app
    → All IsForward app.emulator.instructions
    → length app.emulator.instructions < 2 ^ 61
    → length app.emulator.instructions ≤ get_instruction_index app.main_thread + rounds
    → rest_of_session sdl (iterations n rounds later) calls (ok (app_continue, alive app))
      ≡ some (record {
        calls = (calls ++ frames n app.renderer) ++ destroy_renderer;
        result = ok app_success;
      })
unfolding rest_of_session perform app_event app_iterate app_quit
rest_of_session-frames sdl zero rounds later calls app documented ready forward short enough = refl
rest_of_session-frames {H = H} sdl (suc n) rounds later calls app documented ready forward short
      enough =
    let (t, ticked, behind, ready') =
      tick-frame sdl documented app ready rounds forward short enough in
    let app' : App H = record app { main_thread = t } in
    rest_of_session-step sdl (iterate rounds) (iterations n rounds later) calls app _
      (perform-iterate sdl rounds app app' (frame app.renderer) ticked)
    ∙ (rest_of_session-frames sdl n rounds later (calls ++ frame app.renderer) app' documented
          ready' forward short (omega (arith, behind))
        ∙ ap
            (λ (k : List Call).
              some (record { calls = k ++ destroy_renderer; result = ok app_success }))
            (append_assoc calls (frame app.renderer) (frames n app.renderer)))
