-- ===== src/Tests/Sessions.antt =====
-- src/main.cpp: sessions of the program, and what they create and destroy.
use simple_risc_v_emulator.Common.{◌≡◌, refl, arith, true, false, List, [], ◌∷◌}
use simple_risc_v_emulator.Common.{Option, none, some, All}
use simple_risc_v_emulator.App.Calls.{Call, Traced, sdl_create_window, sdl_create_renderer}
use simple_risc_v_emulator.App.Callbacks.{
  AppResult, quit, key_down, key_up, other_event, app_init, app_quit,
}
use simple_risc_v_emulator.App.Session.{
  Step, deliver_event, iterate, session, resources, IsAccounted, rest_of_session,
}
use simple_risc_v_emulator.App.Session.Steps.{IsSafeStep}
use simple_risc_v_emulator.App.Session.Proof.{session-IsAccounted}
use simple_risc_v_emulator.Arena.{make_arena}
use simple_risc_v_emulator.App.Options.{parse_options}
use simple_risc_v_emulator.App.Renderer.{make_renderer}
use simple_risc_v_emulator.App.State.{make_emulator}
use simple_risc_v_emulator.App.Start.{make_app}
use simple_risc_v_emulator.Common.{length, ◌≤◌, ◌+◌, ok, some}
use simple_risc_v_emulator.Hart.{get_instruction_index}
use simple_risc_v_emulator.Common.{◌++◌}
use simple_risc_v_emulator.App.Callbacks.{app_continue, app_success, alive}
use simple_risc_v_emulator.App.Renderer.{destroy_renderer}
use simple_risc_v_emulator.App.Session.Frames.{iterations, frames, rest_of_session-frames}
use simple_risc_v_emulator.Tests.Loop.{forward_program-IsForward}
use simple_risc_v_emulator.Tests.Startup.{
  test_sdl, test_sdl-IsDocumented, test_environment, test_environment-HasPrograms, test_arguments,
  test_app, test_app-IsReady,
}

-- Keys and iterations, and the end of the program.
abbrev test_steps : List Step
test_steps =
    deliver_event (key_down 97)
    ∷ iterate 3
    ∷ deliver_event (key_up 97)
    ∷ deliver_event other_event
    ∷ deliver_event quit
    ∷ []

test_steps-IsSafe : All IsSafeStep test_steps
test_steps-IsSafe = (tt, (tt, ((λ e. absurd (omega (arith, e))), (tt, (tt, tt)))))

session-IsAccounted_example :
    IsAccounted test_sdl (session (Unit {0}) true test_environment test_arguments test_steps)
session-IsAccounted_example =
    session-IsAccounted (Unit {0}) true test_environment test_arguments test_steps 2 3
      test_environment-HasPrograms test_sdl-IsDocumented refl (omega arith) test_steps-IsSafe

abbrev resources_of : Option (Traced AppResult) → List Call
resources_of none = []
resources_of (some m) = resources m.calls

-- An SDL that creates a window and no renderer: the window is not destroyed.
session-leaks :
    resources_of (
      session
        (Unit {0})
        true
        (record test_environment { sdl = record test_sdl { renderer_created = false } })
        test_arguments
        [])
    ≡ sdl_create_window 2 3 ∷ sdl_create_renderer ∷ []
unfolding session app_init make_app parse_options make_emulator make_arena make_renderer
    rest_of_session app_quit
session-leaks = refl

call_next_left :
    length test_app.emulator.instructions ≤ get_instruction_index test_app.main_thread + 1
unfolding get_instruction_index
call_next_left = omega arith

rest_of_session-frames_example :
    rest_of_session test_sdl (iterations 2 1 []) [] (ok (app_continue, alive test_app))
    ≡ some
        (record { calls = frames 2 test_app.renderer ++ destroy_renderer; result = ok app_success })
rest_of_session-frames_example =
    rest_of_session-frames test_sdl 2 1 [] [] test_app test_sdl-IsDocumented test_app-IsReady
      (forward_program-IsForward.0, tt) (omega arith) call_next_left
