-- ===== src/App/Session/Proof.antt =====
-- src/main.cpp: every session is accounted for.
use mathlib.Core.List.{append-nil}
use simple_risc_v_emulator.Common.{
  ℕ, ◌^◌, ◌<◌, ◌≡◌, Bool, true, false, Bool-cases, inl, inr, Option, none, some, List, [], ◌∷◌,
  ◌++◌, All, refl,
}
use simple_risc_v_emulator.Common.{Result, ok, throw, undefined}
use simple_risc_v_emulator.Emulator.Decoded.Parts.{Gives}
use simple_risc_v_emulator.App.Options.{Arguments}
use simple_risc_v_emulator.App.Calls.{Call, sdl_init_video, Traced}
use simple_risc_v_emulator.App.Renderer.{Sdl}
use simple_risc_v_emulator.App.State.{Environment, App}
use simple_risc_v_emulator.App.Start.{make_app}
use simple_risc_v_emulator.App.Callbacks.{
  AppResult, app_continue, app_success, app_failure, Program, absent, abandoned, alive,
  is_std_exception, catch_std, app_init, app_quit,
}
use simple_risc_v_emulator.App.Ticks.{IsReady, IsDocumented}
use simple_risc_v_emulator.App.Started.{HasPrograms, make_app-IsReady}
use simple_risc_v_emulator.App.Session.{
  Step, perform, rest_of_session, session, Lifecycle, unopened, window_refused, window_leaked,
  renderer_leaked, released, IsAccounted,
}
use simple_risc_v_emulator.App.Session.Resources.{IsOpen-released, Made, make_app-Made}
use simple_risc_v_emulator.App.Session.Steps.{
  IsSafeStep, Continues, ContinuesAfter, perform-Continues,
}

module _ {H : Type 0} (sdl : Sdl) (documented : IsDocumented sdl) where
  rest_of_session-IsAccounted :
      (steps : List Step) (calls : List Call) (r : Result (AppResult × Program H))
      → All IsSafeStep steps
      → Continues sdl calls r
      → IsAccounted sdl (rest_of_session sdl steps calls r)
  unfolding rest_of_session app_quit
  rest_of_session-IsAccounted steps calls (throw e) safe c = c
  rest_of_session-IsAccounted steps calls undefined safe c = c
  rest_of_session-IsAccounted steps calls (ok (app_success, alive app)) safe c =
      IsOpen-released sdl calls c
  rest_of_session-IsAccounted steps calls (ok (app_success, absent)) safe c = absurd c
  rest_of_session-IsAccounted steps calls (ok (app_success, abandoned)) safe c = absurd c
  rest_of_session-IsAccounted steps calls (ok (app_failure, alive app)) safe c = absurd c
  rest_of_session-IsAccounted steps calls (ok (app_failure, abandoned)) safe c =
      IsOpen-released sdl calls c
  rest_of_session-IsAccounted steps calls (ok (app_failure, absent)) safe c =
      rw (append-nil calls) c
  rest_of_session-IsAccounted steps calls (ok (app_continue, absent)) safe c = absurd c
  rest_of_session-IsAccounted steps calls (ok (app_continue, abandoned)) safe c = absurd c
  rest_of_session-IsAccounted [] calls (ok (app_continue, alive app)) safe c = tt
  rest_of_session-IsAccounted (step ∷ steps) calls (ok (app_continue, alive app)) safe c =
      by_step (perform sdl step app)
        (perform-Continues sdl documented calls step app safe.0 c.0 c.1)
        (λ m d. rest_of_session-IsAccounted steps (calls ++ m.calls) m.result safe.1 d)
    where
      by_step :
          (m : Option (Traced (AppResult × Program H)))
          → ContinuesAfter sdl calls m
          → ((m' : Traced (AppResult × Program H))
              → Continues sdl (calls ++ m'.calls) m'.result
              → IsAccounted sdl (rest_of_session sdl steps (calls ++ m'.calls) m'.result))
          → IsAccounted sdl (elim m [
            | none ↦ none
            | some m' ↦ rest_of_session sdl steps (calls ++ m'.calls) m'.result
          ])
      by_step none d f = tt
      by_step (some m) d f = f m d

-- The call that starts SDL creates nothing.
started :
    {sdl : Sdl} {calls : List Call} → Lifecycle sdl calls → Lifecycle sdl (sdl_init_video ∷ calls)
started (unopened e) = unopened e
started (window_refused w h a e) = window_refused w h a e
started (window_leaked w h a b e) = window_leaked w h a b e
started (renderer_leaked w h a b c e) = renderer_leaked w h a b c e
started (released w h a b c e) = released w h a b c e

-- What the constructor leaves, behind the call that starts SDL.
init-Continues :
    {H : Type 0} (sdl : Sdl) (m : Traced (App H))
    → Gives IsReady m.result
    → Made sdl m
    → Continues sdl (sdl_init_video ∷ m.calls) (catch_std absent m.result)
init-Continues {H = H} sdl m ready made = by_result m.calls m.result ready made
  where
    by_result :
        (calls : List Call) (r : Result (App H))
        → Gives IsReady r
        → Made sdl (record { calls = calls; result = r })
        → Continues sdl (sdl_init_video ∷ calls) (catch_std absent r)
    by_result calls (ok app) g o = (
      g,
      record {
        width = o.width;
        height = o.height;
        window = o.window;
        renderer = o.renderer;
        texture = o.texture;
        created = o.created;
      },
    )
    by_result calls (throw e) g l = elim (Bool-cases (is_std_exception e)) [
      | inl std ↦ rw std (started l)
      | inr other ↦ rw other other
    ]
    by_result calls undefined g l = g

-- However SDL delivers events and iterations, and however far the guest gets in each, a session on
-- two numbers for the framebuffer's size, of which the width is below 2^29, and program files
-- of arbitrary bytes whose tables do not wrap around has no undefined behaviour. When it ends without
-- an exception, the window, the renderer and the texture were each created and then destroyed
-- once, in the reverse order, or SDL refused one of them; then those that were created before
-- are never destroyed, or nothing was created at all. An exception ends it only when it is not an
-- object of the standard's class. SDL does what its documentation says of an update, and no
-- released key has the code of the least `int32_t`.
pub session-IsAccounted :
    (H : Type 0) (video : Bool) (env : Environment) (args : Arguments) (steps : List Step)
    (width height : ℕ)
    → HasPrograms env
    → IsDocumented env.sdl
    → args.framebuffer_size ≡ width ∷ height ∷ []
    → width < 2 ^ 29
    → All IsSafeStep steps
    → IsAccounted env.sdl (session H video env args steps)
unfolding session app_init
session-IsAccounted H video env args steps w h programs documented sizes narrow safe =
    rest_of_session-IsAccounted env.sdl documented steps (app_init {H = H} video env args).calls
      (app_init {H = H} video env args).result safe (initial video)
  where
    initial :
        (v : Bool)
        → Continues {H = H} env.sdl (app_init {H = H} v env args).calls (app_init v env args).result
    initial true =
        init-Continues env.sdl (make_app {H = H} env args)
          (make_app-IsReady H env programs args w h sizes narrow) (make_app-Made H env args)
    initial false = unopened refl
