-- ===== src/App/Session.antt =====
-- src/main.cpp and src/renderer.cpp: the callbacks in the order that SDL documents, and what becomes
-- of the window, the renderer and the texture. `SDL_AppInit` is called first; while the
-- answer is to continue, an event or an iteration follows, and after another one `SDL_AppQuit`.
use simple_risc_v_emulator.Common.{
  ℕ, Bool, true, false, if◌then◌else◌, Option, none, some, List, [], ◌∷◌, ◌++◌, ◌≡◌,
}
use simple_risc_v_emulator.Common.{Result, ok, throw, undefined, ◌>>=◌}
use simple_risc_v_emulator.App.Options.{Arguments}
use simple_risc_v_emulator.App.Calls.{
  Call, sdl_create_window, sdl_create_renderer, sdl_create_texture, sdl_destroy_texture,
  sdl_destroy_renderer, sdl_destroy_window, Traced, lift,
}
use simple_risc_v_emulator.App.Renderer.{Sdl, destroy_renderer}
use simple_risc_v_emulator.App.State.{Environment, App}
use simple_risc_v_emulator.App.Callbacks.{
  AppResult, app_continue, app_success, app_failure, Program, absent, abandoned, alive, Event,
  is_std_exception, app_init, app_iterate, app_event, app_quit,
}
pub mod Resources
pub mod Steps
pub mod Proof
pub mod Frames

-- What SDL calls `SDL_AppEvent` or `SDL_AppIterate` for, with a number of rounds for the guest.
pub data Step : Type 0 where
  deliver_event : Event → Step
  iterate : ℕ → Step

module _ {H : Type 0} where
  abbrev pub keep_alive : AppResult × App H → AppResult × Program H
  keep_alive (answer, app) = (answer, alive app)

  unfoldable pub perform : Sdl → Step → App H → Option (Traced (AppResult × Program H))
  perform sdl (deliver_event e) app = some (lift (app_event e app >>= λ r. ok (keep_alive r)))
  perform sdl (iterate rounds) app = app_iterate sdl rounds app

  -- The rest of a session, after the calls so far; `none` when it has not ended.
  unfoldable pub rest_of_session :
      Sdl → List Step → List Call → Result (AppResult × Program H) → Option (Traced AppResult)
  rest_of_session sdl steps calls (throw e) = some (record { calls = calls; result = throw e })
  rest_of_session sdl steps calls undefined = some (record { calls = calls; result = undefined })
  rest_of_session sdl steps calls (ok (app_success, program)) =
      some (record { calls = calls ++ app_quit program; result = ok app_success })
  rest_of_session sdl steps calls (ok (app_failure, program)) =
      some (record { calls = calls ++ app_quit program; result = ok app_failure })
  rest_of_session sdl [] calls (ok (app_continue, program)) = none
  rest_of_session sdl (step ∷ steps) calls (ok (app_continue, alive app)) =
      elim (perform sdl step app) [
        | none ↦ none
        | some m ↦ rest_of_session sdl steps (calls ++ m.calls) m.result
      ]
  -- A callback reads through the pointer.
  rest_of_session sdl (step ∷ steps) calls (ok (app_continue, absent)) =
      some (record { calls = calls; result = undefined })
  rest_of_session sdl (step ∷ steps) calls (ok (app_continue, abandoned)) =
      some (record { calls = calls; result = undefined })

-- A session from its start, for any type of handlers.
unfoldable pub session :
    Type 0 → Bool → Environment → Arguments → List Step → Option (Traced AppResult)
session H video env args steps =
    let m = app_init {H = H} video env args in rest_of_session env.sdl steps m.calls m.result

abbrev pub is_resource_call : Call → Bool
is_resource_call (sdl_create_window w h) = true
is_resource_call sdl_create_renderer = true
is_resource_call (sdl_create_texture w h) = true
is_resource_call sdl_destroy_texture = true
is_resource_call sdl_destroy_renderer = true
is_resource_call sdl_destroy_window = true
is_resource_call _ = false

-- The calls that create or destroy something.
abbrev pub resources : List Call → List Call
resources [] = []
resources (c ∷ cs) = let rest = resources cs in if is_resource_call c then c ∷ rest else rest

-- The window, the renderer and the texture are created, and none is destroyed.
pub record IsOpen (sdl : Sdl) (calls : List Call) : Type 0 where
  pub width : ℕ
  pub height : ℕ
  pub window : sdl.window_created width height ≡ true
  pub renderer : sdl.renderer_created ≡ true
  pub texture : sdl.texture_created width height ≡ true
  pub created :
      resources calls
      ≡ sdl_create_window width height ∷ sdl_create_renderer ∷ sdl_create_texture width height ∷ []

-- What a session creates and destroys: nothing; a window that SDL refuses; a window that is not
-- destroyed, when SDL refuses the renderer; a window and a renderer that are not, when
-- SDL refuses the texture; or all three, each destroyed once, in the reverse order.
pub data Lifecycle (sdl : Sdl) (calls : List Call) : Type 0 where
  unopened : resources calls ≡ [] → Lifecycle sdl calls
  window_refused :
      (w h : ℕ)
      → sdl.window_created w h ≡ false
      → resources calls ≡ sdl_create_window w h ∷ []
      → Lifecycle sdl calls
  window_leaked :
      (w h : ℕ)
      → sdl.window_created w h ≡ true
      → sdl.renderer_created ≡ false
      → resources calls ≡ sdl_create_window w h ∷ sdl_create_renderer ∷ []
      → Lifecycle sdl calls
  renderer_leaked :
      (w h : ℕ)
      → sdl.window_created w h ≡ true
      → sdl.renderer_created ≡ true
      → sdl.texture_created w h ≡ false
      → resources calls ≡ sdl_create_window w h ∷ sdl_create_renderer ∷ sdl_create_texture w h ∷ []
      → Lifecycle sdl calls
  released :
      (w h : ℕ)
      → sdl.window_created w h ≡ true
      → sdl.renderer_created ≡ true
      → sdl.texture_created w h ≡ true
      → resources calls
        ≡ sdl_create_window w h
          ∷ sdl_create_renderer
          ∷ sdl_create_texture w h
          ∷ sdl_destroy_texture
          ∷ sdl_destroy_renderer
          ∷ sdl_destroy_window
          ∷ []
      → Lifecycle sdl calls

-- A session that has ended without an exception has such a lifecycle; the only exceptions that end
-- one are those that are not objects of the standard's class.
abbrev pub IsAccounted : Sdl → Option (Traced AppResult) → Type 0
IsAccounted sdl none = Unit {0}
IsAccounted sdl (some m) = elim m.result [
  | ok answer ↦ Lifecycle sdl m.calls
  | throw e ↦ is_std_exception e ≡ false
  | undefined ↦ ⊥
]
