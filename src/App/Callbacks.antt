-- ===== src/App/Callbacks.antt =====
-- src/main.cpp: the callbacks of SDL. An exception that no handler catches leaves the callback; its
-- trace has the destructors, although whether they run then is up to the implementation.
use simple_risc_v_emulator.Common.{
  ℕ, Bool, true, false, if◌then◌else◌, Option, none, some, List, [], ◌∷◌,
}
use simple_risc_v_emulator.Common.{Exception, unknown_instruction_pointer}
use simple_risc_v_emulator.Common.{Result, ok, throw, undefined, ◌>>=◌}
use simple_risc_v_emulator.App.Options.{Arguments}
use simple_risc_v_emulator.App.Calls.{Call, sdl_init_video, Traced}
use simple_risc_v_emulator.App.Renderer.{Sdl, destroy_renderer}
use simple_risc_v_emulator.App.State.{Environment, App, handle_key}
use simple_risc_v_emulator.App.Start.{make_app, tick}

pub data AppResult : Type 0 where
  app_continue app_success app_failure : AppResult

-- The pointer `app`. After a tick that threw, the program is there as the tick left it, and
-- nothing but its destructor looks at it.
pub data Program (H : Type 0) : Type 0 where
  absent abandoned : Program H
  alive : App H → Program H

-- The events that `SDL_AppEvent` tells apart.
pub data Event : Type 0 where
  quit : Event
  key_down key_up : ℕ → Event
  other_event : Event

-- Whether `catch (std::exception const&)` catches it: a pointer is not an object of that class.
abbrev pub is_std_exception : Exception → Bool
is_std_exception (unknown_instruction_pointer w c) = false
is_std_exception _ = true

module _ {H : Type 0} where
  -- The `try` block of `SDL_AppInit` and `SDL_AppIterate`, with what is left when it throws.
  abbrev pub catch_std : Program H → Result (App H) → Result (AppResult × Program H)
  catch_std left (ok app) = ok (app_continue, alive app)
  catch_std left (throw e) = if is_std_exception e then ok (app_failure, left) else throw e
  catch_std left undefined = undefined

  -- When `make_unique` throws, nothing is assigned.
  unfoldable pub app_init : Bool → Environment → Arguments → Traced (AppResult × Program H)
  app_init video env args =
      if video
      then (let m = make_app {H = H} env args in
          record { calls = sdl_init_video ∷ m.calls; result = catch_std absent m.result })
      else record { calls = sdl_init_video ∷ []; result = ok (app_failure, absent) }

  unfoldable pub app_iterate : Sdl → ℕ → App H → Option (Traced (AppResult × Program H))
  app_iterate sdl rounds app = elim (tick sdl rounds app) [
    | none ↦ none
    | some m ↦ some (record { calls = m.calls; result = catch_std abandoned m.result })
  ]

  unfoldable pub app_event : Event → App H → Result (AppResult × App H)
  app_event quit app = ok (app_success, app)
  app_event (key_down key) app = handle_key key true app >>= λ app'. ok (app_continue, app')
  app_event (key_up key) app = handle_key key false app >>= λ app'. ok (app_continue, app')
  app_event other_event app = ok (app_continue, app)

  -- `app.reset()`: the calls of the destructor.
  unfoldable pub app_quit : Program H → List Call
  app_quit absent = []
  app_quit abandoned = destroy_renderer
  app_quit (alive app) = destroy_renderer
