-- ===== src/App/Contained.antt =====
-- src/main.cpp: what the callbacks make of a program that is ready.
use simple_risc_v_emulator.Common.{ℕ, Option, none, some, Result, ok, throw, undefined}
use simple_risc_v_emulator.App.Calls.{Traced}
use simple_risc_v_emulator.App.Renderer.{Sdl}
use simple_risc_v_emulator.App.State.{App}
use simple_risc_v_emulator.App.Start.{tick}
use simple_risc_v_emulator.App.Callbacks.{
  AppResult, app_continue, app_failure, Program, alive, abandoned, app_iterate, catch_std,
}
use simple_risc_v_emulator.App.Ticks.{
  IsReady, IsDocumented, IsSafeTick, IsSafeTicked, tick-IsSafeTick,
}

-- The callback goes on with a program that is ready, or has reported a failure.
abbrev pub IsContainedResult : {H : Type 0} → Result (AppResult × Program H) → Type 0
IsContainedResult (ok (app_continue, alive app)) = IsReady app
IsContainedResult (ok (app_failure, abandoned)) = Unit {0}
IsContainedResult _ = ⊥

-- Or the guest still runs.
abbrev pub IsContained : {H : Type 0} → Option (Traced (AppResult × Program H)) → Type 0
IsContained none = Unit {0}
IsContained (some m) = IsContainedResult m.result

catch_std-IsContained :
    {H : Type 0} (r : Result (App H)) → IsSafeTick r → IsContainedResult (catch_std abandoned r)
catch_std-IsContained (ok app) s = s
catch_std-IsContained (throw e) s = rw s tt
catch_std-IsContained undefined s = s

iterate-IsContained :
    {H : Type 0} (r : Option (Traced (App H)))
    → IsSafeTicked r
    → IsContained (elim r [
      | none ↦ none
      | some m ↦ some (record { calls = m.calls; result = catch_std abandoned m.result })
    ])
iterate-IsContained none s = tt
iterate-IsContained (some m) s = catch_std-IsContained m.result s

-- From a program that is ready, `SDL_AppIterate` lets no exception out and has no undefined
-- behaviour, however many rounds the guest runs for: it continues with a program that is
-- ready again, reports a failure, or still runs, when SDL does what its documentation says.
pub app_iterate-IsContained :
    {H : Type 0} (sdl : Sdl) (rounds : ℕ) (app : App H)
    → IsDocumented sdl
    → IsReady app
    → IsContained (app_iterate sdl rounds app)
unfolding app_iterate
app_iterate-IsContained sdl rounds app documented ready =
    let safe = tick-IsSafeTick sdl documented app ready rounds in
    iterate-IsContained (tick sdl rounds app) safe
