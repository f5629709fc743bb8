-- ===== src/App/Session/Steps.antt =====
-- src/main.cpp: what a callback leaves for the rest of a session.
use simple_risc_v_emulator.Common.{
  ℕ, ◌^◌, ◌≡◌, ◌≢◌, ◌⊎◌, ◌-◌, ◌%◌, Bool, true, false, ◌==◌, Bool-cases, inl, inr, ==-false, Option,
  none, some, List, [], ◌∷◌, ◌++◌, refl,
}
use simple_risc_v_emulator.Common.{Result, ok, throw, undefined, ◌>>=◌}
use simple_risc_v_emulator.App.Calls.{Call, Traced}
use simple_risc_v_emulator.App.Renderer.{Sdl}
use simple_risc_v_emulator.App.State.{App, key_event, handle_key}
use simple_risc_v_emulator.App.Start.{tick}
use simple_risc_v_emulator.App.Callbacks.{
  AppResult, app_continue, app_success, app_failure, Program, absent, abandoned, alive, quit,
  key_down, key_up, other_event, is_std_exception, catch_std, app_iterate, app_event,
}
use simple_risc_v_emulator.App.Ticks.{
  IsReady, IsDocumented, IsSafeTick, IsSafeTicked, tick-IsSafeTick,
}
use simple_risc_v_emulator.App.Session.{
  Step, deliver_event, iterate, keep_alive, perform, IsOpen, Lifecycle,
}
use simple_risc_v_emulator.App.Session.Resources.{IsOpen-quiet, IsQuiet, tick-IsQuiet}

-- No key is released whose code has no negation as an `int32_t`.
abbrev pub IsSafeStep : Step → Type 0
IsSafeStep (deliver_event (key_up key)) = key ≢ 2 ^ 31
IsSafeStep _ = Unit {0}

module _ {H : Type 0} (sdl : Sdl) where
  -- What a callback leaves for the rest of the session.
  abbrev pub Continues : List Call → Result (AppResult × Program H) → Type 0
  Continues calls (ok (app_continue, alive app)) = IsReady app × IsOpen sdl calls
  Continues calls (ok (app_success, alive app)) = IsOpen sdl calls
  Continues calls (ok (app_failure, abandoned)) = IsOpen sdl calls
  Continues calls (ok (app_failure, absent)) = Lifecycle sdl calls
  Continues calls (ok _) = ⊥
  Continues calls (throw e) = is_std_exception e ≡ false
  Continues calls undefined = ⊥

  abbrev pub ContinuesAfter : List Call → Option (Traced (AppResult × Program H)) → Type 0
  ContinuesAfter calls none = Unit {0}
  ContinuesAfter calls (some m) = Continues (calls ++ m.calls) m.result

  with_key_events-IsReady :
      (app : App H) (events : List ℕ) → IsReady app → IsReady (record app { key_events = events })
  with_key_events-IsReady app events ready = record {
    runnable = ready.runnable;
    thread = ready.thread;
    width_positive = ready.width_positive;
    narrow = ready.narrow;
    height_positive = ready.height_positive;
    above = ready.above;
    inside = ready.inside;
  }

  handle_key-ok :
      (key : ℕ) (down : Bool) (app : App H)
      → (down ≡ true) ⊎ (key ≢ 2 ^ 31)
      → (events : List ℕ) × (handle_key key down app ≡ ok (record app { key_events = events }))
  unfolding handle_key key_event
  handle_key-ok key down app safe = elim (Bool-cases (key == 0)) [
    | inl e ↦ (app.key_events, rw e refl)
    | inr e ↦ elim safe [
      | inl pressed ↦ (app.key_events ++ (key ∷ []), rw (e, pressed) refl)
      | inr negatable ↦ elim (Bool-cases down) [
        | inl pressed ↦ (app.key_events ++ (key ∷ []), rw (e, pressed) refl)
        | inr up ↦ (
          app.key_events ++ ((2 ^ 32 - key) % 2 ^ 32 ∷ []),
          rw (e, up, ==-false key (2 ^ 31) negatable) refl,
        )
      ]
    ]
  ]

  abbrev going_on : App H → Result (AppResult × App H)
  going_on app = ok (app_continue, app)

  handle_key-Continues :
      (calls : List Call) (key : ℕ) (down : Bool) (app : App H)
      → (down ≡ true) ⊎ (key ≢ 2 ^ 31)
      → IsReady app
      → IsOpen sdl calls
      → Continues calls (handle_key key down app >>= going_on >>= λ r. ok (keep_alive r))
  handle_key-Continues calls key down app safe ready opened =
      let (events, e) = handle_key-ok key down app safe in
      rw e (with_key_events-IsReady app events ready, opened)

  catch_std-Continues :
      (calls : List Call) (r : Result (App H))
      → IsSafeTick r
      → IsOpen sdl calls
      → Continues calls (catch_std abandoned r)
  catch_std-Continues calls (ok app) s opened = (s, opened)
  catch_std-Continues calls (throw e) s opened = rw s opened
  catch_std-Continues calls undefined s opened = s

  ticked-Continues :
      (calls : List Call) (m : Option (Traced (App H)))
      → IsSafeTicked m
      → IsQuiet m
      → IsOpen sdl calls
      → ContinuesAfter calls (elim m [
        | none ↦ none
        | some m' ↦ some (record { calls = m'.calls; result = catch_std abandoned m'.result })
      ])
  ticked-Continues calls none safe quiet opened = tt
  ticked-Continues calls (some m) safe quiet opened =
      catch_std-Continues (calls ++ m.calls) m.result safe
        (IsOpen-quiet sdl calls m.calls opened quiet)

  module _ (documented : IsDocumented sdl) where
    pub perform-Continues :
        (calls : List Call) (step : Step) (app : App H)
        → IsSafeStep step
        → IsReady app
        → IsOpen sdl calls
        → ContinuesAfter calls (perform sdl step app)
    unfolding perform app_event app_iterate
    perform-Continues calls (deliver_event quit) app safe ready opened =
        IsOpen-quiet sdl calls [] opened refl
    perform-Continues calls (deliver_event other_event) app safe ready opened =
        (ready, IsOpen-quiet sdl calls [] opened refl)
    perform-Continues calls (deliver_event (key_down key)) app safe ready opened =
        handle_key-Continues (calls ++ []) key true app (inl refl) ready
          (IsOpen-quiet sdl calls [] opened refl)
    perform-Continues calls (deliver_event (key_up key)) app safe ready opened =
        handle_key-Continues (calls ++ []) key false app (inr safe) ready
          (IsOpen-quiet sdl calls [] opened refl)
    perform-Continues calls (iterate rounds) app safe ready opened =
        ticked-Continues calls (tick sdl rounds app)
          (tick-IsSafeTick sdl documented app ready rounds) (tick-IsQuiet sdl rounds app) opened
