-- ===== src/App/Calls.antt =====
-- src/renderer.cpp: the calls of SDL that a body makes, in their order, next to its result.
use simple_risc_v_emulator.Common.{ℕ, List, [], ◌∷◌, ◌++◌, Bool}
use simple_risc_v_emulator.Common.{Result, ok, throw, undefined}
use simple_risc_v_emulator.Emulator.Decoded.Parts.{Gives}

-- The functions of SDL that the sources call. There is one window, one renderer and one texture at
-- most, so that a call does not say which one it is about; an `int` is its 32 bits. The
-- argument of `sdl_set_render_vsync` says whether it is called on a renderer or on null.
pub data Call : Type 0 where
  sdl_init_video : Call
  sdl_create_window sdl_set_window_minimum_size sdl_create_texture : ℕ → ℕ → Call
  sdl_create_renderer sdl_set_texture_scale_mode : Call
  sdl_set_render_vsync : Bool → Call
  sdl_destroy_texture sdl_destroy_renderer sdl_destroy_window : Call
  sdl_set_render_draw_color : ℕ → ℕ → ℕ → ℕ → Call
  sdl_render_clear sdl_render_texture sdl_render_present : Call
  sdl_update_texture : ℕ → Call

pub record Traced {ℓ} (A : Type ℓ) : Type ℓ where
  pub calls : List Call
  pub result : Result A

-- The rest of the body runs on the value, after the calls of the statement.
abbrev pub follow {ℓ κ} :
    {A : Type ℓ} {B : Type κ} → List Call → Result A → (A → Traced B) → Traced B
follow calls undefined rest = record { calls = calls; result = undefined }
follow calls (throw e) rest = record { calls = calls; result = throw e }
follow calls (ok value) rest =
    let r = rest value in record { calls = calls ++ r.calls; result = r.result }

infixl 5 ◌>>=◌ ◌>>◌
abbrev pub ◌>>=◌ {ℓ κ} : {A : Type ℓ} {B : Type κ} → Traced A → (A → Traced B) → Traced B
m >>= rest = follow m.calls m.result rest

abbrev pub ◌>>◌ {κ} : {B : Type κ} → Traced (Unit {0}) → Traced B → Traced B
statement >> rest = statement >>= λ done. rest

-- A statement that does not call SDL.
abbrev pub lift {ℓ} : {A : Type ℓ} → Result A → Traced A
lift r = record { calls = []; result = r }

-- A call, and what it does.
abbrev pub called {ℓ} : {A : Type ℓ} → Call → Result A → Traced A
called call r = record { calls = call ∷ []; result = r }

-- A call whose result is not looked at.
abbrev pub emit : Call → Traced (Unit {0})
emit call = called call (ok tt)

-- The calls of the destructors that run when an exception leaves the body.
abbrev pub on_throw {ℓ} : {A : Type ℓ} → List Call → Result A → List Call
on_throw destructors (throw e) = destructors
on_throw destructors _ = []

abbrev pub unwinding {ℓ} : {A : Type ℓ} → List Call → Traced A → Traced A
unwinding destructors m = record {
  calls = m.calls ++ on_throw destructors m.result;
  result = m.result;
}

pub Gives-follow {ℓ κ} :
    {A : Type ℓ} {B : Type κ} (P : A → Type 0) (Q : B → Type 0) (calls : List Call) (r : Result A)
    (rest : A → Traced B)
    → Gives P r
    → ((a : A) → P a → Gives Q (rest a).result)
    → Gives Q (follow calls r rest).result
Gives-follow P Q calls (ok a) rest g h = h a g
Gives-follow P Q calls (throw e) rest g h = tt
Gives-follow P Q calls undefined rest g h = absurd g
