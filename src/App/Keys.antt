-- ===== src/App/Keys.antt =====
-- src/app.cpp and src/main.cpp: the buffer of key events.
use mathlib.Core.List.{map, append-nil}
use simple_risc_v_emulator.Common.{ℕ, ◌-◌, ◌%◌, ◌^◌, ◌<◌, ◌≡◌, ◌∙◌, ap, refl, sym, arith}
use simple_risc_v_emulator.Common.{List, [], ◌∷◌, ◌++◌, All, append_assoc}
use simple_risc_v_emulator.Common.{
  Bool, true, false, ltb, ◌==◌, if◌then◌else◌, Bool-cases, inl, inr,
}
use simple_risc_v_emulator.Common.{==-ne, ==-false, lt→ltb, ltb-false, Result, ok, ◌>>=◌}
use simple_risc_v_emulator.App.State.{App, key_event, handle_key}
use simple_risc_v_emulator.App.Callbacks.{Event, app_continue, key_down, key_up, app_event}

-- A key and whether it went down.
abbrev pub Press : Type 0
Press = ℕ × Bool

abbrev pub to_event : Press → Event
to_event (key, true) = key_down key
to_event (key, false) = key_up key

-- What the comment on `ReadKey` says of an event: its sign, and its magnitude.
abbrev pub read_event : ℕ → Press
read_event x = if ltb x (2 ^ 31) then (x, true) else (2 ^ 32 - x, false)

-- `SDLK_UNKNOWN` is not a key.
abbrev pub known : List Press → List Press
known [] = []
known (p ∷ ps) = let rest = known ps in if p.0 == 0 then rest else p ∷ rest

-- A positive `int32_t`, or no key.
abbrev pub IsKeyCode : Press → Type 0
IsKeyCode p = p.0 < 2 ^ 31

-- The events in the order in which SDL delivers them.
abbrev pub deliver : {H : Type 0} → List Event → App H → Result (App H)
deliver [] app = ok app
deliver (e ∷ es) app = app_event e app >>= λ r. deliver es r.1

key_event-read :
    (key : ℕ) (down : Bool)
    → 0 < key
    → key < 2 ^ 31
    → (x : ℕ) × (key_event key down ≡ ok x) × (read_event x ≡ (key, down))
unfolding key_event
key_event-read key true pos lt = (key, refl, rw (lt→ltb key (2 ^ 31) lt))
key_event-read key false pos lt =
    let x : ℕ = (2 ^ 32 - key) % 2 ^ 32 in
    let e : x ≡ 2 ^ 32 - key = omega arith in
    (
      x,
      rw (==-false key (2 ^ 31) (omega arith)),
      rw (ltb-false x (2 ^ 31) (omega arith)) (ap (λ (k : ℕ). (k, false)) (omega arith)),
    )

append-cons : (xs ys : List ℕ) (x : ℕ) → (xs ++ (x ∷ [])) ++ ys ≡ xs ++ (x ∷ ys)
append-cons xs ys x = append_assoc xs (x ∷ []) ys

app_event-press :
    {H : Type 0} (p : Press) (app : App H)
    → app_event (to_event p) app ≡ (handle_key p.0 p.1 app >>= λ app'. ok (app_continue, app'))
unfolding app_event
app_event-press (key, true) app = refl
app_event-press (key, false) app = refl

-- However many keys go down and up, in whatever order, the callback handles all of them, and what
-- it appends to the buffer reads back, by sign and magnitude, as those presses and releases
-- in their order, without those of the unknown key; nothing else of the program changes. The key
-- codes are positive as `int32_t`.
pub deliver-key_events :
    {H : Type 0} (ps : List Press) (app : App H)
    → All IsKeyCode ps
    → (events : List ℕ) × (deliver (map to_event ps) app
        ≡ ok (record app { key_events = app.key_events ++ events }))
      × (map read_event events ≡ known ps)
unfolding handle_key
deliver-key_events {H = H} [] app keys = (
  [],
  ap (λ (k : List ℕ). ok (record app { key_events = k })) (sym (append-nil app.key_events)),
  refl,
)
deliver-key_events {H = H} (p ∷ ps) app keys = elim (Bool-cases (p.0 == 0)) [
  | inl e ↦
      let (events, handled, reads) = deliver-key_events ps app keys.1 in
      (events, rw (app_event-press p app, e) handled, rw e reads)
  | inr e ↦
      let (x, sent, read) = key_event-read p.0 p.1 (omega (arith, ==-ne p.0 0 e)) keys.0 in
      let app' : App H = record app { key_events = app.key_events ++ (x ∷ []) } in
      let (events, handled, reads) = deliver-key_events ps app' keys.1 in
      (
        x ∷ events,
        rw (app_event-press p app, e, sent)
            (handled
              ∙ ap (λ (k : List ℕ). ok (record app { key_events = k }))
                  (append-cons app.key_events events x)),
        rw (e, read, reads),
      )
]
