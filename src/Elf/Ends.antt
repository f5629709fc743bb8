-- ===== src/Elf/Ends.antt =====
-- src/riscv/elf.cpp: a result judged on both of its ways out.
use simple_risc_v_emulator.Emulator.Decoded.Parts.{Gives}
use simple_risc_v_emulator.Common.{Result, ok, throw, undefined, Exception, ◌>>=◌, ◌≡◌, refl}

-- A value with the one property, or an exception with the other.
abbrev pub Ends {ℓ} : {A : Type ℓ} → (A → Type 0) → (Exception → Type 0) → Result A → Type 0
Ends P R (ok a) = P a
Ends P R (throw e) = R e
Ends P R undefined = ⊥

pub Ends-bind {ℓ κ} :
    {A : Type ℓ} {B : Type κ} (P : A → Type 0) (Q : B → Type 0) (R : Exception → Type 0)
    (r : Result A) (f : A → Result B)
    → Ends P R r
    → ((a : A) → (r ≡ ok a) → P a → Ends Q R (f a))
    → Ends Q R (r >>= f)
Ends-bind P Q R (ok a) f g h = h a refl g
Ends-bind P Q R (throw e) f g h = g
Ends-bind P Q R undefined f g h = absurd g

pub Ends-weaken {ℓ} :
    {A : Type ℓ} (P Q : A → Type 0) (R S : Exception → Type 0) (r : Result A)
    → ((a : A) → P a → Q a)
    → ((e : Exception) → R e → S e)
    → Ends P R r
    → Ends Q S r
Ends-weaken P Q R S (ok a) f g h = f a h
Ends-weaken P Q R S (throw e) f g h = g e h
Ends-weaken P Q R S undefined f g h = absurd h

pub Gives-Ends :
    {A : Type 0} (P : A → Type 0) (R : Exception → Type 0) (r : Result A)
    → Gives P r
    → ((e : Exception) → (r ≡ throw e) → R e)
    → Ends (λ a. (r ≡ ok a) × P a) R r
Gives-Ends P R (ok a) g f = (refl, g)
Gives-Ends P R (throw e) g f = f e refl
Gives-Ends P R undefined g f = absurd g

pub Ends-Gives :
    {A : Type 0} (P : A → Type 0) (R : Exception → Type 0) (r : Result A) → Ends P R r → Gives P r
Ends-Gives P R (ok a) g = g
Ends-Gives P R (throw e) g = tt
Ends-Gives P R undefined g = g
