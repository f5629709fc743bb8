-- ===== src/App/Options.antt =====
-- src/options.cpp: `Options::parse` behind the parser of the arguments, which is an argument here
-- with the three values that it stores. An `int32_t` is its 32 bits.
use simple_risc_v_emulator.Common.{ℕ, ◌*◌, ◌%◌, ◌^◌, ◌<◌, ◌≡◌, refl, arith}
use simple_risc_v_emulator.Common.{
  List, [], ◌∷◌, get_elem?, ltb, ◌==◌, not, ◌||◌, Bool, true, false,
}
use simple_risc_v_emulator.Common.{Result, ok, throw, defined, ◌>>=◌, ◌>>◌, throw_if}
use simple_risc_v_emulator.Common.{runtime_error, memory_size_zero, framebuffer_size_not_positive}
use simple_risc_v_emulator.Common.{Bool-cases, inl, inr, ◌⊎◌, ltb→lt, ltb-false→le, ==→eq, ==-ne}

pub record Options : Type 0 where
  pub program_path : List ℕ
  pub framebuffer_width : ℕ
  pub framebuffer_height : ℕ
  pub memory_size : ℕ

-- What `parse_args` stores.
pub record Arguments : Type 0 where
  pub program_path : List ℕ
  pub framebuffer_size : List ℕ
  pub memory_size_kib : ℕ

-- `x <= 0` of an `int32_t`
abbrev pub is_not_positive : ℕ → Bool
is_not_positive x = x == 0 || not (ltb x (2 ^ 31))

-- `framebufferSize[i]`
abbrev pub size_at : List ℕ → ℕ → Result ℕ
size_at sizes i = defined (get_elem? sizes i)

-- The second operand of `||` is read when the first is false.
abbrev pub check_height : Bool → List ℕ → Result Bool
check_height true sizes = ok true
check_height false sizes = size_at sizes 1 >>= λ height. ok (is_not_positive height)

unfoldable pub parse_options : Arguments → Result Options
parse_options args = do
  throw_if (args.memory_size_kib == 0) (runtime_error memory_size_zero)
  first ← size_at args.framebuffer_size 0
  refused ← check_height (is_not_positive first) args.framebuffer_size
  throw_if refused (runtime_error framebuffer_size_not_positive)
  width ← size_at args.framebuffer_size 0
  height ← size_at args.framebuffer_size 1
  ok (record {
    program_path = args.program_path;
    framebuffer_width = width % 2 ^ 32;
    framebuffer_height = height % 2 ^ 32;
    memory_size = args.memory_size_kib * 1024 % 2 ^ 64;
  })

-- A positive `int32_t`.
abbrev pub IsPositive : ℕ → Type 0
IsPositive x = (0 < x) × (x < 2 ^ 31)

-- What the options promise to the program.
pub record IsAccepted (args : Arguments) (width height : ℕ) (o : Options) : Type 0 where
  pub same_path : o.program_path ≡ args.program_path
  pub same_width : o.framebuffer_width ≡ width
  pub same_height : o.framebuffer_height ≡ height
  pub width_positive : IsPositive width
  pub height_positive : IsPositive height
  pub memory_size-eq : o.memory_size ≡ 1024 * (args.memory_size_kib % 2 ^ 54)

is_not_positive-cases :
    (x : ℕ)
    → ((is_not_positive x ≡ true) × ¬ IsPositive x) ⊎ ((is_not_positive x ≡ false) × IsPositive x)
is_not_positive-cases x = elim (Bool-cases (x == 0)) [
  | inl e ↦ inl (rw e, λ p. absurd (omega (arith, ==→eq x 0 e, p.0)))
  | inr e ↦ elim (Bool-cases (ltb x (2 ^ 31))) [
    | inl small ↦ inr (rw (e, small), (omega (arith, ==-ne x 0 e), ltb→lt x (2 ^ 31) small))
    | inr large ↦
        inl (rw (e, large), λ p. absurd (omega (arith, ltb-false→le x (2 ^ 31) large, p.1)))
  ]
]

-- On the two numbers that the parser stores for the framebuffer, `Options::parse` throws when the
-- number of KiB is zero, and else when a size is not a positive `int32_t`; in all other cases it
-- returns the path and the sizes as given, and as memory size 1024 times the number of KiB modulo
-- 2^54, which is zero for the multiples of 2^54.
pub parse_options_lem :
    (args : Arguments) (width height : ℕ)
    → args.framebuffer_size ≡ width ∷ height ∷ []
    → ((args.memory_size_kib ≡ 0) × (parse_options args ≡ throw (runtime_error memory_size_zero)))
      ⊎ ((0 < args.memory_size_kib)
          × ¬ (IsPositive width × IsPositive height)
          × (parse_options args ≡ throw (runtime_error framebuffer_size_not_positive)))
      ⊎ ((0 < args.memory_size_kib)
          × (o : Options) × (parse_options args ≡ ok o)
          × IsAccepted args width height o)
unfolding parse_options
parse_options_lem args width height sizes = elim (Bool-cases (args.memory_size_kib == 0)) [
  | inl e ↦ inl (==→eq args.memory_size_kib 0 e, rw e)
  | inr e ↦
      let pos : 0 < args.memory_size_kib = omega (arith, ==-ne args.memory_size_kib 0 e) in
      elim (is_not_positive-cases width) [
        | inl (bad, not_w) ↦ inr (inl (pos, λ p. not_w p.0, rw (e, sizes, bad)))
        | inr (good, w) ↦ elim (is_not_positive-cases height) [
          | inl (bad, not_h) ↦ inr (inl (pos, λ p. not_h p.1, rw (e, sizes, good, bad)))
          | inr (good', h) ↦ inr (
              inr (
                pos,
                record {
                  program_path = args.program_path;
                  framebuffer_width = width % 2 ^ 32;
                  framebuffer_height = height % 2 ^ 32;
                  memory_size = args.memory_size_kib * 1024 % 2 ^ 64;
                },
                rw (e, sizes, good, good'),
                record {
                  same_path = refl;
                  same_width = omega (arith, w.1);
                  same_height = omega (arith, h.1);
                  width_positive = w;
                  height_positive = h;
                  memory_size-eq = omega arith;
                },
              ))
        ]
      ]
]
