-- ===== src/Hart/Time.antt =====
-- src/riscv/base.hpp: `Thread::getTime`. The clock of the host is an argument: its counts, and the
-- factor by which `std::chrono::duration_cast` makes nanoseconds of them.
use simple_risc_v_emulator.Common.{
  ℕ, ◌+◌, ◌-◌, ◌*◌, ◌/◌, ◌%◌, ◌^◌, ◌<◌, ◌≡◌, ap, refl, arith, ltb, if◌then◌else◌, inl, inr,
  Bool-cases,
}
use simple_risc_v_emulator.Common.{ltb→lt, ltb-false→le, lt→ltb}
use simple_risc_v_emulator.Common.{Result, ok, undefined, ◌>>=◌}

-- Nanoseconds are counts times `numerator / denominator`.
pub record Clock : Type 0 where
  pub now : ℕ
  pub numerator : ℕ
  pub denominator : ℕ

-- `duration_cast<ClockTickDuration>` of a count that is not negative: the product is one of
-- `int64_t`, whose overflow is undefined.
unfoldable pub nanoseconds : Clock → ℕ → Result ℕ
nanoseconds clock count =
    if ltb (count * clock.numerator) (2 ^ 63)
    then ok (count * clock.numerator / clock.denominator)
    else undefined

-- A start after the present gives a negative number, as its 64 bits.
unfoldable pub get_time : Clock → ℕ → Result ℕ
unfolding nanoseconds
get_time clock start_time =
    if ltb clock.now start_time
    then (nanoseconds clock (start_time - clock.now) >>= λ n. ok ((2 ^ 64 - n) % 2 ^ 64))
    else nanoseconds clock (clock.now - start_time)

nanoseconds-counted :
    (clock : Clock) (count : ℕ)
    → clock.numerator ≡ 1
    → clock.denominator ≡ 1
    → count < 2 ^ 63
    → nanoseconds clock count ≡ ok count
unfolding nanoseconds
nanoseconds-counted clock count n d lt =
    rw (n, d, lt→ltb (count * 1) (2 ^ 63) (omega (arith, lt))) (ap ok (omega arith))

-- On a clock that counts nanoseconds, as long as their number is one of `int64_t`, the start and
-- the elapsed time add up to the present, modulo 2^64, whichever of the two is later.
get_time-elapsed :
    (clock : Clock) (start_time : ℕ)
    → clock.numerator ≡ 1
    → clock.denominator ≡ 1
    → clock.now < 2 ^ 63
    → start_time < 2 ^ 63
    → (elapsed : ℕ) × (get_time clock start_time ≡ ok elapsed)
      × ((start_time + elapsed) % 2 ^ 64 ≡ clock.now)
unfolding get_time
get_time-elapsed clock start_time n d now_lt start_lt =
    elim (Bool-cases (ltb clock.now start_time)) [
      | inl e ↦
          let later = ltb→lt clock.now start_time e in
          (
            (2 ^ 64 - (start_time - clock.now)) % 2 ^ 64,
            rw (e, nanoseconds-counted clock (start_time - clock.now) n d (omega arith)) refl,
            omega (arith, later),
          )
      | inr e ↦
          let before = ltb-false→le clock.now start_time e in
          (
            clock.now - start_time,
            rw (e, nanoseconds-counted clock (clock.now - start_time) n d (omega arith)) refl,
            omega (arith, before),
          )
    ]
