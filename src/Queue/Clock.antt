-- ===== src/Queue/Clock.antt =====
-- `monotonicDeadline` and `elapsedNanoseconds` of subscriber_queue.cpp.
use cpp_robot_middleware.Prelude.{
  ℕ, ◌+◌, ◌-◌, ◌*◌, ◌/◌, ◌%◌, ◌≤◌, ◌<◌, ◌≡◌, refl, Option, none, some, leb, ltb, false,
  if◌then◌else◌, ◌==◌, Bool-cases, inl, inr, arith,
}

-- `timespec`, with the non-negative readings of the monotonic clock.
pub record Timespec : Type 0 where
  pub tv_sec : ℕ
  pub tv_nsec : ℕ

abbrev pub second_ns : ℕ
second_ns = 1000000000

-- `std::numeric_limits<time_t>::max()`
abbrev pub time_max : ℕ
time_max = 9223372036854775807

abbrev pub to_ns : Timespec → ℕ
to_ns t = t.tv_sec * second_ns + t.tv_nsec

-- `++deadline.tv_sec` at the maximum of `time_t` is a signed overflow, which has no defined result:
-- `none`.
unfoldable pub carry : ℕ → ℕ → Option Timespec
carry sec nsec =
    if leb second_ns nsec
    then if sec == time_max
      then none
      else some (record { tv_sec = sec + 1; tv_nsec = nsec - second_ns })
    else some (record { tv_sec = sec; tv_nsec = nsec })

-- The reading `none` is a `clock_gettime` that fails and leaves the zero time.
unfoldable pub monotonic_deadline : Option Timespec → ℕ → Option Timespec
unfolding carry
monotonic_deadline none timeout_ms = some (record { tv_sec = 0; tv_nsec = 0 })
monotonic_deadline (some now) timeout_ms =
    if ltb (time_max - now.tv_sec) (timeout_ms / 1000)
    then some (record { tv_sec = time_max; tv_nsec = 999999999 })
    else carry (now.tv_sec + timeout_ms / 1000) (now.tv_nsec + timeout_ms % 1000 * 1000000)

-- The differences are formed in `int64_t`; a clock that went back gives 0.
unfoldable pub elapsed_nanoseconds : Timespec → Timespec → ℕ
elapsed_nanoseconds start end = if leb (to_ns end) (to_ns start) then 0 else to_ns end - to_ns start

-- When the time of now and the timeout together can be held by a `timespec`, the computation
-- does not overflow and the deadline lies exactly the timeout after now; its nanoseconds stay below a second, as
-- `pthread_cond_timedwait` requires, and its seconds fit `time_t`.
pub monotonic_deadline_lem :
    (now : Timespec) (timeout_ms : ℕ)
    → now.tv_nsec < second_ns
    → to_ns now + timeout_ms * 1000000 < (time_max + 1) * second_ns
    → (deadline : Timespec) × (monotonic_deadline (some now) timeout_ms ≡ some deadline)
      × (to_ns deadline ≡ to_ns now + timeout_ms * 1000000)
      × (deadline.tv_nsec < second_ns)
      × (deadline.tv_sec ≤ time_max)
unfolding monotonic_deadline carry
monotonic_deadline_lem now timeout_ms h k =
    let sec = now.tv_sec + timeout_ms / 1000 in
    let nsec = now.tv_nsec + timeout_ms % 1000 * 1000000 in
    let room : ltb (time_max - now.tv_sec) (timeout_ms / 1000) ≡ false = ground arith in
    elim (Bool-cases (leb second_ns nsec)) [
      | inl over ↦ (
        record { tv_sec = sec + 1; tv_nsec = nsec - second_ns },
        (let below : (sec == time_max) ≡ false = ground arith in rw (room, over, below) refl),
        (let least : second_ns ≤ nsec = ground arith in omega arith),
        omega arith,
        ground arith,
      )
      | inr under ↦ (
        record { tv_sec = sec; tv_nsec = nsec },
        rw (room, under) refl,
        omega arith,
        ground arith,
        ground arith,
      )
    ]
