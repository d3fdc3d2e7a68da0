-- ===== src/Lock.antt =====
-- lock/locker.h: the semaphore's value, and the absolute time at which a timed wait gives up.
-- `sem_t`, the mutexes and the condition variables are the operating system's; a locked section is
-- one step of the model.
use ai_inference_gateway.Prelude.{
  ℕ, ◌+◌, ◌-◌, ◌*◌, ◌/◌, ◌%◌, ◌<◌, ◌≡◌, Bool, true, false, arith, leb, if◌then◌else◌, zero, suc,
}

-- `struct timespec`
pub record Timespec : Type 0 where
  pub tv_sec : ℕ
  pub tv_nsec : ℕ

abbrev pub nsec_per_sec : ℕ
nsec_per_sec = 1000000000

-- Lines 36 to 43 of locker.h, and the same lines of `wait_with_timeout_ms`.
unfoldable pub add_timeout_ms : Timespec → ℕ → Timespec
add_timeout_ms now timeout_ms =
    let sec = now.tv_sec + timeout_ms / 1000 in
    let nsec = now.tv_nsec + timeout_ms % 1000 * 1000000 in
    if leb nsec_per_sec nsec
    then record { tv_sec = sec + 1; tv_nsec = nsec - nsec_per_sec }
    else record { tv_sec = sec; tv_nsec = nsec }

-- `sem::post` and `sem::timedwait`: a wait returns false at its time limit, with the value as it
-- was.
unfoldable pub post : ℕ → ℕ
post value = value + 1

unfoldable pub timedwait : ℕ → Bool × ℕ
timedwait zero = (false, 0)
timedwait (suc value) = (true, value)

abbrev pub nanoseconds : Timespec → ℕ
nanoseconds t = t.tv_sec * nsec_per_sec + t.tv_nsec

-- The deadline of a timed wait is a normalised time, exactly `timeout_ms` milliseconds after a
-- normalised present.
pub add_timeout_ms_lem :
    (now : Timespec) (timeout_ms : ℕ)
    → now.tv_nsec < nsec_per_sec
    → (nanoseconds (add_timeout_ms now timeout_ms) ≡ nanoseconds now + timeout_ms * 1000000)
      × ((add_timeout_ms now timeout_ms).tv_nsec < nsec_per_sec)
unfolding add_timeout_ms
add_timeout_ms_lem now timeout_ms h = ground arith
