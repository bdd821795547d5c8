-- ===== src/Timeouts.antt =====
-- How two programs compute the time until which pthread_cond_timedwait waits: thr_sleep of
-- Fixed/NoBug1/helper.c and pthread_usleep of Fixed/NoBug1/concurio.c. Times are not negative, and
-- sums of 64-bit times do not wrap.
mod Expiry
mod Tests
use pthread_benchmark.Prelude.{ℕ, ◌+◌, ◌-◌, ◌*◌, ◌/◌, ◌%◌, ◌^◌, Bool, ltb, leb, if◌then◌else◌}

pub record Timeval : Type 0 where
  pub tv_sec : ℕ
  pub tv_usec : ℕ

pub record Timespec : Type 0 where
  pub tv_sec : ℕ
  pub tv_nsec : ℕ

-- A carry of one second.
unfoldable pub carry : Timespec → Timespec
carry ts =
    if ltb 1000000000 ts.tv_nsec
    then record { tv_sec = ts.tv_sec + 1; tv_nsec = ts.tv_nsec - 1000000000 }
    else ts

-- `ts` in thr_sleep, with what gettimeofday gives.
unfoldable pub thr_sleep_until : Timeval → ℕ → ℕ → Timespec
thr_sleep_until now sec nsec = carry (record {
  tv_sec = now.tv_sec + sec + nsec / 1000000000;
  tv_nsec = now.tv_usec * 1000 + nsec % 1000000000;
})

unfoldable pub normalize : Timespec → Timespec
normalize ts =
    if leb 1000000000 ts.tv_nsec
    then record { tv_sec = ts.tv_sec + ts.tv_nsec / 1000000000; tv_nsec = ts.tv_nsec % 1000000000 }
    else ts

-- `timerexpires` in pthread_usleep, with what clock_gettime gives; the product is an unsigned int.
unfoldable pub usleep_until : Timespec → ℕ → Timespec
usleep_until clock usecs =
    normalize (record clock { tv_nsec = clock.tv_nsec + usecs * 1000 % 2 ^ 32 })
