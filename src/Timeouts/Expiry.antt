-- ===== src/Timeouts/Expiry.antt =====
-- The times of helper.c and concurio.c, in nanoseconds.
use pthread_benchmark.Prelude.{ℕ, ◌+◌, ◌*◌, ◌^◌, ◌%◌, ◌==◌, ◌<◌, ◌≤◌, ◌≡◌, arith}
use pthread_benchmark.Timeouts.{Timeval, Timespec, carry, thr_sleep_until, normalize, usleep_until}

abbrev pub nanoseconds : Timespec → ℕ
nanoseconds ts = ts.tv_sec * 1000000000 + ts.tv_nsec

thr_sleep_until-nanoseconds :
    (now : Timeval) (sec nsec : ℕ)
    → now.tv_usec < 1000000
    → (nanoseconds (thr_sleep_until now sec nsec)
        ≡ now.tv_sec * 1000000000 + now.tv_usec * 1000 + (sec * 1000000000 + nsec))
      × ((thr_sleep_until now sec nsec).tv_nsec ≤ 1000000000)
      × (((thr_sleep_until now sec nsec).tv_nsec == 1000000000)
          ≡ (now.tv_usec * 1000 + nsec % 1000000000 == 1000000000))
unfolding thr_sleep_until carry
thr_sleep_until-nanoseconds now sec nsec h = ground arith

usleep_until-nanoseconds :
    (clock : Timespec) (usecs : ℕ)
    → clock.tv_nsec < 1000000000
    → usecs * 1000 < 2 ^ 32
    → (nanoseconds (usleep_until clock usecs) ≡ nanoseconds clock + usecs * 1000)
      × ((usleep_until clock usecs).tv_nsec < 1000000000)
unfolding usleep_until normalize
usleep_until-nanoseconds clock usecs h small = ground arith

-- Where the microseconds of now and the nanoseconds of the clock are below a second and the product
-- of usecs with 1000 does not wrap: the time that thr_sleep computes is the given time after now,
-- and its nanoseconds are below a second, except that they are a whole second exactly where those
-- of now and of the argument add up to one; the time that pthread_usleep computes is the given time
-- after the clock, and its nanoseconds are below a second.
pub deadlines_add_up :
    (now : Timeval) (sec nsec : ℕ) (clock : Timespec) (usecs : ℕ)
    → now.tv_usec < 1000000
    → clock.tv_nsec < 1000000000
    → usecs * 1000 < 2 ^ 32
    → ((nanoseconds (thr_sleep_until now sec nsec)
          ≡ now.tv_sec * 1000000000 + now.tv_usec * 1000 + (sec * 1000000000 + nsec))
        × ((thr_sleep_until now sec nsec).tv_nsec ≤ 1000000000)
        × (((thr_sleep_until now sec nsec).tv_nsec == 1000000000)
            ≡ (now.tv_usec * 1000 + nsec % 1000000000 == 1000000000)))
      × ((nanoseconds (usleep_until clock usecs) ≡ nanoseconds clock + usecs * 1000)
          × ((usleep_until clock usecs).tv_nsec < 1000000000))
deadlines_add_up now sec nsec clock usecs h h' small =
    (thr_sleep_until-nanoseconds now sec nsec h, usleep_until-nanoseconds clock usecs h' small)
