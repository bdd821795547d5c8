-- ===== src/Timeouts/Tests.antt =====
-- Times that carry.
use pthread_benchmark.Prelude.{◌+◌, ◌*◌, ◌<◌, ◌≤◌, ◌%◌, ◌==◌, ◌≡◌, arith}
use pthread_benchmark.Timeouts.{Timeval, Timespec, thr_sleep_until, usleep_until}
use pthread_benchmark.Timeouts.Expiry.{nanoseconds, deadlines_add_up}

abbrev half_past : Timeval
half_past = record { tv_sec = 7; tv_usec = 500000 }

abbrev late : Timespec
late = record { tv_sec = 7; tv_nsec = 999999999 }

deadlines_add_up_example :
    ((nanoseconds (thr_sleep_until half_past 1 700000000)
        ≡ half_past.tv_sec * 1000000000 + half_past.tv_usec * 1000 + (1 * 1000000000 + 700000000))
      × ((thr_sleep_until half_past 1 700000000).tv_nsec ≤ 1000000000)
      × (((thr_sleep_until half_past 1 700000000).tv_nsec == 1000000000)
          ≡ (half_past.tv_usec * 1000 + 700000000 % 1000000000 == 1000000000)))
    × ((nanoseconds (usleep_until late 3000) ≡ nanoseconds late + 3000 * 1000)
        × ((usleep_until late 3000).tv_nsec < 1000000000))
deadlines_add_up_example =
    deadlines_add_up half_past 1 700000000 late 3000 (omega arith) (omega arith) (omega arith)
