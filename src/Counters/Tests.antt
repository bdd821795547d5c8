-- ===== src/Counters/Tests.antt =====
-- Short runs of the counting programs.
use pthread_benchmark.Prelude.{
  ℕ, zero, suc, true, false, ◌*◌, ◌<◌, ◌≤◌, ◌≡◌, refl, List, ◌++◌, arith,
}
use pthread_benchmark.Pthread.Model.{Event, World, running, done, run, boot, turns}
use pthread_benchmark.Counters.{
  Tally, head, Local, count, code, begin, untouched, guarded_setting, withmutex, w9mutex1_code,
}
use pthread_benchmark.Counters.Total.{counted}
use pthread_benchmark.Counters.Lost.{late_store, half_lost}

-- Two threads make one round each.
abbrev both : List Event
both = turns 3 0 0 ++ turns 6 1 0 ++ turns 6 2 0

abbrev after : World Tally Local
after = run (code (guarded_setting 2 1)) both (boot untouched (λ _. 0) begin)

both_done : (t : ℕ) → 0 < t → t ≤ 2 → after.thread t ≡ done
unfolding run code
both_done zero gt le = absurd (omega (arith, gt))
both_done (suc zero) gt le = refl
both_done (suc (suc zero)) gt le = refl
both_done (suc (suc (suc t))) gt le = absurd (omega (arith, le))

counted_example : after.mem.counter ≡ 2 * 1
counted_example = counted 2 1 both both_done

half_lost_example :
    ((run w9mutex1_code (late_store 0) (boot untouched (λ _. 0) begin)).thread 1
      ≡ running (count 1 head))
    × ((run w9mutex1_code (late_store 0) (boot untouched (λ _. 0) begin)).thread 2
        ≡ running (count 1 head))
    × ((run w9mutex1_code (late_store 0) (boot untouched (λ _. 0) begin)).mem.counter ≡ 1)
half_lost_example = half_lost 2 0 true false (omega arith)

-- The settings of the four programs are among those of the theorems.
withmutex_guarded : withmutex ≡ guarded_setting 4 100
withmutex_guarded = refl
