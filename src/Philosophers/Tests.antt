-- ===== src/Philosophers/Tests.antt =====
-- Runs of philosophers.c.
use pthread_benchmark.Prelude.{
  ◌+◌, true, false, ◌&&◌, zero, suc, ◌<◌, ◌≡◌, ◌⊎◌, refl, List, ◌++◌, arith,
}
use pthread_benchmark.Pthread.Model.{turns, Event, run, boot, done, unborn}
use pthread_benchmark.Pthread.Stuck.{Stuck}
use pthread_benchmark.Philosophers.{left_fork, code, begin, filled}
use pthread_benchmark.Philosophers.Meals.{eats, neighbours_apart}
use pthread_benchmark.Philosophers.Progress.{Stuck-done, outside-Halts}

-- Two philosophers eat once, one after the other.
abbrev dinner : List Event
dinner = turns 3 0 0 ++ (turns 10 1 0 ++ (turns 10 2 0 ++ turns 4 0 0))

two_or_more : 1 < 2
two_or_more = omega arith

-- Philosopher 0 has taken both forks, and the other waits for one of them.
abbrev first_bite : List Event
first_bite = turns 3 0 0 ++ (turns 4 1 0 ++ turns 5 2 0)

first_eats : eats ((run (code 2) first_bite (boot (filled 2 1) (λ _. 0) begin)).thread 1) ≡ true
unfolding run code
first_eats = refl

neighbours_apart_example :
    (eats ((run (code 2) first_bite (boot (filled 2 1) (λ _. 0) begin)).thread (0 + 1))
      && eats
          ((run (code 2) first_bite (boot (filled 2 1) (λ _. 0) begin)).thread (left_fork 2 0 + 1)))
    ≡ false
neighbours_apart_example = neighbours_apart 2 two_or_more 1 first_bite 0 (omega arith)

dinner-Stuck : Stuck (code 2) (run (code 2) dinner (boot (filled 2 1) (λ _. 0) begin))
unfolding run code
dinner-Stuck zero = tt
dinner-Stuck (suc zero) = tt
dinner-Stuck (suc (suc zero)) = tt
dinner-Stuck (suc (suc (suc t))) =
    outside-Halts 2 two_or_more 1 dinner (suc (suc (suc t))) (omega arith)

Stuck-done_example :
    ((run (code 2) dinner (boot (filled 2 1) (λ _. 0) begin)).thread 2 ≡ done)
    ⊎ ((run (code 2) dinner (boot (filled 2 1) (λ _. 0) begin)).thread 2 ≡ unborn)
Stuck-done_example = Stuck-done 2 two_or_more 1 dinner dinner-Stuck 2 (omega arith)
