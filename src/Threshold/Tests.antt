-- ===== src/Threshold/Tests.antt =====
-- Runs of the counting programs.
use pthread_benchmark.Prelude.{
  ℕ, zero, suc, ◌<◌, ◌+◌, ◌*◌, ◌≤◌, ◌≡◌, refl, List, ◌∷◌, [], ◌++◌, arith,
}
use pthread_benchmark.Pthread.Model.{done, turns, rounds, turn, Event, run, boot}
use pthread_benchmark.Pthread.Races.{DataRace}
use pthread_benchmark.Threshold.{six, use_condition, code, begin, amount_of}
use pthread_benchmark.Threshold.Total.{final_count, watch_sees_limit}

-- `main` creates the three threads; the watcher sleeps; the counting threads take turns, and a
-- signal goes to the watcher.
abbrev until_twelve : List Event
until_twelve = turns 4 0 0 ++ (turns 4 1 0 ++ turns 120 2 1)

abbrev whole_run : List Event
whole_run = until_twelve ++ rounds 120 (turn 1 0 ∷ turn 2 1 ∷ turn 3 1 ∷ [])

all_done :
    (t : ℕ)
    → 0 < t
    → t ≤ six.counters + 1
    → (run (code six) whole_run (boot 0 (λ _. 0) begin)).thread t ≡ done
unfolding run code
all_done zero lo hi = absurd (omega arith)
all_done (suc zero) lo hi = refl
all_done (suc (suc zero)) lo hi = refl
all_done (suc (suc (suc zero))) lo hi = refl
all_done (suc (suc (suc (suc t)))) lo hi = absurd (omega arith)

final_count_example :
    (run (code six) whole_run (boot 0 (λ _. 0) begin)).mem
    ≡ six.counters * six.rounds + amount_of six.bonus
unfolding run code
final_count_example = final_count six whole_run all_done

-- The watcher of 11-14UseConditionVariable.c, awake after the seventh count.
abbrev early : List Event
early = turns 4 0 0 ++ (turns 4 1 0 ++ (turns 50 2 1 ++ (turns 50 3 1 ++ turns 3 1 0)))

watch_sees_limit_example :
    (use_condition.limit ≤ (run (code use_condition) early (boot 0 (λ _. 0) begin)).mem)
    × (¬ DataRace (code use_condition) (run (code use_condition) early (boot 0 (λ _. 0) begin)))
unfolding run code
watch_sees_limit_example = watch_sees_limit use_condition early refl
