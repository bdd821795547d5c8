-- ===== src/ArraySum/Tests.antt =====
-- A run of the array program with two threads and parts of two numbers.
use pthread_benchmark.Prelude.{ℕ, ◌*◌, ◌≡◌, refl, if◌then◌else◌, ◌==◌, List, [], ◌∷◌, ◌++◌}
use pthread_benchmark.Prelude.Int.{ℤ, pos, negsuc, ◌+ℤ◌}
use pthread_benchmark.Pthread.Model.{Event, World, run, boot, turns, rounds, turn, running}
use pthread_benchmark.Pthread.Races.{NeverRaces}
use pthread_benchmark.ArraySum.{Shared, Local, main, finish, code, begin, zeroed, take}
use pthread_benchmark.ArraySum.Parts.{sum_ints, IsGreatest, IsLowest}
use pthread_benchmark.ArraySum.Results.{results}

-- 5, -3, 2 and 7
abbrev numbers : ℕ → ℤ
numbers i = if i == 0 then pos 5 else if i == 1 then negsuc 2 else if i == 2 then pos 2 else pos 7

abbrev schedule : List Event
schedule = turns 8 0 0 ++ (rounds 30 (turn 1 0 ∷ turn 2 0 ∷ []) ++ turns 9 0 0)

abbrev after : World Shared Local
after = run (code 2 1 numbers) schedule (boot zeroed (λ _. 0) begin)

main_finishes : after.thread 0 ≡ running (main finish)
unfolding run code take ◌+ℤ◌
main_finishes = refl

printed : after.mem.out ≡ pos 11 ∷ pos 7 ∷ negsuc 2 ∷ []
unfolding run code take ◌+ℤ◌
printed = refl

results_example :
    (after.mem.out ≡ sum_ints numbers (2 * 2) ∷ after.mem.max ∷ after.mem.min ∷ [])
    × IsGreatest numbers (2 * 2) after.mem.max
    × IsLowest numbers (2 * 2) after.mem.min
    × NeverRaces (code 2 1 numbers) begin zeroed (λ _. 0)
results_example = results 2 1 numbers schedule main_finishes
