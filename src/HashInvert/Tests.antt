-- ===== src/HashInvert/Tests.antt =====
-- A run of countOnes with two threads and three words, and bits of a small table.
use pthread_benchmark.Prelude.{ℕ, ◌≡◌, refl, true, false, List, [], ◌∷◌, ◌++◌, arith, sum_below}
use pthread_benchmark.Pthread.Model.{Event, run, boot, turns, rounds, turn, running}
use pthread_benchmark.Pthread.Races.{NeverRaces}
use pthread_benchmark.HashInvert.{
  main, chosen, code, begin, reset, ceil_div, Words, check_location, set_location, reset_location,
  set_m, reset_m,
}
use pthread_benchmark.HashInvert.Total.{all_counted}
use pthread_benchmark.HashInvert.Locations.{check-writes}

-- Three words, for a vector of 20 bits in words of 8; word `n` has `n` ones.
abbrev shared_out : List Event
shared_out = turns 3 0 0 ++ (rounds 40 (turn 1 0 ∷ turn 2 0 ∷ []) ++ turns 4 0 0)

abbrev small : ℕ → ℕ
small n = n

main_decides :
    (run (code 2 20 8 small) shared_out (boot reset (λ _. 0) begin)).thread 0
    ≡ running (main (chosen 3))
unfolding run code ceil_div
main_decides = refl

all_counted_example :
    (3 ≡ sum_below small (ceil_div 20 8)) × NeverRaces (code 2 20 8 small) begin reset (λ _. 0)
all_counted_example = all_counted 2 20 8 small shared_out (omega arith) 3 main_decides

abbrev table : Words
table i = 5

check-writes_example :
    (check_location 8 10 (set_location 8 10 table) ≡ true)
    × (check_location 8 10 (reset_location 8 10 table) ≡ false)
    × (check_location 8 10 (set_m 8 2 table) ≡ true)
    × (check_location 8 10 (reset_m 8 2 table) ≡ false)
check-writes_example = check-writes 8 (omega arith) 10 10 2 table
