-- ===== src/FindMin/Tests.antt =====
-- Two threads that look through six numbers.
use pthread_benchmark.Prelude.{
  ℕ, ◌*◌, ◌<◌, ◌≡◌, refl, List, [], ◌∷◌, ◌++◌, ◌==◌, if◌then◌else◌, arith,
}
use pthread_benchmark.Prelude.Int.{ℤ, pos}
use pthread_benchmark.Pthread.Model.{Event, World, run, boot, turns, rounds, turn, running}
use pthread_benchmark.Pthread.Races.{NeverRaces}
use pthread_benchmark.FindMin.{Local, main, print, code, begin, first_guess, to_int}
use pthread_benchmark.FindMin.Assertions.{Low, Real}
use pthread_benchmark.FindMin.Lowest.{IsInt, prints_lowest}

abbrev six_numbers : ℕ → ℤ
six_numbers k = if k == 4 then pos 2 else if k == 1 then pos 5 else pos 8

abbrev schedule : List Event
schedule = turns 4 0 0 ++ (rounds 20 (turn 1 0 ∷ turn 2 0 ∷ []) ++ turns 4 0 0)

abbrev after : World ℤ Local
after = run (code 2 3 six_numbers) schedule (boot (first_guess 2 3 six_numbers) (λ _. 0) begin)

two_printed : after.thread 0 ≡ running (main (print (pos 2)))
unfolding run code to_int
two_printed = refl

small_numbers : (k : ℕ) → k < 2 * 3 → IsInt (six_numbers k)
small_numbers k lt = ground arith

prints_lowest_example :
    Low 2 3 six_numbers 0 (2 * 3) (pos 2)
    × Real 2 3 six_numbers (pos 2)
    × NeverRaces (code 2 3 six_numbers) begin (first_guess 2 3 six_numbers) (λ _. 0)
prints_lowest_example =
    prints_lowest 2 3 six_numbers (omega arith) (omega arith) small_numbers schedule (pos 2)
      two_printed
