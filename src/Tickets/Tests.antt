-- ===== src/Tickets/Tests.antt =====
-- Runs of the ticket sellers.
use pthread_benchmark.Prelude.{ℕ, zero, suc, ◌<◌, ◌≤◌, ◌≡◌, refl, List, [], ◌∷◌, ◌++◌, arith}
use pthread_benchmark.Prelude.Int.{pos}
use pthread_benchmark.Pthread.Model.{Event, run, boot, turns, rounds, turn, done}
use pthread_benchmark.Tickets.{fixed_code, begin, stocked, code}
use pthread_benchmark.Tickets.Assertions.{countdown}
use pthread_benchmark.Tickets.Sales.{all_sold}

abbrev whole_run : List Event
whole_run = turns 2 0 0 ++ rounds 170 (turn 1 0 ∷ turn 2 0 ∷ [])

both_done :
    (t : ℕ)
    → 0 < t
    → t ≤ 2
    → (run fixed_code whole_run (boot (stocked 20) (λ _. 0) begin)).thread t ≡ done
unfolding run code
both_done zero gt le = absurd (omega arith)
both_done (suc zero) gt le = refl
both_done (suc (suc zero)) gt le = refl
both_done (suc (suc (suc t))) gt le = absurd (omega arith)

all_sold_example :
    ((run fixed_code whole_run (boot (stocked 20) (λ _. 0) begin)).mem.tickets ≡ pos 0)
    × ((run fixed_code whole_run (boot (stocked 20) (λ _. 0) begin)).mem.sold ≡ countdown 20 20)
all_sold_example = all_sold 20 whole_run both_done
