-- ===== src/Tickets/Oversold.antt =====
-- The version without the mutex sells a ticket twice.
use pthread_benchmark.Prelude.{ℕ, ◌<◌, ◌≡◌, List, [], ◌∷◌, ◌++◌, arith}
use pthread_benchmark.Prelude.Int.{pos}
use pthread_benchmark.Pthread.Model.{Event, run, boot, turns}
use pthread_benchmark.Tickets.{faulty_code, begin, stocked, code}

-- Both sellers read the number of tickets before either writes it.
abbrev collision : List Event
collision = turns 2 0 0 ++ (turns 3 1 0 ++ (turns 3 2 0 ++ (turns 2 1 0 ++ turns 2 2 0)))

-- Without the mutex, for any stock of at least one ticket: under one schedule both sellers sell the
-- last-numbered ticket.
sold_twice :
    (stock : ℕ)
    → 0 < stock
    → (run faulty_code collision (boot (stocked stock) (λ _. 0) begin)).mem.sold
      ≡ pos stock ∷ pos stock ∷ []
unfolding run code
sold_twice stock h = ground arith
