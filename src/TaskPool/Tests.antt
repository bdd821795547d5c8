-- ===== src/TaskPool/Tests.antt =====
-- A run of the pool.
use pthread_benchmark.Prelude.{ℕ, ◌≡◌, ◌≢◌, ◌⊎◌, refl, none, List, [], ◌∷◌, ◌++◌}
use pthread_benchmark.Prelude.Int.{pos}
use pthread_benchmark.Pthread.Model.{Event, World, run, boot, turns, turn, done}
use pthread_benchmark.Pthread.Races.{DataRace}
use pthread_benchmark.TaskPool.{Pool, Local, code, begin, opened}
use pthread_benchmark.TaskPool.Assertions.{Full}
use pthread_benchmark.TaskPool.Order.{tasks_in_order}

-- main submits the task 3 + 4, and thread 2 takes it.
abbrev one_task : List Event
one_task = turns 5 0 0 ++ (turn 0 3 ∷ turn 0 104 ∷ []) ++ turns 8 0 1 ++ turns 8 2 0

abbrev after : World Pool Local
after = run code one_task (boot opened (λ _. 0) (begin 1))

task_taken : after.mem.taken ≡ record { a = pos 3; b = pos 4 } ∷ []
unfolding run code
task_taken = refl

tasks_in_order_example :
    ((after.owner 0 ≢ none) ⊎ Full after.mem)
    × ((t : ℕ) → after.thread t ≢ done)
    × (¬ DataRace code after)
tasks_in_order_example = tasks_in_order 1 one_task
