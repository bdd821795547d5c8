-- ===== src/Zad/Tests.antt =====
-- A run of the three threads.
use pthread_benchmark.Prelude.{ℕ, ◌≢◌, ◌≤◌, ◌≡◌, refl, List, [], ◌∷◌, ◌++◌, length}
use pthread_benchmark.Prelude.Int.{negsuc, pos}
use pthread_benchmark.Pthread.Model.{Event, World, run, boot, running, turns}
use pthread_benchmark.Pthread.Races.{DataRace}
use pthread_benchmark.Zad.{
  Shared, tell, Local, pop, push_f, pop_from, pop_f, sem, code, begin, opened, removed, inserted,
  shown,
}
use pthread_benchmark.Zad.Ends.{pop_f-push_f}
use pthread_benchmark.Zad.Permits.{never_short}

-- Thread 1 pushes 42 and then 7, thread 3 pops one, and thread 2 waits in turn.
abbrev two_pushes : List Event
two_pushes =
    turns 3 0 0 ++ turns 9 1 142 ++ turns 9 1 7 ++ turns 4 3 0 ++ turns 2 2 0 ++ turns 4 3 0

abbrev after : World Shared Local
after = run code two_pushes (boot opened (λ _. 0) begin)

-- The last entry goes first.
popped :
    after.mem.out
    ≡ inserted (pos 42)
      ∷ shown (pos 42 ∷ [])
      ∷ inserted (pos 7)
      ∷ shown (pos 42 ∷ pos 7 ∷ [])
      ∷ removed (pos 7)
      ∷ shown (pos 42 ∷ [])
      ∷ []
unfolding run code pop_f push_f pop_from
popped = refl

pop_f-push_f_example : pop_f (push_f (pos 3) (pos 1 ∷ [])) ≡ (pos 3, pos 1 ∷ [])
pop_f-push_f_example = pop_f-push_f (pos 3) (pos 1 ∷ [])

never_short_example :
    (after.sem sem ≤ length after.mem.lista)
    × ((t : ℕ) → after.thread t ≢ running (pop (tell (negsuc 0))))
    × (¬ DataRace code after)
never_short_example = never_short two_pushes
