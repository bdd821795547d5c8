-- ===== src/NodeStack/Tests.antt =====
-- A run of two producers and a consumer.
use pthread_benchmark.Prelude.{ℕ, ◌≡◌, ◌≢◌, ◌⊎◌, refl, none, List, [], ◌∷◌, ◌++◌}
use pthread_benchmark.Pthread.Model.{Event, World, run, boot, turns, running}
use pthread_benchmark.Pthread.Races.{DataRace}
use pthread_benchmark.NodeStack.{
  consumed, produced, Shared, null, Local, consumer, code, begin, opened,
}
use pthread_benchmark.NodeStack.Assertions.{Stacked}
use pthread_benchmark.NodeStack.Story.{newest_first}

-- Producer 0 makes two nodes, and consumer 1, who has waited, takes the second.
abbrev three_turns : List Event
three_turns = turns 5 0 0 ++ turns 3 2 0 ++ turns 12 3 2 ++ turns 7 2 0

abbrev after : World Shared Local
after = run code three_turns (boot opened (λ _. 0) begin)

second_first : after.mem.out ≡ produced 0 0 ∷ produced 0 1 ∷ consumed 1 1 ∷ []
unfolding run code
second_first = refl

newest_first_example :
    ((after.owner 0 ≢ none) ⊎ Stacked after.mem.out after.mem.head)
    × ((t : ℕ) → after.thread t ≢ running (consumer null))
    × (¬ DataRace code after)
newest_first_example = newest_first three_turns
