-- ===== src/BoundedBuffer/Tests.antt =====
-- Runs of 05bounded.c.
use pthread_benchmark.Prelude.{◌≡◌, refl, List, ◌∷◌, [], ◌++◌}
use pthread_benchmark.Pthread.Model.{turns, rounds, turn, Event, run, boot}
use pthread_benchmark.Pthread.Races.{DataRace}
use pthread_benchmark.BoundedBuffer.{item, code, begin, zeroed}
use pthread_benchmark.BoundedBuffer.Ring.{Whole}
use pthread_benchmark.BoundedBuffer.Fifo.{buffer_is_queue, consumer_gets_text}

-- `main` creates the threads, which then take turns; each signal goes to the other thread.
abbrev whole_run : List Event
whole_run = turns 5 0 0 ++ rounds 760 (turn 1 2 ∷ turn 2 1 ∷ [])

-- The producer puts in two items.
abbrev two_items : List Event
two_items = turns 5 0 0 ++ turns 24 1 2

buffer_is_queue_example :
    Whole (run code two_items (boot zeroed (λ _. 0) begin)).mem
    × (¬ DataRace code (run code two_items (boot zeroed (λ _. 0) begin)))
unfolding run code item
buffer_is_queue_example = buffer_is_queue two_items refl

consumer_gets_text_example : (run code whole_run (boot zeroed (λ _. 0) begin)).mem.consumed ≡ item
unfolding run code item
consumer_gets_text_example = consumer_gets_text whole_run refl
