-- ===== src/ProCon/Tests.antt =====
-- Runs of the producer and the consumer.
use pthread_benchmark.Prelude.{ℕ, ◌≡◌, refl, none, List, ◌++◌}
use pthread_benchmark.Prelude.Int.{pos}
use pthread_benchmark.Pthread.Model.{Event, run, boot, turns, done, World}
use pthread_benchmark.ProCon.{Store, Local, opened, begin, code}
use pthread_benchmark.ProCon.Assertions.{Story}
use pthread_benchmark.ProCon.History.{data_Story}

-- Two rounds: the producer's first, the consumer, and the producer's second.
abbrev both : List Event
both = turns 3 0 0 ++ turns 9 1 2 ++ turns 40 2 1 ++ turns 10 1 2

abbrev after : World Store Local
after = run code both (boot opened (λ _. 0) (begin 2))

free : after.owner 0 ≡ none
unfolding run code
free = refl

finished : after.thread 1 ≡ done
unfolding run code
finished = refl

data_Story_example : (k : ℕ) × (after.mem.data_ ≡ pos k) × Story after.mem.out k
data_Story_example = data_Story 2 both free
