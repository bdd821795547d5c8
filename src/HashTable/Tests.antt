-- ===== src/HashTable/Tests.antt =====
-- Keys of one bucket, and a run of two threads that insert three keys.
use pthread_benchmark.Prelude.{ℕ, ◌*◌, ◌+◌, ◌≡◌, refl, some, List, [], ◌∷◌, ◌++◌, arith}
use pthread_benchmark.Pthread.Model.{Event, World, run, boot, turns, rounds, turn, running}
use pthread_benchmark.Pthread.Races.{NeverRaces}
use pthread_benchmark.HashTable.{
  Table, Local, empty_table, retrieve, main, inserted, code, begin, get_phase,
}
use pthread_benchmark.HashTable.Log.{Log, built, last_of, retrieve-last}
use pthread_benchmark.HashTable.Filling.{none_lost}

abbrev three : Log
three = record { key = 7; val = 3 } ∷ record { key = 2; val = 1 } ∷ record { key = 7; val = 0 } ∷ []

retrieve-last_example : retrieve 7 (built three) ≡ last_of 7 three
retrieve-last_example = retrieve-last three 7

abbrev some_keys : ℕ → ℕ
some_keys i = 3 * i + 1

abbrev schedule : List Event
schedule = turns 3 0 0 ++ (rounds 30 (turn 1 0 ∷ turn 2 0 ∷ []) ++ turns 3 0 0)

abbrev after : World Table Local
after = run (code 2 3 some_keys) schedule (boot empty_table (λ _. 0) begin)

all_joined : after.thread 0 ≡ running (main inserted)
unfolding run code
all_joined = refl

none_lost_example :
    (get_phase 2 3 some_keys 4 1 0 after.mem ≡ some 0)
    × NeverRaces (code 2 3 some_keys) begin empty_table (λ _. 0)
none_lost_example = none_lost 2 3 some_keys schedule (omega arith) all_joined 1 (omega arith)
