-- ===== src/Turns/Tests.antt =====
-- A run of 10practice.c.
use pthread_benchmark.Prelude.{ℕ, zero, suc, ◌<◌, ◌≤◌, ◌≡◌, refl, List, ◌++◌, arith}
use pthread_benchmark.Pthread.Model.{turns, rounds, Event, run, boot, done}
use pthread_benchmark.Pthread.Races.{NeverRaces}
use pthread_benchmark.Turns.{code, begin, initial}
use pthread_benchmark.Turns.Assertions.{word}
use pthread_benchmark.Turns.Word.{done-word}

-- `main` creates the threads, and each has six turns at a time.
abbrev in_turn : List Event
in_turn = turns 3 0 0 ++ rounds 10 (turns 6 1 0 ++ (turns 6 2 0 ++ turns 6 3 0))

all_done :
    (t : ℕ) → 0 < t → t ≤ 3 → (run code in_turn (boot initial (λ _. 0) begin)).thread t ≡ done
unfolding run code
all_done zero pos le = absurd (omega arith)
all_done (suc zero) pos le = refl
all_done (suc (suc zero)) pos le = refl
all_done (suc (suc (suc zero))) pos le = refl
all_done (suc (suc (suc (suc t)))) pos le = absurd (omega arith)

done-word_example :
    ((run code in_turn (boot initial (λ _. 0) begin)).mem.printed ≡ word 30)
    × NeverRaces code begin initial (λ _. 0)
done-word_example = done-word in_turn all_done
