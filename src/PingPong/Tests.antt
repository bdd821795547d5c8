-- ===== src/PingPong/Tests.antt =====
-- Runs of ping_pong.c.
use pthread_benchmark.Prelude.{◌≡◌, refl, List, [], ◌∷◌, ◌++◌}
use pthread_benchmark.Pthread.Model.{Event, World, run, boot, turns, rounds, turn, running, done}
use pthread_benchmark.Pthread.Races.{NeverRaces}
use pthread_benchmark.PingPong.{
  Shared, Local, ping_line, pong_line, Pong, pong, code, begin, silent,
}
use pthread_benchmark.PingPong.Lines.{ping_numbers, pong_numbers, count_up, own_lines}
use pthread_benchmark.PingPong.Alone.{pings, sleepless, pings_alone}

-- Without spurious wake-ups, and each signal given to the other thread.
abbrev orderly : List Event
orderly = turns 2 0 0 ++ (turns 3 1 0 ++ rounds 40 (turn 2 1 ∷ turn 1 2 ∷ []))

abbrev after : World Shared Local
after = run (code 2) orderly (boot silent (λ _. 0) begin)

in_turn : after.mem.out ≡ ping_line 1 ∷ pong_line 1 ∷ ping_line 2 ∷ pong_line 2 ∷ []
unfolding run code
in_turn = refl

ping_done : after.thread 1 ≡ done
unfolding run code
ping_done = refl

pong_done : after.thread 2 ≡ done
unfolding run code
pong_done = refl

own_lines_example :
    (ping_numbers after.mem.out ≡ count_up 2)
    × (pong_numbers after.mem.out ≡ count_up 2)
    × NeverRaces (code 2) begin silent (λ _. 0)
own_lines_example = own_lines 2 orderly ping_done pong_done

pings_alone_example :
    ((run (code 5) (sleepless 4) (boot silent (λ _. 0) begin)).mem.out ≡ pings 5)
    × ((run (code 5) (sleepless 4) (boot silent (λ _. 0) begin)).thread 2
        ≡ running (pong Pong.enter))
pings_alone_example = pings_alone 4
