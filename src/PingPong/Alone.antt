-- ===== src/PingPong/Alone.antt =====
-- What spurious wake-ups do to ping_pong.c.
use pthread_benchmark.Prelude.{
  ℕ, zero, suc, ◌+◌, ◌<◌, ◌≡◌, refl, ap, subst, false, none, List, [], ◌∷◌, ◌++◌, ◌==◌, arith,
}
use pthread_benchmark.Pthread.Model.{
  World, Event, wake, running, sleeping, run, run-append, boot, turns, rounds,
}
use pthread_benchmark.PingPong.{
  Shared, Line, ping_line, Ping, Pong, Local, ping, pong, code, begin, silent,
}

-- The first `n` lines of ping.
pub pings : ℕ → List Line
pings zero = []
pings (suc n) = pings n ++ (ping_line (suc n) ∷ [])

-- Both threads are created, and ping goes to sleep.
abbrev pub lull : List Event
lull = turns 2 0 0 ++ turns 3 1 0

-- A spurious wake-up of ping, which prints, signals and waits again.
abbrev pub burst : List Event
burst = wake 1 ∷ turns 4 1 0

module _ (max_count : ℕ) where
  record Waiting (i : ℕ) (w : World Shared Local) : Type 0 where
    asleep : w.thread 1 ≡ sleeping 0 0 (ping (Ping.say i))
    free : w.owner 0 ≡ none
    other : w.thread 2 ≡ running (pong Pong.enter)
    lines : w.mem.out ≡ pings i

  run-burst :
      (i : ℕ) (w : World Shared Local)
      → suc i < max_count
      → Waiting i w
      → Waiting (suc i) (run (code max_count) burst w)
  unfolding run code pings
  run-burst i w lt h =
      let more : (suc i == max_count) ≡ false = ground arith in
      rw (h.asleep, h.free, more)
        (record {
          asleep = refl;
          free = refl;
          other = h.other;
          lines = ap (λ xs. xs ++ (ping_line (suc i) ∷ [])) h.lines;
        })

  run-lull : Waiting 0 (run (code max_count) lull (boot silent (λ _. 0) begin))
  unfolding run code pings
  run-lull = record { asleep = refl; free = refl; other = refl; lines = refl }

  run-bursts :
      (n i : ℕ) (w : World Shared Local)
      → i + n < max_count
      → Waiting i w
      → Waiting (i + n) (run (code max_count) (rounds n burst) w)
  unfolding run
  run-bursts zero i w lt h = let same : i + 0 ≡ i = omega arith in rw same h
  run-bursts (suc n) i w lt h =
      let next : i + suc n ≡ suc i + n = omega arith in
      rw (next, run-append (code max_count) burst (rounds n burst) w)
        (run-bursts n (suc i) (run (code max_count) burst w) (omega arith)
          (run-burst i w (omega arith) h))

  last_line :
      (i : ℕ) (w : World Shared Local)
      → Waiting i w
      → ((run (code max_count) (wake 1 ∷ turns 2 1 0) w).mem.out ≡ pings (suc i))
        × ((run (code max_count) (wake 1 ∷ turns 2 1 0) w).thread 2 ≡ running (pong Pong.enter))
  unfolding run code pings
  last_line i w h =
      rw (h.asleep, h.free) (ap (λ xs. xs ++ (ping_line (suc i) ∷ [])) h.lines, h.other)

-- Ping is woken again and again.
abbrev pub sleepless : ℕ → List Event
sleepless m = lull ++ (rounds m burst ++ (wake 1 ∷ turns 2 1 0))

-- For every positive number of lines: under one schedule with spurious wake-ups ping prints all its
-- lines before pong has printed any.
pub pings_alone :
    (m : ℕ)
    → let w = run (code (suc m)) (sleepless m) (boot silent (λ _. 0) begin) in
      (w.mem.out ≡ pings (suc m)) × (w.thread 2 ≡ running (pong Pong.enter))
pings_alone m =
    rw
      (
        run-append (code (suc m)) lull (rounds m burst ++ (wake 1 ∷ turns 2 1 0))
            (boot silent (λ _. 0) begin),
        run-append (code (suc m)) (rounds m burst) (wake 1 ∷ turns 2 1 0)
            (run (code (suc m)) lull (boot silent (λ _. 0) begin)),
      )
      (last_line (suc m) m
        (run (code (suc m)) (rounds m burst) (run (code (suc m)) lull (boot silent (λ _. 0) begin)))
        (subst
          (λ i. Waiting (suc m) i (
            run (code (suc m)) (rounds m burst)
              (run (code (suc m)) lull (boot silent (λ _. 0) begin))))
          (let same : 0 + m ≡ m = omega arith in same)
          (run-bursts (suc m) m 0 (run (code (suc m)) lull (boot silent (λ _. 0) begin))
            (omega arith) (run-lull (suc m)))))
