-- ===== src/Counters/Lost.antt =====
-- Lost updates without the mutex.
use pthread_benchmark.Prelude.{
  ℕ, zero, suc, ◌+◌, ◌<◌, ◌≤◌, ◌≡◌, ◌≢◌, refl, sym, ap, ◌∙◌, Bool, true, List, ◌++◌, ltb, arith,
}
use pthread_benchmark.Pthread.Model.{
  Act, tau, read, write, running, World, Event, turn, run, step, resume, act, run-append, boot,
  turns, rounds,
}
use pthread_benchmark.Counters.{
  Tally, head, load, store, leave, Local, count, code, begin, untouched, open_setting,
}

two≢one : ◌≢◌ {A = ℕ} 2 1
two≢one q = omega (arith, q)

module _ (k r : ℕ) (a b : Bool) where
  abbrev open_code : ℕ → Local → Act Tally Local
  open_code = code (open_setting k r a b)

  -- A step of thread t leaves it at `l` and the memory at `d`, and touches no other thread.
  record Moved (t : ℕ) (d : Tally) (l : Local) (w w' : World Tally Local) : Type 0 where
    here : w'.thread t ≡ running l
    memory : w'.mem ≡ d
    others : (j : ℕ) → j ≢ t → w'.thread j ≡ w.thread j

  abbrev Moves : ℕ → World Tally Local → Act Tally Local → Type 0
  Moves t w (tau l) = Moved t w.mem l w (step open_code (turn t 0) w)
  Moves t w (read x f) = Moved t w.mem (f w.mem) w (step open_code (turn t 0) w)
  Moves t w (write x f l) = Moved t (f w.mem) l w (step open_code (turn t 0) w)
  Moves t w _ = Unit

  step-Moves :
      (t : ℕ) (l : Local) (w : World Tally Local) (c : Act Tally Local)
      → w.thread t ≡ running l
      → open_code t l ≡ c
      → Moves t w c
  unfolding step resume act
  step-Moves t l w (tau l') e f =
      rw (e, f) (record { here = ground arith; memory = refl; others = λ j ne. ground arith })
  step-Moves t l w (read x k) e f =
      rw (e, f) (record { here = ground arith; memory = refl; others = λ j ne. ground arith })
  step-Moves t l w (write x g l') e f =
      rw (e, f) (record { here = ground arith; memory = refl; others = λ j ne. ground arith })
  step-Moves t l w _ e f = tt

  -- `n` rounds of thread t while nobody else moves.
  record Counted (t i n : ℕ) (w w' : World Tally Local) : Type 0 where
    at_head : w'.thread t ≡ running (count (i + n) head)
    gained : w'.mem.counter ≡ w.mem.counter + n
    unmoved : (j : ℕ) → j ≢ t → w'.thread j ≡ w.thread j

  one_round :
      (t i : ℕ) (w : World Tally Local)
      → i < r
      → w.thread t ≡ running (count i head)
      → Counted t i 1 w (run open_code (turns 4 t 0) w)
  unfolding run code
  one_round t i w lt e =
      let w1 = step open_code (turn t 0) w in
      let w2 = step open_code (turn t 0) w1 in
      let w3 = step open_code (turn t 0) w2 in
      let more : ltb i r ≡ true = ground arith in
      let m1 : Moved t w.mem (count i load) w w1 =
        step-Moves t (count i head) w (tau (count i load)) e (rw more refl) in
      let m2 : Moved t w1.mem (count i (store w1.mem.counter)) w1 w2 =
        step-Moves t (count i load) w1 (code (open_setting k r a b) t (count i load)) m1.here
          refl in
      let m3 =
        step-Moves t (count i (store w1.mem.counter)) w2
          (code (open_setting k r a b) t (count i (store w1.mem.counter))) m2.here refl in
      let m4 = step-Moves t (count i leave) w3 (tau (count (suc i) head)) m3.here refl in
      record {
        at_head = m4.here ∙ ap (λ x. running (count x head)) (omega arith);
        gained =
            ap Tally.counter m4.memory
            ∙ ap Tally.counter m3.memory
            ∙ ap (λ d. d.counter + 1) m1.memory;
        unmoved = λ j ne. m4.others j ne ∙ m3.others j ne ∙ m2.others j ne ∙ m1.others j ne;
      }

  many_rounds :
      (t i n : ℕ) (w : World Tally Local)
      → i + n ≤ r
      → w.thread t ≡ running (count i head)
      → Counted t i n w (run open_code (rounds n (turns 4 t 0)) w)
  unfolding run
  many_rounds t i zero w le e = record {
    at_head = e ∙ ap (λ x. running (count x head)) (omega arith);
    gained = omega arith;
    unmoved = λ j ne. refl;
  }
  many_rounds t i (suc n) w le e =
      let c = one_round t i w (omega arith) e in
      let rest = many_rounds t (i + 1) n (run open_code (turns 4 t 0) w) (omega arith) c.at_head in
      record {
        at_head = rest.at_head ∙ ap (λ x. running (count x head)) (omega arith);
        gained = omega (arith, rest.gained, c.gained);
        unmoved = λ j ne. rest.unmoved j ne ∙ c.unmoved j ne;
      }

  -- Thread 1 stores what it read before, and goes on to its next round.
  store_late :
      (w : World Tally Local)
      → w.thread 1 ≡ running (count 0 (store 0))
      → ((run open_code (turns 2 1 0) w).thread 1 ≡ running (count 1 head))
        × ((run open_code (turns 2 1 0) w).mem.counter ≡ 1)
        × ((run open_code (turns 2 1 0) w).thread 2 ≡ w.thread 2)
  unfolding run code
  store_late w e =
      let w1 = step open_code (turn 1 0) w in
      let m1 =
        step-Moves 1 (count 0 (store 0)) w (code (open_setting k r a b) 1 (count 0 (store 0))) e
          refl in
      let m2 = step-Moves 1 (count 0 leave) w1 (tau (count 1 head)) m1.here refl in
      (
        m2.here,
        ap Tally.counter m2.memory ∙ ap Tally.counter m1.memory,
        m2.others 2 two≢one ∙ m1.others 2 two≢one,
      )

  both_started :
      1 < k
      → 0 < r
      → let w = run open_code (turns 2 0 0 ++ turns 2 1 0) (boot untouched (λ _. 0) begin) in
        (w.thread 1 ≡ running (count 0 (store 0)))
        × (w.thread 2 ≡ running (count 0 head))
        × (w.mem.counter ≡ 0)
  unfolding run code
  both_started lt pos_ = (ground arith, ground arith, ground arith)

  -- From there on.
  stored_over :
      (m : ℕ) (w : World Tally Local)
      → r ≡ suc m
      → w.thread 1 ≡ running (count 0 (store 0))
      → w.thread 2 ≡ running (count 0 head)
      → let w' =
          run open_code
            (rounds m (turns 4 1 0))
            (run open_code (turns 2 1 0) (run open_code (rounds (suc m) (turns 4 2 0)) w)) in
        (w'.thread 1 ≡ running (count (suc m) head))
        × (w'.thread 2 ≡ running (count (suc m) head))
        × (w'.mem.counter ≡ suc m)
  stored_over m w e one two =
      let solo = many_rounds 2 0 (suc m) w (omega (arith, e)) two in
      let w1 = run open_code (rounds (suc m) (turns 4 2 0)) w in
      let (head_, counter, other) = store_late w1 (solo.unmoved 1 (λ q. two≢one (sym q)) ∙ one) in
      let last = many_rounds 1 1 m (run open_code (turns 2 1 0) w1) (omega (arith, e)) head_ in
      (
        last.at_head ∙ ap (λ x. running (count x head)) (omega arith),
        last.unmoved 2 two≢one
            ∙ other
            ∙ solo.at_head
            ∙ ap (λ x. running (count x head)) (omega arith),
        omega (arith, last.gained, counter),
      )

-- Thread 1 reads the counter, thread 2 makes all its rounds, and then thread 1 goes on.
abbrev pub late_store : ℕ → List Event
late_store m =
    (turns 2 0 0 ++ turns 2 1 0)
    ++ (rounds (suc m) (turns 4 2 0) ++ (turns 2 1 0 ++ rounds m (turns 4 1 0)))

-- Without the mutex, for at least two threads and any positive number of rounds: under one schedule
-- two threads have made all their rounds, and the counter shows the rounds of only one.
pub half_lost :
    (k m : ℕ) (a b : Bool)
    → 1 < k
    → let w = run (open_code k (suc m) a b) (late_store m) (boot untouched (λ _. 0) begin) in
      (w.thread 1 ≡ running (count (suc m) head))
      × (w.thread 2 ≡ running (count (suc m) head))
      × (w.mem.counter ≡ suc m)
half_lost k m a b lt =
    let (one, two, zero_) = both_started k (suc m) a b lt (omega arith) in
    rw
      (
        run-append (open_code k (suc m) a b) (turns 2 0 0 ++ turns 2 1 0)
            (rounds (suc m) (turns 4 2 0) ++ (turns 2 1 0 ++ rounds m (turns 4 1 0)))
            (boot untouched (λ _. 0) begin),
        run-append (open_code k (suc m) a b) (rounds (suc m) (turns 4 2 0))
            (turns 2 1 0 ++ rounds m (turns 4 1 0))
            (run (open_code k (suc m) a b) (turns 2 0 0 ++ turns 2 1 0)
              (boot untouched (λ _. 0) begin)),
        run-append (open_code k (suc m) a b) (turns 2 1 0) (rounds m (turns 4 1 0)) (
            run (open_code k (suc m) a b) (rounds (suc m) (turns 4 2 0)) (
              run (open_code k (suc m) a b) (turns 2 0 0 ++ turns 2 1 0)
                (boot untouched (λ _. 0) begin))),
      )
      (stored_over k (suc m) a b m
        (run (open_code k (suc m) a b) (turns 2 0 0 ++ turns 2 1 0) (boot untouched (λ _. 0) begin))
        refl one two)
