-- ===== src/TaskPool/Order.antt =====
-- Runs of the pool.
use pthread_benchmark.Prelude.{
  ℕ, zero, suc, ◌-◌, ◌≡◌, ◌≢◌, ◌⊎◌, inl, inr, refl, true, false, none, List, [], ◌∷◌, ◌++◌, length,
  arith, ◌==◌, ltb, Bool-cases,
}
use pthread_benchmark.Pthread.Model.{Act, running, relocking, done, World, Event, run, boot}
use pthread_benchmark.Pthread.Races.{DataRace, race_free}
use pthread_benchmark.Pthread.OneLock.{held, absent, entrusted, unless_owned}
use pthread_benchmark.Pthread.Outline.{Checks, Outline, Holds}
use pthread_benchmark.Pthread.Outline.Runs.{Starts, run-Holds}
use pthread_benchmark.TaskPool.{
  buffer_size, Pool, Worker, enter, first, shift, load, store, drop, lower, execute, over, Main,
  spawn, draw, draw_b, submit, put, place, count, raise, await, finish, Local, main, worker, code,
  begin, opened,
}
use pthread_benchmark.TaskPool.Discipline.{inside, fits, discipline}
use pthread_benchmark.TaskPool.Assertions.{Full, Inv, AtWorker, AtMain, At, frame}
use pthread_benchmark.TaskPool.Steps.{taken_first, shifted, lowered, put_behind, raised}

unfoldable Checked : ℕ → Local → Pool → Act Pool Local → Type 0
Checked t l p = Checks fits (held inside) absent Inv At t l p

checks_worker :
    (t : ℕ) (w : Worker) (p : Pool) → AtWorker w p → Checked t (worker w) p (code t (worker w))
unfolding code Checked
checks_worker t enter p h = λ v. v refl
checks_worker t Worker.test p ([], s) =
    let none_left : (p.task_count == 0) ≡ true = ground (arith, s.size) in rw none_left ([], s)
checks_worker t Worker.test p (x ∷ xs, s) =
    let some_left : (p.task_count == 0) ≡ false = ground (arith, s.size) in rw some_left (x, xs, s)
checks_worker t Worker.wait p h = (λ z. h, refl)
checks_worker t first p (x, xs, s) = (xs, taken_first x xs p s, omega arith)
checks_worker t (shift a i) p (xs, k, le) = elim (Bool-cases (ltb i (p.task_count - 1))) [
  | inl more ↦ rw more (xs, k, ground (arith, k.size))
  | inr last ↦ rw last (let all : i ≡ length xs = ground (arith, k.size) in (xs, rw all at k))
]
checks_worker t (load a i) p (xs, k, lt) = (xs, k, lt, k.back i (omega arith) lt)
checks_worker t (store a i x) p (xs, k, lt, e) = (
  (xs, shifted a i xs x p k lt e, omega (arith, lt)),
  frame t (worker (store a i x)) p _ refl,
  entrusted inside t (worker (store a i x)) refl,
)
checks_worker t (drop a) p (xs, k) = (xs, k, refl)
checks_worker t (lower a n) p (xs, k, e) = (
  ((xs, lowered a n xs p k e), k.final),
  frame t (worker (lower a n)) p _ refl,
  entrusted inside t (worker (lower a n)) refl,
)
checks_worker t (Worker.leave a) p (s, f) = (λ z. s, f)
checks_worker t (Worker.tell a) p f = rw f tt
checks_worker t (execute a) p h = tt
checks_worker t over p h = h

checks_main : (t : ℕ) (m : Main) (p : Pool) → AtMain m p → Checked t (main m) p (code t (main m))
unfolding code Checked
checks_main t (spawn n i) p h = ground arith
checks_main t (draw zero) p h = refl
checks_main t (draw (suc n)) p h = λ v. refl
checks_main t (draw_b n a) p h = λ v. ground arith
checks_main t (submit n a) p f = λ v. (v refl, f)
checks_main t (Main.test n a) p ((xs, s), f) = elim (Bool-cases (p.task_count == buffer_size)) [
  | inl full ↦ rw full ((xs, s), f)
  | inr free ↦ rw free ((xs, s, ground (arith, s.size, s.room)), f)
]
checks_main t (Main.wait n a) p (s, f) = (λ z. s, (refl, f))
checks_main t (put n a) p ((xs, s, lt), f) = ((xs, s, lt, refl), f)
checks_main t (place n a c) p ((xs, s, lt, e), f) = (
  ((xs, put_behind a c xs p s lt e), f),
  frame t (main (place n a c)) p _ refl,
  entrusted inside t (main (place n a c)) refl,
)
checks_main t (count n a) p ((xs, k), f) = ((xs, k, refl), f)
checks_main t (raise n a c) p ((xs, k, e), f) = (
  (xs ++ (a ∷ []), raised a c xs p k e f),
  frame t (main (raise n a c)) p _ refl,
  entrusted inside t (main (raise n a c)) refl,
)
checks_main t (Main.leave n a) p s = (λ z. s, tt)
checks_main t (Main.tell n a) p h = tt
checks_main t (await i) p h = rw h (λ d. absurd d)
checks_main t finish p h = h

checks :
    (t : ℕ) (l : Local) (p : Pool) → fits t l ≡ true → At t (running l) p → Checked t l p (code t l)
checks t (main m) p f h = checks_main t m p h
checks t (worker w) p f h = checks_worker t w p h

returns : (t m : ℕ) (l : Local) (p : Pool) → At t (relocking m l) p → Inv m p → At t (running l) p
returns t m (worker Worker.test) p z v = v z
returns t m (main (Main.test n a)) p (z, f) v = (v z, f)
returns t m _ p h v = absurd h

module _ (n : ℕ) where
  outline : Outline code (begin n) (discipline n)
  unfolding Checked discipline
  outline = record {
    inv = Inv;
    at = At;
    checks = checks;
    wakes = λ t c m l p h. h;
    returns = returns;
  }

  starts : Starts code (begin n) (discipline n) outline opened
  unfolding outline
  starts = record {
    unowned = λ m z. (
      [],
      record {
        size = refl;
        room = omega arith;
        entries = λ j lt. absurd (omega (arith, lt));
        log = refl;
        ordinary = tt;
      },
    );
    main = tt;
    others = λ t ne. tt;
  }

  module _ (es : List Event) where
    abbrev after : World Pool Local
    after = run code es (boot opened (λ _. 0) (begin n))

    hold : Holds code (begin n) (discipline n) outline after
    hold = run-Holds code (begin n) (discipline n) outline opened (λ _. 0) es starts

    -- For any number of tasks, whatever rand gives, and every schedule: while the mutex is free,
    -- the array holds in order exactly the tasks that were submitted and not taken, and at most
    -- 256; no thread ever finishes, neither a worker nor main; and no run has a data race.
    pub tasks_in_order :
        ((after.owner 0 ≢ none) ⊎ Full after.mem)
        × ((t : ℕ) → after.thread t ≢ done)
        × (¬ DataRace code after)
    unfolding outline
    tasks_in_order = (
      unless_owned after 0 (λ free. hold.unowned 0 free refl),
      λ t e. rw e at (hold.each t),
      race_free code (begin n) (discipline n) opened (λ _. 0) es,
    )
