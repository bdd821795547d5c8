-- ===== src/TaskPool/Assertions.antt =====
-- The queue that the array holds, and what the threads know.
use pthread_benchmark.Prelude.{
  ℕ, suc, ◌+◌, ◌<◌, ◌≤◌, ◌≡◌, ◌≢◌, true, false, List, [], ◌∷◌, ◌++◌, length, get_or, arith,
}
use pthread_benchmark.Prelude.Int.{is_negative_one}
use pthread_benchmark.Pthread.Model.{Status, unborn, running, sleeping, relocking, done}
use pthread_benchmark.Pthread.Outline.{Apart}
use pthread_benchmark.Pthread.OneLock.{held, absent}
use pthread_benchmark.TaskPool.{
  buffer_size, Task, Pool, Worker, enter, first, shift, load, store, drop, lower, execute, over,
  Main, spawn, draw, draw_b, submit, put, place, count, raise, await, finish, Local, main, worker,
  is_final, no_task,
}
use pthread_benchmark.TaskPool.Discipline.{inside, fits}

abbrev pub nth : List Task → ℕ → Task
nth xs j = get_or xs j no_task

-- No task makes a worker end.
abbrev pub Ordinary : List Task → Type 0
Ordinary [] = Unit
Ordinary (x ∷ xs) = (is_final x ≡ false) × Ordinary xs

-- The array holds `xs`, and they are what was submitted and not taken.
pub record Stored (xs : List Task) (p : Pool) : Type 0 where
  pub size : p.task_count ≡ length xs
  pub room : length xs ≤ buffer_size
  pub entries : (j : ℕ) → j < length xs → p.task_queue j ≡ nth xs j
  pub log : p.taken ++ xs ≡ p.submitted
  pub ordinary : Ordinary xs

-- `t` is taken and `xs` stay; the entries before `i` have moved.
pub record Taking (t : Task) (i : ℕ) (xs : List Task) (p : Pool) : Type 0 where
  pub size : p.task_count ≡ suc (length xs)
  pub room : suc (length xs) ≤ buffer_size
  pub front : (j : ℕ) → j < i → j < length xs → p.task_queue j ≡ nth xs j
  pub back : (j : ℕ) → i ≤ j → j < length xs → p.task_queue (j + 1) ≡ nth xs j
  pub log : p.taken ++ (t ∷ xs) ≡ p.submitted
  pub final : is_final t ≡ false
  pub ordinary : Ordinary xs

-- `t` stands behind `xs`, and is not counted.
pub record Placed (t : Task) (xs : List Task) (p : Pool) : Type 0 where
  pub size : p.task_count ≡ length xs
  pub room : length xs < buffer_size
  pub entries : (j : ℕ) → j < length xs → p.task_queue j ≡ nth xs j
  pub entry : p.task_queue (length xs) ≡ t
  pub log : p.taken ++ xs ≡ p.submitted
  pub ordinary : Ordinary xs

abbrev pub Full : Pool → Type 0
Full p = (xs : List Task) × Stored xs p

abbrev pub Inv : ℕ → Pool → Type 0
Inv m p = m ≡ 0 → Full p

abbrev pub AtWorker : Worker → Pool → Type 0
AtWorker enter p = Unit
AtWorker Worker.test p = Full p
AtWorker Worker.wait p = Full p
AtWorker first p = (x : Task) × (xs : List Task) × Stored (x ∷ xs) p
AtWorker (shift t i) p = (xs : List Task) × Taking t i xs p × (i ≤ length xs)
AtWorker (load t i) p = (xs : List Task) × Taking t i xs p × (i < length xs)
AtWorker (store t i x) p = (xs : List Task) × Taking t i xs p × (i < length xs) × (x ≡ nth xs i)
AtWorker (drop t) p = (xs : List Task) × Taking t (length xs) xs p
AtWorker (lower t n) p = (xs : List Task) × Taking t (length xs) xs p × (n ≡ p.task_count)
AtWorker (Worker.leave t) p = Full p × (is_final t ≡ false)
AtWorker (Worker.tell t) p = is_final t ≡ false
AtWorker (execute t) p = Unit
AtWorker over p = ⊥

abbrev pub AtMain : Main → Pool → Type 0
AtMain (spawn n i) p = Unit
AtMain (draw n) p = Unit
AtMain (draw_b n a) p = is_negative_one a ≡ false
AtMain (submit n t) p = is_final t ≡ false
AtMain (Main.test n t) p = Full p × (is_final t ≡ false)
AtMain (Main.wait n t) p = Full p × (is_final t ≡ false)
AtMain (put n t) p =
    ((xs : List Task) × Stored xs p × (length xs < buffer_size)) × (is_final t ≡ false)
AtMain (place n t c) p =
    ((xs : List Task) × Stored xs p × (length xs < buffer_size) × (c ≡ p.task_count))
    × (is_final t ≡ false)
AtMain (count n t) p = ((xs : List Task) × Placed t xs p) × (is_final t ≡ false)
AtMain (raise n t c) p =
    ((xs : List Task) × Placed t xs p × (c ≡ p.task_count)) × (is_final t ≡ false)
AtMain (Main.leave n t) p = Full p
AtMain (Main.tell n t) p = Unit
AtMain (await i) p = i ≡ 0
AtMain finish p = ⊥

abbrev pub Resting : ℕ → Local → Type 0
Resting m (worker Worker.test) = m ≡ 0
Resting m (main (Main.test n t)) = (m ≡ 0) × (is_final t ≡ false)
Resting m _ = ⊥

-- No thread finishes.
abbrev pub At : ℕ → Status Local → Pool → Type 0
At t (running (main p)) d = AtMain p d
At t (running (worker p)) d = AtWorker p d
At t (sleeping q m l) d = Resting m l
At t (relocking m l) d = Resting m l
At t unborn d = Unit
At t done d = ⊥

-- A thread that holds the mutex disturbs nobody.
pub frame :
    (t : ℕ) (l : Local) (d d' : Pool)
    → inside l ≡ true
    → (j : ℕ) (s : Status Local) → j ≢ t
    → Apart fits (held inside) absent t l j s
    → At j s d
    → At j s d'
frame t l d d' own j unborn ne a h = tt
frame t l d d' own j done ne a h = h
frame t l d d' own j (sleeping q m k) ne a h = h
frame t l d d' own j (relocking m k) ne a h = h
frame t l d d' own j (running (main (spawn n i))) ne a h = tt
frame t l d d' own j (running (main (draw n))) ne a h = tt
frame t l d d' own j (running (main (draw_b n x))) ne a h = h
frame t l d d' own j (running (main (submit n x))) ne a h = h
frame t l d d' own j (running (main (Main.tell n x))) ne a h = tt
frame t l d d' own j (running (main (await i))) ne a h = h
frame t l d d' own j (running (main finish)) ne a h = h
frame t l d d' own j (running (main _)) ne a h = ground (arith, a.disjoint 0)
frame t l d d' own j (running (worker enter)) ne a h = tt
frame t l d d' own j (running (worker (Worker.tell x))) ne a h = h
frame t l d d' own j (running (worker (execute x))) ne a h = tt
frame t l d d' own j (running (worker over)) ne a h = h
frame t l d d' own j (running (worker _)) ne a h = ground (arith, a.disjoint 0)
