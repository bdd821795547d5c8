-- ===== src/Philosophers/Progress.antt =====
-- The philosophers of philosophers.c never wait for each other in a circle: each takes the fork with
-- the smaller number first.
use pthread_benchmark.Prelude.{
  ℕ, zero, suc, ◌+◌, ◌<◌, ◌≤◌, ◌≡◌, ◌≢◌, ◌⊎◌, inl, inr, refl, ap, true, none, List, ◌==◌, arith,
  Bool-cases, Option-cases, false≢true, eq_of_==,
}
use pthread_benchmark.Pthread.Model.{
  lock, Status, unborn, running, sleeping, relocking, done, World, Event, run, boot,
}
use pthread_benchmark.Pthread.Roles.{fitting}
use pthread_benchmark.Pthread.Ownership.{holds}
use pthread_benchmark.Pthread.Outline.{Holds}
use pthread_benchmark.Pthread.Outline.Runs.{run-Holds}
use pthread_benchmark.Pthread.Stuck.{Waits, Halts, Stuck}
use pthread_benchmark.Philosophers.{
  Meal, hungry, first, second, eat, Local, main, meal, code, begin, filled,
}
use pthread_benchmark.Philosophers.Discipline.{
  held, held_meal, first_fork, second_fork, fits, discipline,
}
use pthread_benchmark.Philosophers.Meals.{At, outline, starts}

module _ (n : ℕ) (two : 1 < n) where
  code-first :
      (t name : ℕ) → code n t (meal name first) ≡ lock (first_fork n name) (meal name second)
  unfolding code
  code-first t name = elim (Bool-cases (name == 0)) [
    | inl zeroth ↦ rw zeroth (ap (λ k. lock k (meal name second)) (eq_of_== name 0 zeroth))
    | inr later ↦ rw later refl
  ]

  code-second :
      (t name : ℕ) → code n t (meal name second) ≡ lock (second_fork n name) (meal name eat)
  unfolding code
  code-second t name = elim (Bool-cases (name == 0)) [
    | inl zeroth ↦ rw zeroth refl
    | inr later ↦ rw later refl
  ]

  -- One who holds a fork and cannot go on waits for a larger one.
  meal-Waits :
      (w : World (ℕ → ℕ) Local) (t name m : ℕ) (p : Meal)
      → name < n
      → held_meal n name p m ≡ true
      → Waits w (code n t (meal name p))
      → (m' : ℕ) × (m < m') × (w.owner m' ≢ none)
  unfolding code
  meal-Waits w t name m second lt h s =
      (second_fork n name, ground arith, rw (code-second t name) at s)
  meal-Waits w t name m hungry lt h s = absurd s
  meal-Waits w t name m first lt h s = absurd (false≢true h)
  meal-Waits w t name m _ lt h s = absurd s

  held_meal-bounded : (name m : ℕ) (p : Meal) → name < n → held_meal n name p m ≡ true → m < n
  held_meal-bounded name m hungry lt h = absurd (false≢true h)
  held_meal-bounded name m _ lt h = ground arith

  holder-bounded :
      (t m : ℕ) (s : Status Local) (d : ℕ → ℕ)
      → At t s d
      → fitting (fits n) t s ≡ true
      → holds (held n) t s m ≡ true
      → m < n
  holder-bounded t m (running (meal name p)) d a f h = held_meal-bounded name m p (ground arith) h
  holder-bounded t m (running (main p)) d a f h = absurd (false≢true h)
  holder-bounded t m (sleeping q k l) d a f h = absurd a
  holder-bounded t m (relocking k l) d a f h = absurd a
  holder-bounded t m unborn d a f h = absurd (false≢true h)
  holder-bounded t m done d a f h = absurd (false≢true h)

  holder-waits :
      (w : World (ℕ → ℕ) Local) (t m : ℕ) (s : Status Local)
      → At t s w.mem
      → fitting (fits n) t s ≡ true
      → holds (held n) t s m ≡ true
      → Halts (code n) w t s
      → (m' : ℕ) × (m < m') × (w.owner m' ≢ none)
  holder-waits w t m (running (meal name p)) a f h s = meal-Waits w t name m p (ground arith) h s
  holder-waits w t m (running (main p)) a f h s = absurd (false≢true h)
  holder-waits w t m (sleeping q k l) a f h s = absurd a
  holder-waits w t m (relocking k l) a f h s = absurd a
  holder-waits w t m unborn a f h s = absurd (false≢true h)
  holder-waits w t m done a f h s = absurd (false≢true h)

  module _ (w : World (ℕ → ℕ) Local)
      (hold : Holds (code n) begin (discipline n two) (outline n two) w)
      (stuck : Stuck (code n) w) where
    -- From the largest fork down: none is taken.
    fork_free : (k m : ℕ) → n ≤ m + k → w.owner m ≡ none
    unfolding discipline outline
    fork_free zero m le = elim (Option-cases (w.owner m)) [
      | inl free ↦ free
      | inr (t, e) ↦ absurd (
          omega (
            arith,
            holder-bounded t m (w.thread t) w.mem (hold.each t) (hold.sound.placed t)
                (hold.sound.own.owned t m e),
          ))
    ]
    fork_free (suc k) m le = elim (Option-cases (w.owner m)) [
      | inl free ↦ free
      | inr (t, e) ↦
          let (m', lt, taken) =
            holder-waits w t m (w.thread t) (hold.each t) (hold.sound.placed t)
              (hold.sound.own.owned t m e) (stuck t) in
          absurd (taken (fork_free k m' (omega arith)))
    ]

    meal-goes : (t name : ℕ) (p : Meal) → ¬ Waits w (code n t (meal name p))
    unfolding code
    meal-goes t name first s =
        (rw (code-first t name) at s) (fork_free n (first_fork n name) (omega arith))
    meal-goes t name second s =
        (rw (code-second t name) at s) (fork_free n (second_fork n name) (omega arith))
    meal-goes t name hungry s = s
    meal-goes t name _ s = s

    halted :
        (t : ℕ) (s : Status Local)
        → 0 < t
        → At t s w.mem
        → Halts (code n) w t s
        → (s ≡ done) ⊎ (s ≡ unborn)
    halted t (running (meal name p)) pos a h = absurd (meal-goes t name p h)
    halted t (running (main p)) pos a h = absurd (omega arith)
    halted t (sleeping q k l) pos a h = absurd a
    halted t (relocking k l) pos a h = absurd a
    halted t unborn pos a h = inr refl
    halted t done pos a h = inl refl

  -- For at least two philosophers: when no thread can take a step, every philosopher has finished,
  -- or has not been created.
  pub Stuck-done :
      (hunger : ℕ) (es : List Event)
      → Stuck (code n) (run (code n) es (boot (filled n hunger) (λ _. 0) begin))
      → (t : ℕ) → 0 < t
      → ((run (code n) es (boot (filled n hunger) (λ _. 0) begin)).thread t ≡ done)
        ⊎ ((run (code n) es (boot (filled n hunger) (λ _. 0) begin)).thread t ≡ unborn)
  unfolding outline
  Stuck-done hunger es stuck t pos =
      let hold =
        run-Holds (code n) begin (discipline n two) (outline n two) (filled n hunger) (λ _. 0) es
          (starts n two hunger) in
      halted (run (code n) es (boot (filled n hunger) (λ _. 0) begin)) hold stuck t _ pos
        (hold.each t) (stuck t)

  status-outside :
      (w : World (ℕ → ℕ) Local) (t : ℕ) (s : Status Local)
      → n < t
      → At t s w.mem
      → fitting (fits n) t s ≡ true
      → Halts (code n) w t s
  status-outside w t (running (meal name p)) lt a f = absurd (ground arith)
  status-outside w t (running (main p)) lt a f = absurd (omega arith)
  status-outside w t (sleeping q k l) lt a f = tt
  status-outside w t (relocking k l) lt a f = absurd a
  status-outside w t unborn lt a f = tt
  status-outside w t done lt a f = tt

  -- There are no threads beyond the philosophers.
  pub outside-Halts :
      (hunger : ℕ) (es : List Event) (t : ℕ)
      → n < t
      → Halts
          (code n)
          (run (code n) es (boot (filled n hunger) (λ _. 0) begin))
          t
          ((run (code n) es (boot (filled n hunger) (λ _. 0) begin)).thread t)
  unfolding outline discipline
  outside-Halts hunger es t lt =
      let hold =
        run-Holds (code n) begin (discipline n two) (outline n two) (filled n hunger) (λ _. 0) es
          (starts n two hunger) in
      status-outside (run (code n) es (boot (filled n hunger) (λ _. 0) begin)) t _ lt (hold.each t)
        (hold.sound.placed t)
