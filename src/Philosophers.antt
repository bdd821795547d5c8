-- ===== src/Philosophers.antt =====
-- Fixed/NoBug2/philosophers.c: `n` philosophers, each with a fork on either side. One pass of main's
-- loop, for the two numbers that it has read. Thread `name + 1` is philosopher `name`.
mod Discipline
mod Meals
mod Progress
mod Tests
use pthread_benchmark.Prelude.{ℕ, ◌+◌, ◌-◌, Bool, ◌==◌, leb, ltb, if◌then◌else◌, update}
use pthread_benchmark.Pthread.Model.{Act, exit, tau, lock, unlock, read, write, create, join}

-- Where `meal` stands; a number is the hunger that it has read.
pub data Meal : Type 0 where
  hungry first second eat : Meal
  store : ℕ → Meal
  tell put_left put_right finish : Meal

-- `main` creates the threads and joins them, each in a loop.
pub data Main : Type 0 where
  spawn await : ℕ → Main
  over : Main

pub data Local : Type 0 where
  main : Main → Local
  meal : ℕ → Meal → Local

-- `hungerOfPhylosophs` when the loop that fills it has ended.
abbrev pub filled : ℕ → ℕ → ℕ → ℕ
filled n hunger name = if ltb name n then hunger else 0

module _ (n : ℕ) where
  -- The forks are the mutexes.
  abbrev pub left_fork : ℕ → ℕ
  left_fork name = if name == 0 then n - 1 else name - 1

  abbrev pub right_fork : ℕ → ℕ
  right_fork name = name

  pub main_code : Main → Act (ℕ → ℕ) Local
  main_code (spawn k) =
      if ltb k n
      then create (k + 1) (meal k hungry) (main (spawn (k + 1)))
      else tau (main (await 0))
  main_code (await k) = if ltb k n then join (k + 1) (main (await (k + 1))) else tau (main over)
  main_code over = exit

  pub meal_code : ℕ → Meal → Act (ℕ → ℕ) Local
  meal_code name hungry =
      read name (λ d. if ltb 0 (d name) then meal name first else meal name finish)
  meal_code name first =
      if name == 0
      then lock (right_fork name) (meal name second)
      else lock (left_fork name) (meal name second)
  meal_code name second =
      if name == 0
      then lock (left_fork name) (meal name eat)
      else lock (right_fork name) (meal name eat)
  meal_code name eat = read name (λ d. meal name (store (d name)))
  meal_code name (store h) = write name (λ d. update d name (h - 1)) (meal name tell)
  meal_code name tell = read name (λ d. meal name put_left)
  meal_code name put_left = unlock (left_fork name) (meal name put_right)
  meal_code name put_right = unlock (right_fork name) (meal name hungry)
  meal_code name finish = exit

  pub code : ℕ → Local → Act (ℕ → ℕ) Local
  unfolding main_code meal_code
  code t (main p) = main_code p
  code t (meal name p) = meal_code name p

abbrev pub begin : Local
begin = main (spawn 0)
