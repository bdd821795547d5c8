-- ===== src/ArraySum.antt =====
-- Fixed/NoBug2/010_mutex_array_sum.c: five threads that add up an array and find its greatest and its
-- lowest number, each over its own part, with a mutex for each of the three results.
mod Parts
mod Discipline
mod Assertions
mod Frames
mod Writes
mod Results
mod Tests
use pthread_benchmark.Prelude.{
  ℕ, suc, ◌+◌, ◌*◌, Bool, true, false, List, [], ◌∷◌, ◌++◌, ◌==◌, ltb, leb, if◌then◌else◌, update,
}
use pthread_benchmark.Prelude.Int.{ℤ, pos, negsuc, ◌+ℤ◌, ltb_ℤ}
use pthread_benchmark.Pthread.Model.{Act, exit, tau, lock, unlock, read, write, create, join}

-- The globals, and the numbers that `main` prints. `merged` marks the threads whose part is in
-- `sum`; it is there for the proofs, and no thread reads it.
pub record Shared : Type 0 where
  pub sum : ℤ
  pub min : ℤ
  pub max : ℤ
  pub arr : ℕ → ℤ
  pub merged : ℕ → Bool
  pub out : List ℤ

-- localSum, localMin and localMax.
pub record Partial : Type 0 where
  pub local_sum : ℤ
  pub local_min : ℤ
  pub local_max : ℤ

abbrev pub sum_var : ℕ
sum_var = 0

abbrev pub min_var : ℕ
min_var = 1

abbrev pub max_var : ℕ
max_var = 2

abbrev pub arr_var : ℕ
arr_var = 3

abbrev pub out_var : ℕ
out_var = 4

abbrev pub mut1 : ℕ
mut1 = 0

abbrev pub mut2 : ℕ
mut2 = 1

abbrev pub mut3 : ℕ
mut3 = 2

-- Where `func` stands: at element `i`, or at one of the three results.
pub data Worker : Type 0 where
  scan : ℕ → Worker
  sum_enter sum_load : Worker
  sum_store : ℤ → Worker
  sum_leave min_enter min_test min_store min_leave max_enter max_test max_store max_leave over :
      Worker

-- The second number of `spawn` is t1.
pub data Main : Type 0 where
  fill : ℕ → Main
  spawn : ℕ → ℕ → Main
  await : ℕ → Main
  sum_look : Main
  sum_print : ℤ → Main
  max_look : Main
  max_print : ℤ → Main
  min_look : Main
  min_print : ℤ → Main
  finish : Main

-- A worker has its sindex and its partial results.
pub data Local : Type 0 where
  main : Main → Local
  worker : ℕ → Partial → Worker → Local

abbrev pub nothing : Partial
nothing = record { local_sum = pos 0; local_min = pos 0; local_max = pos 0 }

-- The body of the loop of `func`.
pub take : Partial → ℤ → Partial
take p x = record {
  local_sum = p.local_sum +ℤ x;
  local_min = if ltb_ℤ x p.local_min then x else p.local_min;
  local_max = if ltb_ℤ p.local_max x then x else p.local_max;
}

-- What `main` writes to arr.
abbrev pub filling : ℕ → ℤ
filling i = if i == 203 then pos 1000 else if i == 440 then negsuc 0 else pos i

-- `n` threads, and parts of `m + 1` elements of the array `g`; 5, 99 and `filling` in the program.
module _ (n m : ℕ) (g : ℕ → ℤ) where
  pub main_code : Main → Act Shared Local
  main_code (fill i) =
      if ltb i (n * suc m)
      then write arr_var (λ d. record d { arr = update d.arr i (g i) }) (main (fill (suc i)))
      else tau (main (spawn 0 0))
  main_code (spawn i t1) =
      if ltb i n
      then create (suc i) (worker t1 nothing (scan t1)) (main (spawn (suc i) (t1 + 1 + m)))
      else tau (main (await 0))
  main_code (await i) = if ltb i n then join (suc i) (main (await (suc i))) else tau (main sum_look)
  main_code sum_look = read sum_var (λ d. main (sum_print d.sum))
  main_code (sum_print x) =
      write out_var (λ d. record d { out = d.out ++ (x ∷ []) }) (main max_look)
  main_code max_look = read max_var (λ d. main (max_print d.max))
  main_code (max_print x) =
      write out_var (λ d. record d { out = d.out ++ (x ∷ []) }) (main min_look)
  main_code min_look = read min_var (λ d. main (min_print d.min))
  main_code (min_print x) = write out_var (λ d. record d { out = d.out ++ (x ∷ []) }) (main finish)
  main_code finish = exit

  -- Thread `t` with sindex `lo`; eindex is `lo + m`.
  pub func_code : ℕ → ℕ → Partial → Worker → Act Shared Local
  func_code t lo p (scan i) =
      if leb i (lo + m)
      then read arr_var (λ d. worker lo (take p (d.arr i)) (scan (suc i)))
      else tau (worker lo p sum_enter)
  func_code t lo p sum_enter = lock mut1 (worker lo p sum_load)
  func_code t lo p sum_load = read sum_var (λ d. worker lo p (sum_store d.sum))
  func_code t lo p (sum_store s) =
      write sum_var (λ d. record d { sum = s +ℤ p.local_sum; merged = update d.merged t true })
        (worker lo p sum_leave)
  func_code t lo p sum_leave = unlock mut1 (worker lo p min_enter)
  func_code t lo p min_enter = lock mut2 (worker lo p min_test)
  func_code t lo p min_test =
      read min_var
        (λ d. if ltb_ℤ p.local_min d.min then worker lo p min_store else worker lo p min_leave)
  func_code t lo p min_store =
      write min_var (λ d. record d { min = p.local_min }) (worker lo p min_leave)
  func_code t lo p min_leave = unlock mut2 (worker lo p max_enter)
  func_code t lo p max_enter = lock mut3 (worker lo p max_test)
  func_code t lo p max_test =
      read max_var
        (λ d. if ltb_ℤ d.max p.local_max then worker lo p max_store else worker lo p max_leave)
  func_code t lo p max_store =
      write max_var (λ d. record d { max = p.local_max }) (worker lo p max_leave)
  func_code t lo p max_leave = unlock mut3 (worker lo p over)
  func_code t lo p over = exit

  pub code : ℕ → Local → Act Shared Local
  unfolding main_code func_code
  code t (main p) = main_code p
  code t (worker lo p q) = func_code t lo p q

abbrev pub begin : Local
begin = main (fill 0)

abbrev pub zeroed : Shared
zeroed = record {
  sum = pos 0;
  min = pos 0;
  max = pos 0;
  arr = λ i. pos 0;
  merged = λ t. false;
  out = [];
}
