-- ===== src/Counters.antt =====
-- Programs whose threads count up one counter, some with a mutex and some without. A `Setting` holds
-- what differs.
--   Faulty/OneBug/withmutex.c, Faulty/OneBug/W9mutex1.c, Faulty/OneBug/pth_mutex2.c,
--   Faulty/OneBug/shared_data_mutex.c
mod Discipline
mod Total
mod Lost
mod Tests
use pthread_benchmark.Prelude.{
  ℕ, zero, suc, ◌+◌, Bool, true, false, List, [], ◌∷◌, ◌++◌, ltb, if◌then◌else◌,
}
use pthread_benchmark.Pthread.Model.{Act, exit, tau, read, write, create, join, lock_if, unlock_if}

pub record Setting : Type 0 where
  pub threads : ℕ
  pub amount : ℕ  -- how often each counts
  pub locked : Bool
  pub tells : Bool  -- whether a thread prints the counter when it has counted
  pub tests : Bool  -- whether main compares the counter at the end, to no effect
  pub reports : Bool  -- whether main prints the counter at the end

-- One pass of main's loop.
abbrev pub withmutex : Setting
withmutex = record {
  threads = 4;
  amount = 100;
  locked = true;
  tells = false;
  tests = true;
  reports = false;
}

abbrev pub w9mutex1 : Setting
w9mutex1 = record {
  threads = 2;
  amount = 1;
  locked = false;
  tells = true;
  tests = false;
  reports = false;
}

abbrev pub pth_mutex2 : Setting
pth_mutex2 = record {
  threads = 4;
  amount = 100000;
  locked = false;
  tells = false;
  tests = false;
  reports = true;
}

-- Its main prints the counter at the beginning too, before there are threads.
abbrev pub shared_data_mutex : Setting
shared_data_mutex = record {
  threads = 2;
  amount = 10000000;
  locked = false;
  tells = false;
  tests = false;
  reports = true;
}

pub record Tally : Type 0 where
  pub counter : ℕ
  pub out : List ℕ

abbrev pub counter_var : ℕ
counter_var = 0

abbrev pub out_var : ℕ
out_var = 1

abbrev pub mutex : ℕ
mutex = 0

-- Where a thread stands in its round; a number is the counter that it has read.
pub data Round : Type 0 where
  head load : Round
  store : ℕ → Round
  leave look : Round
  print : ℕ → Round
  over : Round

pub data Main : Type 0 where
  spawn await : ℕ → Main
  report : Main
  say : ℕ → Main
  finish : Main

-- The number of `count` says how many rounds the thread has made.
pub data Local : Type 0 where
  main : Main → Local
  count : ℕ → Round → Local

module _ (s : Setting) where
  pub main_code : Main → Act Tally Local
  main_code (spawn i) =
      if ltb i s.threads
      then create (suc i) (count 0 head) (main (spawn (suc i)))
      else tau (main (await 0))
  main_code (await i) =
      if ltb i s.threads then join (suc i) (main (await (suc i))) else tau (main report)
  main_code report =
      if s.reports
      then read counter_var (λ m. main (say m.counter))
      else if s.tests
      then read counter_var (λ m. main finish)
      else tau (main finish)
  main_code (say n) = write out_var (λ m. record m { out = m.out ++ (n ∷ []) }) (main finish)
  main_code finish = exit

  pub count_code : ℕ → Round → Act Tally Local
  count_code i head =
      if ltb i s.amount
      then lock_if s.locked mutex (count i load)
      else if s.tells
      then tau (count i look)
      else tau (count i over)
  count_code i load = read counter_var (λ m. count i (store m.counter))
  count_code i (store n) = write counter_var (λ m. record m { counter = n + 1 }) (count i leave)
  count_code i leave = unlock_if s.locked mutex (count (suc i) head)
  count_code i look = read counter_var (λ m. count i (print m.counter))
  count_code i (print n) = write out_var (λ m. record m { out = m.out ++ (n ∷ []) }) (count i over)
  count_code i over = exit

  pub code : ℕ → Local → Act Tally Local
  unfolding main_code count_code
  code t (main p) = main_code p
  code t (count i p) = count_code i p

abbrev pub begin : Local
begin = main (spawn 0)

abbrev pub untouched : Tally
untouched = record { counter = 0; out = [] }

abbrev pub withmutex_code : ℕ → Local → Act Tally Local
withmutex_code = code withmutex

abbrev pub w9mutex1_code : ℕ → Local → Act Tally Local
w9mutex1_code = code w9mutex1

abbrev pub pth_mutex2_code : ℕ → Local → Act Tally Local
pth_mutex2_code = code pth_mutex2

abbrev pub shared_data_mutex_code : ℕ → Local → Act Tally Local
shared_data_mutex_code = code shared_data_mutex

-- Any number of threads and rounds.
abbrev pub guarded_setting : ℕ → ℕ → Setting
guarded_setting k r = record {
  threads = k;
  amount = r;
  locked = true;
  tells = false;
  tests = true;
  reports = false;
}

abbrev pub open_setting : ℕ → ℕ → Bool → Bool → Setting
open_setting k r a b = record {
  threads = k;
  amount = r;
  locked = false;
  tells = a;
  tests = false;
  reports = b;
}
