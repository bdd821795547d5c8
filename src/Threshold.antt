-- ===== src/Threshold.antt =====
-- Three programs of one shape: threads that count up a shared counter, and a watcher that sleeps
-- until the count reaches a limit and may then add a bonus to it. A `Setting` holds what differs.
--   Fixed/NoBug1/6.c, Fixed/NoBug1/thread_with_conditions.c, Fixed/NoBug1/11-14UseConditionVariable.c
pub mod Discipline
mod Assertions
mod Tests
pub mod Total
use pthread_benchmark.Prelude.{
  ℕ, ◌+◌, Bool, true, false, Option, none, some, ◌==◌, leb, ltb, if◌then◌else◌,
}
use pthread_benchmark.Pthread.Model.{
  Act, exit, tau, lock, unlock, read, write, cond_wait, signal, broadcast, create, join,
}

pub record Setting : Type 0 where
  pub counters : ℕ  -- how many threads run `inc_count`
  pub rounds : ℕ  -- how often each counts
  pub limit : ℕ
  pub rings : ℕ → Bool  -- at which counts `inc_count` signals
  pub everyone : Bool  -- whether it broadcasts
  pub sighs : Bool  -- whether `watch_count` prints the count before it waits
  pub bonus : Option ℕ  -- what `watch_count` adds

-- NUM_THREADS, TCOUNT, COUNT_LIMIT and the tests of 6.c
abbrev pub six : Setting
six = record {
  counters = 2;
  rounds = 10;
  limit = 12;
  rings = λ c. leb 12 c;
  everyone = true;
  sighs = true;
  bonus = some 125;
}

-- thread_with_conditions.c
abbrev pub with_conditions : Setting
with_conditions = record {
  counters = 3;
  rounds = 10;
  limit = 12;
  rings = λ c. c == 12;
  everyone = false;
  sighs = true;
  bonus = some 125;
}

-- 11-14UseConditionVariable.c
abbrev pub use_condition : Setting
use_condition = record {
  counters = 2;
  rounds = 5;
  limit = 7;
  rings = λ c. leb 7 c;
  everyone = false;
  sighs = false;
  bonus = none;
}

abbrev pub count_var : ℕ
count_var = 0

abbrev pub count_mutex : ℕ
count_mutex = 0

abbrev pub count_threshold_cv : ℕ
count_threshold_cv = 0

-- Where `inc_count` stands in its round `i`; a number is the count that it has read.
pub data Inc : Type 0 where
  head load : Inc
  store : ℕ → Inc
  test announce ring say leave : Inc

pub data Watch : Type 0 where
  enter test sigh doze woken add : Watch
  put : ℕ → Watch
  tell leave over : Watch

-- `main` creates thread 1 for `watch_count` and the later ones for `inc_count`, joins them in order
-- and prints the count.
pub data Main : Type 0 where
  spawn await report : ℕ → Main

pub data Local : Type 0 where
  main : Main → Local
  inc : ℕ → Inc → Local
  watch : Watch → Local

-- What follows the loop of `watch_count`.
abbrev pub beyond : Option ℕ → Watch
beyond none = Watch.leave
beyond (some b) = add

abbrev pub amount_of : Option ℕ → ℕ
amount_of none = 0
amount_of (some b) = b

module _ (s : Setting) where
  pub main_code : Main → Act ℕ Local
  main_code (spawn k) =
      if k == 0
      then create 1 (watch Watch.enter) (main (spawn 1))
      else if leb k s.counters
      then create (k + 1) (inc 0 Inc.head) (main (spawn (k + 1)))
      else tau (main (await 1))
  main_code (await j) =
      if leb j (s.counters + 1)
      then join j (main (await (j + 1)))
      else read count_var (λ c. main (report c))
  main_code (report c) = exit

  pub inc_code : ℕ → Inc → Act ℕ Local
  inc_code i head = if ltb i s.rounds then lock count_mutex (inc i load) else exit
  inc_code i load = read count_var (λ c. inc i (store c))
  inc_code i (store c) = write count_var (λ _. c + 1) (inc i test)
  inc_code i test = read count_var (λ c. if s.rings c then inc i announce else inc i say)
  inc_code i announce = read count_var (λ c. inc i ring)
  inc_code i ring =
      if s.everyone
      then broadcast count_threshold_cv (inc i say)
      else signal count_threshold_cv (inc i say)
  inc_code i say = read count_var (λ c. inc i leave)
  inc_code i leave = unlock count_mutex (inc (i + 1) head)

  pub watch_code : Watch → Act ℕ Local
  watch_code enter = lock count_mutex (watch Watch.test)
  watch_code test =
      read count_var (λ c. if ltb c s.limit then watch sigh else watch (beyond s.bonus))
  watch_code sigh = if s.sighs then read count_var (λ c. watch doze) else tau (watch doze)
  watch_code doze = cond_wait count_threshold_cv count_mutex (watch woken)
  watch_code woken = read count_var (λ c. watch Watch.test)
  watch_code add = read count_var (λ c. watch (put c))
  watch_code (put c) = write count_var (λ _. c + amount_of s.bonus) (watch tell)
  watch_code tell = read count_var (λ c. watch Watch.leave)
  watch_code leave = unlock count_mutex (watch over)
  watch_code over = exit

  pub code : ℕ → Local → Act ℕ Local
  unfolding main_code inc_code watch_code
  code t (main p) = main_code p
  code t (inc i p) = inc_code i p
  code t (watch p) = watch_code p

abbrev pub begin : Local
begin = main (spawn 0)

abbrev pub six_code : ℕ → Local → Act ℕ Local
six_code = code six

abbrev pub with_conditions_code : ℕ → Local → Act ℕ Local
with_conditions_code = code with_conditions

abbrev pub use_condition_code : ℕ → Local → Act ℕ Local
use_condition_code = code use_condition
