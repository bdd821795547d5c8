-- ===== src/FindMin.antt =====
-- Faulty/OneBug/pthread-findminimumvalue.c: threads that look for the lowest number of a list, each in
-- its own part. The list is filled before the threads are created, and does not change then.
mod Discipline
mod Assertions
mod Lowest
mod Tests
use pthread_benchmark.Prelude.{ℕ, suc, ◌+◌, ◌-◌, ◌*◌, ◌%◌, ◌^◌, ltb, if◌then◌else◌}
use pthread_benchmark.Prelude.Int.{ℤ, pos, negsuc, ltb_ℤ}
use pthread_benchmark.Pthread.Model.{Act, exit, tau, lock, unlock, read, write, create, join}

-- Where `find_min` stands; the last argument is `my_min`.
pub data Search : Type 0 where
  start : Search
  scan : ℕ → ℤ → Search
  enter test store : ℤ → Search
  leave over : Search

-- `main` from the creation of the threads on; `print` has the number that it prints.
pub data Main : Type 0 where
  spawn await : ℕ → Main
  look : Main
  print : ℤ → Main

-- A search has its myId.
pub data Local : Type 0 where
  main : Main → Local
  search : ℕ → Search → Local

abbrev pub begin : Local
begin = main (spawn 0)

-- The value of an `int` of 32 bits, from its bits.
abbrev pub from_bits : ℕ → ℤ
from_bits r = if ltb r (2 ^ 31) then pos r else negsuc (2 ^ 32 - 1 - r)

-- A `long int` that is assigned to an `int` keeps its last 32 bits.
unfoldable pub to_int : ℤ → ℤ
to_int (pos x) = from_bits (x % 2 ^ 32)
to_int (negsuc x) = from_bits (2 ^ 32 - 1 - x % 2 ^ 32)

-- The one variable that changes is minimum_value.
module _ (num_threads partial_list_size : ℕ) (list : ℕ → ℤ) where
  pub main_code : Main → Act ℤ Local
  main_code (spawn counter) =
      if ltb counter num_threads
      then create (suc counter) (search (suc counter) start) (main (spawn (suc counter)))
      else tau (main (await 0))
  main_code (await counter) =
      if ltb counter num_threads
      then join (suc counter) (main (await (suc counter)))
      else tau (main look)
  main_code look = read 0 (λ minimum_value. main (print minimum_value))
  main_code (print v) = exit

  pub find_min : ℕ → Search → Act ℤ Local
  find_min my_id start = tau (
      search my_id
        (scan ((my_id - 1) * partial_list_size) (to_int (list ((my_id - 1) * partial_list_size)))))
  find_min my_id (scan counter my_min) =
      if ltb counter (my_id * partial_list_size)
      then tau (
          search my_id (
            scan (counter + 1)
              (if ltb_ℤ (list counter) my_min then to_int (list counter) else my_min)))
      else tau (search my_id (enter my_min))
  find_min my_id (enter my_min) = lock 0 (search my_id (test my_min))
  find_min my_id (test my_min) = read 0 (λ minimum_value.
      if ltb_ℤ my_min minimum_value then search my_id (store my_min) else search my_id leave)
  find_min my_id (store my_min) = write 0 (λ minimum_value. my_min) (search my_id leave)
  find_min my_id leave = unlock 0 (search my_id over)
  find_min my_id over = exit

  pub code : ℕ → Local → Act ℤ Local
  unfolding main_code find_min
  code t (main p) = main_code p
  code t (search my_id p) = find_min my_id p

  -- main sets minimum_value before it creates the threads.
  abbrev pub first_guess : ℤ
  first_guess = to_int (list 0)
