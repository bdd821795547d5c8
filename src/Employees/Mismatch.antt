-- ===== src/Employees/Mismatch.antt =====
-- The program without the mutex.
use pthread_benchmark.Prelude.{◌≡◌, ◌≢◌, List, ◌++◌, arith}
use pthread_benchmark.Pthread.Model.{Event, running, run, boot, turns}
use pthread_benchmark.Employees.{
  Employee, matches, mismatch, main, listed, code, faulty_code, begin, first_day,
}
use pthread_benchmark.Employees.Assertions.{Numbered}

-- Thread 2 has copied the number only, when main looks.
abbrev pub half_copied : List Event
half_copied = turns 2 0 0 ++ turns 2 2 0 ++ turns 3 0 0

-- Without the mutex, for any table whose first two entries have the numbers 1 and 2 and different
-- identifiers, main finds a mismatch when it looks after thread 2 has copied the number and nothing
-- else.
pub half_copied-mismatch :
    (employees : List Employee)
    → Numbered employees
    → (listed employees 1).id ≢ (listed employees 2).id
    → (run (faulty_code employees) half_copied (boot (first_day employees) (λ _. 0) begin)).thread 0
      ≡ running (main mismatch)
unfolding run code matches
half_copied-mismatch employees numbered differ =
    rw (numbered 2 (omega arith) (omega arith)) (ground (arith, differ))
