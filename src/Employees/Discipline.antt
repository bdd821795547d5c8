-- ===== src/Employees/Discipline.antt =====
-- The locking discipline of the program with the mutex.
use pthread_benchmark.Prelude.{ℕ, ◌≡◌, refl, Bool, true, false, List, ◌==◌, leb, ◌&&◌, arith}
use pthread_benchmark.Pthread.Races.{Discipline}
use pthread_benchmark.Pthread.OneLock.{Guards, one_lock}
use pthread_benchmark.Employees.{
  Employee, number_field, id_field, first_field, last_field, department_field, root_field, enter,
  copy, create_1, create_2, acquire, compare_field, Local, main, loop, code, fixed_code, begin,
}

abbrev pub inside : Local → Bool
inside (main create_1) = false
inside (main create_2) = false
inside (main acquire) = false
inside (main _) = true
inside (loop enter) = false
inside (loop _) = true

abbrev pub fits : ℕ → Local → Bool
fits t (main p) = t == 0
fits t (loop p) = leb 1 t && leb t 2

module _ (employees : List Employee) where
  pub guards :
      (t : ℕ) (l : Local) → fits t l ≡ true → Guards fits inside t l (fixed_code employees t l)
  unfolding code
  guards t (main create_1) h = ground arith
  guards t (main create_2) h = ground arith
  guards t (main (compare_field id_field p)) h = ground arith
  guards t (main (compare_field first_field p)) h = ground arith
  guards t (main (compare_field last_field p)) h = ground arith
  guards t (main (compare_field department_field p)) h = ground arith
  guards t (main (compare_field root_field p)) h = ground arith
  guards t (main _) h = ground arith
  guards t (loop (copy number_field)) h = ground arith
  guards t (loop (copy id_field)) h = ground arith
  guards t (loop (copy first_field)) h = ground arith
  guards t (loop (copy last_field)) h = ground arith
  guards t (loop (copy department_field)) h = ground arith
  guards t (loop (copy root_field)) h = ground arith
  guards t (loop _) h = ground arith

  unfoldable pub discipline : Discipline (fixed_code employees) begin
  unfolding one_lock
  discipline = one_lock fits inside (fixed_code employees) begin guards refl refl
