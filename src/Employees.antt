-- ===== src/Employees.antt =====
-- Fixed/NoBug1/employee_with_mutex.c: two threads copy an employee again and again, and main looks
-- whether the copy is consistent. Faulty/ManyBugs/employee_with_mutex.c is the same without the
-- mutex. The copy is made one field at a time.
mod Discipline
mod Assertions
mod Consistency
mod Mismatch
mod Tests
use pthread_benchmark.Prelude.{
  ℕ, ◌-◌, Bool, true, false, List, [], ◌∷◌, ◌==◌, if◌then◌else◌, get_or, same_name, codes,
}
use pthread_benchmark.Pthread.Model.{Act, tau, read, write, create, lock_if, unlock_if}

pub record Employee : Type 0 where
  pub number : ℕ
  pub id : ℕ
  pub first_name : List ℕ
  pub last_name : List ℕ
  pub department : List ℕ
  pub root_number : ℕ

abbrev pub astro : Employee
astro = record {
  number = 1;
  id = 12345678;
  first_name = codes "astro";
  last_name = codes "Bluse";
  department = codes "Accounting";
  root_number = 101;
}

abbrev pub shrek : Employee
shrek = record {
  number = 2;
  id = 87654321;
  first_name = codes "Shrek";
  last_name = codes "Charl";
  department = codes "Programmer";
  root_number = 102;
}

abbrev pub program_employees : List Employee
program_employees = astro ∷ shrek ∷ []

pub data Field : Type 0 where
  number_field id_field first_field last_field department_field root_field : Field

-- A thread's place in do_loop, and main's. At `mismatch` the process has printed the message and
-- ended; that the other threads end with it is left out.
pub data Loop : Type 0 where
  enter : Loop
  copy : Field → Loop
  leave : Loop

pub data Main : Type 0 where
  create_1 create_2 acquire look : Main
  compare_field : Field → Employee → Main
  release mismatch : Main

pub data Local : Type 0 where
  main : Main → Local
  loop : Loop → Local

abbrev pub copied : Field → Employee → Employee → Employee
copied number_field e to = record to { number = e.number }
copied id_field e to = record to { id = e.id }
copied first_field e to = record to { first_name = e.first_name }
copied last_field e to = record to { last_name = e.last_name }
copied department_field e to = record to { department = e.department }
copied root_field e to = record to { root_number = e.root_number }

abbrev pub after_copy : Field → Loop
after_copy number_field = copy id_field
after_copy id_field = copy first_field
after_copy first_field = copy last_field
after_copy last_field = copy department_field
after_copy department_field = copy root_field
after_copy root_field = leave

-- Whether main finds no difference in a field.
pub matches : Field → Employee → Employee → Bool
matches number_field p e = true
matches id_field p e = p.id == e.id
matches first_field p e = same_name p.first_name e.first_name
matches last_field p e = same_name p.last_name e.last_name
matches department_field p e = same_name p.department e.department
matches root_field p e = p.root_number == e.root_number

abbrev pub after_match : Field → Employee → Main
after_match number_field p = compare_field id_field p
after_match id_field p = compare_field first_field p
after_match first_field p = compare_field last_field p
after_match last_field p = compare_field department_field p
after_match department_field p = compare_field root_field p
after_match root_field p = release

abbrev pub lock : ℕ
lock = 0

-- The one variable is employee_of_the_day.
abbrev pub day_var : ℕ
day_var = 0

abbrev pub listed : List Employee → ℕ → Employee
listed employees n = get_or employees (n - 1) astro

module _ (locked : Bool) (employees : List Employee) where
  pub main_code : Main → Act Employee Local
  main_code create_1 = create 1 (loop enter) (main create_2)
  main_code create_2 = create 2 (loop enter) (main acquire)
  main_code acquire = lock_if locked lock (main look)
  main_code look = read day_var (λ e. main (compare_field id_field (listed employees e.number)))
  main_code (compare_field f p) =
      read day_var (λ e. if matches f p e then main (after_match f p) else main mismatch)
  main_code release = unlock_if locked lock (main acquire)
  main_code mismatch = tau (main mismatch)

  -- Thread 1 has num1 = 1 and thread 2 has num2 = 2.
  pub do_loop : ℕ → Loop → Act Employee Local
  do_loop num enter = lock_if locked lock (loop (copy number_field))
  do_loop num (copy f) = write day_var (copied f (listed employees num)) (loop (after_copy f))
  do_loop num leave = unlock_if locked lock (loop enter)

  pub code : ℕ → Local → Act Employee Local
  unfolding main_code do_loop
  code t (main p) = main_code p
  code t (loop p) = do_loop t p

abbrev pub fixed_code : List Employee → ℕ → Local → Act Employee Local
fixed_code = code true

abbrev pub faulty_code : List Employee → ℕ → Local → Act Employee Local
faulty_code = code false

abbrev pub begin : Local
begin = main create_1

-- What the copy before the first thread leaves.
abbrev pub first_day : List Employee → Employee
first_day employees = get_or employees 0 astro
