-- ===== src/Employees/Assertions.antt =====
-- When the employee of the day is consistent, and what the threads know.
use pthread_benchmark.Prelude.{ℕ, ◌≤◌, ◌<◌, ◌≡◌, ◌≢◌, refl, true, List, arith, same_name_self}
use pthread_benchmark.Pthread.Model.{Status, unborn, running, sleeping, relocking, done}
use pthread_benchmark.Pthread.Outline.{Apart}
use pthread_benchmark.Pthread.OneLock.{held, absent}
use pthread_benchmark.Employees.{
  Employee, Field, number_field, id_field, first_field, last_field, department_field, root_field,
  Loop, enter, copy, leave, Main, create_1, create_2, acquire, look, compare_field, release,
  mismatch, Local, main, loop, matches, listed,
}
use pthread_benchmark.Employees.Discipline.{inside, fits}

-- Two entries agree in all fields up to the one named.
abbrev pub SameNumber : Employee → Employee → Type 0
SameNumber e o = (o.number ≡ e.number)

abbrev pub SameId : Employee → Employee → Type 0
SameId e o = SameNumber e o × (o.id ≡ e.id)

abbrev pub SameFirst : Employee → Employee → Type 0
SameFirst e o = SameId e o × (o.first_name ≡ e.first_name)

abbrev pub SameLast : Employee → Employee → Type 0
SameLast e o = SameFirst e o × (o.last_name ≡ e.last_name)

abbrev pub SameDepartment : Employee → Employee → Type 0
SameDepartment e o = SameLast e o × (o.department ≡ e.department)

abbrev pub Same : Employee → Employee → Type 0
Same e o = SameDepartment e o × (o.root_number ≡ e.root_number)

-- The fields before `f` are those of `e`.
abbrev pub Begun : Field → Employee → Employee → Type 0
Begun number_field e o = Unit
Begun id_field e o = SameNumber e o
Begun first_field e o = SameId e o
Begun last_field e o = SameFirst e o
Begun department_field e o = SameLast e o
Begun root_field e o = SameDepartment e o

pub matches-Same : (f : Field) (e o : Employee) → Same e o → matches f e o ≡ true
unfolding matches
matches-Same number_field e o h = refl
matches-Same id_field e o h = ground arith
matches-Same first_field e o h = ground (arith, same_name_self e.first_name)
matches-Same last_field e o h = ground (arith, same_name_self e.last_name)
matches-Same department_field e o h = ground (arith, same_name_self e.department)
matches-Same root_field e o h = ground arith

module _ (employees : List Employee) where
  -- The entry with its own number.
  abbrev pub Consistent : Employee → Type 0
  Consistent o = Same (listed employees o.number) o

  -- The first two entries have the numbers 1 and 2.
  abbrev pub Numbered : Type 0
  Numbered = (t : ℕ) → 0 < t → t ≤ 2 → (listed employees t).number ≡ t

  abbrev pub Inv : ℕ → Employee → Type 0
  Inv m o = m ≡ 0 → Consistent o

  abbrev pub AtMain : Main → Employee → Type 0
  AtMain create_1 o = Unit
  AtMain create_2 o = Unit
  AtMain acquire o = Unit
  AtMain look o = Consistent o
  AtMain (compare_field f p) o = Consistent o × (p ≡ listed employees o.number)
  AtMain release o = Consistent o
  AtMain mismatch o = ⊥

  abbrev pub AtLoop : ℕ → Loop → Employee → Type 0
  AtLoop t enter o = Unit
  AtLoop t (copy f) o = Begun f (listed employees t) o
  AtLoop t leave o = Consistent o

  abbrev pub At : ℕ → Status Local → Employee → Type 0
  At t (running (main p)) o = AtMain p o
  At t (running (loop p)) o = AtLoop t p o
  At t (sleeping q m l) o = ⊥
  At t (relocking m l) o = ⊥
  At t unborn o = Unit
  At t done o = ⊥

  -- A thread that holds the mutex disturbs nobody.
  pub frame :
      (t : ℕ) (l : Local) (o o' : Employee)
      → inside l ≡ true
      → (j : ℕ) (s : Status Local) → j ≢ t
      → Apart fits (held inside) absent t l j s
      → At j s o
      → At j s o'
  frame t l o o' own j unborn ne a h = tt
  frame t l o o' own j done ne a h = h
  frame t l o o' own j (sleeping q m k) ne a h = h
  frame t l o o' own j (relocking m k) ne a h = h
  frame t l o o' own j (running (main create_1)) ne a h = tt
  frame t l o o' own j (running (main create_2)) ne a h = tt
  frame t l o o' own j (running (main acquire)) ne a h = tt
  frame t l o o' own j (running (main _)) ne a h = ground (arith, a.disjoint 0)
  frame t l o o' own j (running (loop enter)) ne a h = tt
  frame t l o o' own j (running (loop _)) ne a h = ground (arith, a.disjoint 0)
