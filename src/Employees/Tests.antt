-- ===== src/Employees/Tests.antt =====
-- Runs of both versions on the program's table.
use pthread_benchmark.Prelude.{◌⊎◌, zero, suc, ◌≡◌, ◌≢◌, refl, none, List, ◌++◌, arith}
use pthread_benchmark.Pthread.Model.{Event, running, run, boot, turns, World}
use pthread_benchmark.Pthread.Races.{DataRace}
use pthread_benchmark.Employees.{
  Employee, mismatch, main, Local, fixed_code, faulty_code, begin, first_day, program_employees,
}
use pthread_benchmark.Employees.Assertions.{Numbered, Consistent}
use pthread_benchmark.Employees.Consistency.{never_mixed}
use pthread_benchmark.Employees.Mismatch.{half_copied, half_copied-mismatch}

table-Numbered : Numbered program_employees
table-Numbered zero gt le = absurd (omega arith)
table-Numbered (suc zero) gt le = refl
table-Numbered (suc (suc zero)) gt le = refl
table-Numbered (suc (suc (suc t))) gt le = absurd (omega arith)

-- Both loops run, and main looks once.
abbrev busy : List Event
busy = turns 2 0 0 ++ turns 8 2 0 ++ turns 9 0 0 ++ turns 8 1 0

abbrev after : World Employee Local
after = run (fixed_code program_employees) busy (boot (first_day program_employees) (λ _. 0) begin)

never_mixed_example :
    (after.thread 0 ≢ running (main mismatch))
    × ((after.owner 0 ≢ none) ⊎ Consistent program_employees after.mem)
    × (¬ DataRace (fixed_code program_employees) after)
never_mixed_example = never_mixed program_employees table-Numbered busy

half_copied-mismatch_example :
    (run
        (faulty_code program_employees)
        half_copied
        (boot (first_day program_employees) (λ _. 0) begin)).thread
      0
    ≡ running (main mismatch)
half_copied-mismatch_example =
    half_copied-mismatch program_employees table-Numbered (λ e. omega (arith, e))
