-- ===== src/JobList.antt =====
-- The job list and the summary of Fixed/NoBug2/assignment2question2.c. A chain of nodes is a list;
-- `none` is a fault, the use of a pointer that is NULL or not set. Times are not negative and their
-- sums fit an int, and the names fit their arrays.
mod Order
mod Summary
mod Timeline
mod Tests
use pthread_benchmark.Prelude.{
  ℕ, zero, suc, ◌+◌, ◌-◌, Bool, true, false, Option, none, some, List, [], ◌∷◌, ◌++◌, ◌==◌, ltb,
  ◌&&◌, if◌then◌else◌, length, same_name,
}

-- `struct node`; a name is its characters.
pub record Job : Type 0 where
  pub user : List ℕ
  pub process : ℕ
  pub arrival : ℕ
  pub duration : ℕ
  pub priority : ℕ

-- `struct display`.
pub record Display : Type 0 where
  pub user : List ℕ
  pub time_last_calculated : ℕ

abbrev pub finish : Job → ℕ
finish j = j.arrival + j.duration

-- `count`.
unfoldable pub count : List Job → ℕ
count [] = 0
count (x ∷ xs) = count xs + 1

-- The loop at the start of `insert`.
unfoldable pub count_earlier : Job → List Job → ℕ → ℕ
count_earlier j [] c = c
count_earlier j (x ∷ xs) c = count_earlier j xs (if ltb (finish x) (finish j) then c + 1 else c)

-- `add`.
unfoldable pub add : Job → List Job → List Job
add j [] = j ∷ []
add j (x ∷ xs) = j ∷ x ∷ xs

-- The loop of `addafter` makes so many steps; `left` is set by the first.
unfoldable pub link_after : ℕ → Job → List Job → Option (List Job)
link_after zero j xs = none
link_after (suc steps) j [] = none
link_after (suc zero) j (x ∷ xs) = some (x ∷ j ∷ xs)
link_after (suc (suc steps)) j (x ∷ xs) = elim (link_after (suc steps) j xs) [
  | none ↦ none
  | some ys ↦ some (x ∷ ys)
]

unfoldable pub add_after : Job → ℕ → List Job → Option (List Job)
add_after j loc xs = link_after (loc - 1) j xs

-- The last branch of `insert`.
unfoldable pub add_last : Job → List Job → Option (List Job)
add_last j [] = none
add_last j (x ∷ []) = some (x ∷ j ∷ [])
add_last j (x ∷ y ∷ xs) = elim (add_last j (y ∷ xs)) [ none ↦ none | some ys ↦ some (x ∷ ys) ]

unfoldable pub insert_counted : Job → ℕ → List Job → Option (List Job)
insert_counted j c xs =
    if c == 0
    then some (add j xs)
    else if ltb c (count xs)
    then add_after j (c + 1) xs
    else add_last j xs

unfoldable pub insert : Job → List Job → Option (List Job)
insert j [] = some (add j [])
insert j (x ∷ xs) = insert_counted j (count_earlier j (x ∷ xs) 0) (x ∷ xs)

-- The loop of `main` over its input.
unfoldable pub insert_all : List Job → List Job → Option (List Job)
insert_all [] xs = some xs
insert_all (j ∷ js) xs = elim (insert j xs) [ none ↦ none | some ys ↦ insert_all js ys ]

-- `addToSummary`: the loop over the entries, and the new entry at the rear.
unfoldable pub add_to_summary : List ℕ → ℕ → List Display → List Display
add_to_summary name time [] = record { user = name; time_last_calculated = time } ∷ []
add_to_summary name time (d ∷ ds) =
    let rest = add_to_summary name time ds in
    if same_name d.user name then record d { time_last_calculated = time } ∷ ds else d ∷ rest

-- A printed line of `jobDisplay`.
pub data Line : Type 0 where
  runs : ℕ → ℕ → Line  -- time, process
  idle : ℕ → Line

-- The loop over a job's duration, with the time at which it starts.
unfoldable pub run_job : ℕ → ℕ → ℕ → List Line
run_job zero process time = []
run_job (suc left) process time = runs time process ∷ run_job left process (time + 1)

abbrev pub start_time : ℕ → Job → ℕ
start_time time j = if ltb time j.arrival then j.arrival else time

-- The loop of `jobDisplay` from a node on: the lines and the summary.
unfoldable pub display_from : ℕ → List Job → List Display → List Line × List Display
display_from time [] s = (idle time ∷ [], s)
display_from time (j ∷ js) s =
    let (lines, s') =
      display_from (start_time time j + j.duration) js
        (add_to_summary j.user (start_time time j + j.duration) s) in
    (run_job j.duration j.process (start_time time j) ++ lines, s')

-- An empty list ends the thread before the loop.
unfoldable pub job_display : List Job → List Display → List Line × List Display
job_display [] s = ([], s)
job_display (j ∷ js) s = display_from 0 (j ∷ js) s
