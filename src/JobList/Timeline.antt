-- ===== src/JobList/Timeline.antt =====
-- The printed time line.
use pthread_benchmark.Prelude.{
  ℕ, zero, suc, ◌+◌, ◌≤◌, ◌≡◌, refl, List, [], ◌∷◌, ◌++◌, ◌==◌, if◌then◌else◌, arith,
}
use pthread_benchmark.JobList.{
  Job, Display, Line, runs, idle, run_job, start_time, add_to_summary, display_from, job_display,
}

-- The times of the lines ascend strictly, from at least `low` on.
abbrev pub Clock : ℕ → List Line → Type 0
Clock low [] = Unit
Clock low (runs t p ∷ ls) = (low ≤ t) × Clock (t + 1) ls
Clock low (idle t ∷ ls) = (low ≤ t) × Clock (t + 1) ls

-- The lines of a process, and the durations of its jobs.
abbrev pub lines_of : ℕ → List Line → ℕ
lines_of p [] = 0
lines_of p (runs t q ∷ ls) = (if q == p then 1 else 0) + lines_of p ls
lines_of p (idle t ∷ ls) = lines_of p ls

abbrev pub work_of : ℕ → List Job → ℕ
work_of p [] = 0
work_of p (j ∷ js) = (if j.process == p then j.duration else 0) + work_of p js

Clock-lower : (low low' : ℕ) (ls : List Line) → low' ≤ low → Clock low ls → Clock low' ls
Clock-lower low low' [] le c = tt
Clock-lower low low' (runs t p ∷ ls) le (h, c) = (omega arith, c)
Clock-lower low low' (idle t ∷ ls) le (h, c) = (omega arith, c)

Clock-run_job :
    (n p low t : ℕ) (ls : List Line) → low ≤ t → Clock (t + n) ls → Clock low (run_job n p t ++ ls)
unfolding run_job
Clock-run_job zero p low t ls le c = Clock-lower (t + 0) low ls (omega arith) c
Clock-run_job (suc n) p low t ls le c = (
  le,
  Clock-run_job n p (t + 1) (t + 1) ls (omega arith)
      (Clock-lower (t + suc n) (t + 1 + n) ls (omega arith) c),
)

lines_of-run_job :
    (q n p t : ℕ) (ls : List Line)
    → lines_of q (run_job n p t ++ ls) ≡ (if p == q then n else 0) + lines_of q ls
unfolding run_job
lines_of-run_job q zero p t ls = ground arith
lines_of-run_job q (suc n) p t ls = ground (arith, lines_of-run_job q n p (t + 1) ls)

display_from-lines :
    (time : ℕ) (js : List Job) (s : List Display)
    → Clock time (display_from time js s).0
      × ((p : ℕ) → lines_of p (display_from time js s).0 ≡ work_of p js)
unfolding display_from
display_from-lines time [] s = ((omega arith, tt), λ p. refl)
display_from-lines time (j ∷ js) s =
    let (c, w) =
      display_from-lines (start_time time j + j.duration) js
        (add_to_summary j.user (start_time time j + j.duration) s) in
    (
      Clock-run_job j.duration j.process time (start_time time j)
          (display_from (start_time time j + j.duration) js
            (add_to_summary j.user (start_time time j + j.duration) s)).0
          (ground arith) c,
      λ p. ground (
        arith,
        w p,
        lines_of-run_job p j.duration j.process (start_time time j)
            (display_from (start_time time j + j.duration) js
              (add_to_summary j.user (start_time time j + j.duration) s)).0,
      ),
    )

-- The times that jobDisplay prints ascend strictly from 0 on, so that at each time at most one job
-- runs, and each process has as many lines as its jobs last.
pub job_display-lines :
    (js : List Job) (s : List Display)
    → Clock 0 (job_display js s).0 × ((p : ℕ) → lines_of p (job_display js s).0 ≡ work_of p js)
unfolding job_display
job_display-lines [] s = (tt, λ p. refl)
job_display-lines (j ∷ js) s = display_from-lines 0 (j ∷ js) s
