-- ===== src/JobList/Tests.antt =====
-- Four jobs of two users.
use pthread_benchmark.Prelude.{ℕ, ◌≡◌, codes, some, List, [], ◌∷◌, ◌++◌}
use mathlib.Core.List.{Perm}
use pthread_benchmark.JobList.{Job, insert_all, job_display}
use pthread_benchmark.JobList.Order.{Ascends, insert_all-sorted}
use pthread_benchmark.JobList.Timeline.{Clock, lines_of, work_of, job_display-lines}

abbrev alice : List ℕ
alice = codes "ann"

abbrev robert : List ℕ
robert = codes "bob"

abbrev four : List Job
four =
    record { user = alice; process = 65; arrival = 2; duration = 4; priority = 1 }
    ∷ record { user = robert; process = 66; arrival = 1; duration = 2; priority = 1 }
    ∷ record { user = alice; process = 67; arrival = 0; duration = 4; priority = 2 }
    ∷ record { user = robert; process = 68; arrival = 9; duration = 1; priority = 1 }
    ∷ []

insert_all-sorted_example :
    (ys : List Job) × (insert_all four [] ≡ some ys) × Ascends 0 ys × Perm (four ++ []) ys
insert_all-sorted_example = insert_all-sorted four [] tt

job_display-lines_example :
    Clock 0 (job_display four []).0
    × ((p : ℕ) → lines_of p (job_display four []).0 ≡ work_of p four)
job_display-lines_example = job_display-lines four []
