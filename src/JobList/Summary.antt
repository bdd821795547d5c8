-- ===== src/JobList/Summary.antt =====
-- The summary as a map from names to times.
use pthread_benchmark.Prelude.{
  ℕ, ◌≡◌, refl, inl, inr, Option, none, some, List, [], ◌∷◌, if◌then◌else◌, arith, Bool-cases,
}
use pthread_benchmark.Prelude.{same_name, same_name-eq, same_name_self}
use pthread_benchmark.JobList.{Display, add_to_summary}

-- The time that the first entry of a name has.
abbrev pub time_of : List ℕ → List Display → Option ℕ
time_of name [] = none
time_of name (d ∷ ds) =
    let rest = time_of name ds in
    if same_name d.user name then some d.time_last_calculated else rest

-- After addToSummary the name has the new time, and every other name the time it had.
pub time_of-add_to_summary :
    (name other : List ℕ) (time : ℕ) (s : List Display)
    → time_of other (add_to_summary name time s)
      ≡ (if same_name name other then some time else time_of other s)
unfolding add_to_summary
time_of-add_to_summary name other time [] = refl
time_of-add_to_summary name other time (d ∷ ds) = elim (Bool-cases (same_name d.user name)) [
  | inl same ↦ rw (← same_name-eq d.user name same) (ground (arith, same_name_self d.user))
  | inr differ ↦ elim (Bool-cases (same_name name other)) [
    | inl is ↦ ground (arith, time_of-add_to_summary name other time ds, same_name-eq name other is)
    | inr away ↦ ground (arith, time_of-add_to_summary name other time ds)
  ]
]
