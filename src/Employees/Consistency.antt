-- ===== src/Employees/Consistency.antt =====
-- Runs of the program with the mutex.
use pthread_benchmark.Prelude.{
  ◌⊎◌, ℕ, ◌<◌, ◌≤◌, ◌≡◌, ◌≢◌, refl, sym, subst, ◌∙◌, true, none, List, arith,
}
use pthread_benchmark.Pthread.Model.{Act, running, World, Event, run, boot}
use pthread_benchmark.Pthread.Races.{DataRace, race_free}
use pthread_benchmark.Pthread.OneLock.{held, absent, entrusted, unless_owned}
use pthread_benchmark.Pthread.Outline.{Checks, Outline, Holds}
use pthread_benchmark.Pthread.Outline.Runs.{Starts, run-Holds}
use pthread_benchmark.Employees.{
  Employee, Field, number_field, id_field, first_field, last_field, department_field, root_field,
  Loop, enter, copy, leave, Main, create_1, create_2, acquire, look, compare_field, release,
  mismatch, Local, main, loop, copied, after_copy, after_match, listed, code, fixed_code, begin,
  first_day,
}
use pthread_benchmark.Employees.Discipline.{inside, fits, discipline}
use pthread_benchmark.Employees.Assertions.{
  Begun, Same, matches-Same, Consistent, Numbered, Inv, AtMain, AtLoop, At, frame,
}

module _ (employees : List Employee) (numbered : Numbered employees) where
  unfoldable Checked : ℕ → Local → Employee → Act Employee Local → Type 0
  Checked t l o = Checks fits (held inside) absent (Inv employees) (At employees) t l o

  -- A complete copy of the entry `t` is consistent.
  copy-Consistent :
      (t : ℕ) (o : Employee) → 0 < t → t ≤ 2 → Same (listed employees t) o → Consistent employees o
  copy-Consistent t o gt le h =
      let here : t ≡ o.number = sym (numbered t gt le) ∙ sym h.0.0.0.0.0 in
      subst (λ n. Same (listed employees n) o) here h

  after_match-At :
      (f : Field) (p o : Employee)
      → Consistent employees o
      → p ≡ listed employees o.number
      → AtMain employees (after_match f p) o
  after_match-At root_field p o h e = h
  after_match-At number_field p o h e = (h, e)
  after_match-At id_field p o h e = (h, e)
  after_match-At first_field p o h e = (h, e)
  after_match-At last_field p o h e = (h, e)
  after_match-At department_field p o h e = (h, e)

  after_copy-At :
      (f : Field) (t : ℕ) (o : Employee)
      → 0 < t
      → t ≤ 2
      → Begun f (listed employees t) o
      → AtLoop employees t (after_copy f) (copied f (listed employees t) o)
  after_copy-At number_field t o gt le h = refl
  after_copy-At id_field t o gt le h = (h, refl)
  after_copy-At first_field t o gt le h = (h, refl)
  after_copy-At last_field t o gt le h = (h, refl)
  after_copy-At department_field t o gt le h = (h, refl)
  after_copy-At root_field t o gt le h =
      copy-Consistent t (copied root_field (listed employees t) o) gt le (h, refl)

  checks_main :
      (t : ℕ) (p : Main) (o : Employee)
      → fits t (main p) ≡ true
      → At employees t (running (main p)) o
      → Checked t (main p) o (fixed_code employees t (main p))
  unfolding code Checked
  checks_main t create_1 o f h = (tt, λ u. tt)
  checks_main t create_2 o f h = (tt, λ u. tt)
  checks_main t acquire o f h = λ v. v refl
  checks_main t look o f h = (h, refl)
  checks_main t (compare_field f' p) o f (h, e) =
      rw (matches-Same f' p o (subst (λ q. Same q o) (sym e) h)) (after_match-At f' p o h e)
  checks_main t release o f h = (λ m. h, tt)
  checks_main t mismatch o f h = h

  checks_loop :
      (t : ℕ) (p : Loop) (o : Employee)
      → fits t (loop p) ≡ true
      → At employees t (running (loop p)) o
      → Checked t (loop p) o (fixed_code employees t (loop p))
  unfolding code Checked
  checks_loop t enter o f h = λ v. tt
  checks_loop t (copy k) o f h = (
    after_copy-At k t o (ground (arith, f)) (ground (arith, f)) h,
    frame employees t (loop (copy k)) o _ refl,
    entrusted inside t (loop (copy k)) refl,
  )
  checks_loop t leave o f h = (λ m. h, tt)

  checks :
      (t : ℕ) (l : Local) (o : Employee)
      → fits t l ≡ true
      → At employees t (running l) o
      → Checked t l o (fixed_code employees t l)
  checks t (main p) o f h = checks_main t p o f h
  checks t (loop p) o f h = checks_loop t p o f h

  outline : Outline (fixed_code employees) begin (discipline employees)
  unfolding Checked discipline
  outline = record {
    inv = Inv employees;
    at = At employees;
    checks = checks;
    wakes = λ t c m l o h. h;
    returns = λ t m l o h v. absurd h;
  }

  starts : Starts (fixed_code employees) begin (discipline employees) outline (first_day employees)
  unfolding outline
  starts = record {
    unowned = λ m z.
        copy-Consistent 1 (first_day employees) (omega arith) (omega arith)
          ((((((refl, refl), refl), refl), refl)), refl);
    main = tt;
    others = λ t ne. tt;
  }

  module _ (es : List Event) where
    abbrev after : World Employee Local
    after = run (fixed_code employees) es (boot (first_day employees) (λ _. 0) begin)

    hold : Holds (fixed_code employees) begin (discipline employees) outline after
    hold =
        run-Holds (fixed_code employees) begin (discipline employees) outline (first_day employees)
          (λ _. 0) es starts

    -- For any table whose first two entries have the numbers 1 and 2, and every schedule: main
    -- never finds a mismatch; while the mutex is free, the employee of the day agrees in all fields
    -- with the entry that has its number; and no run has a data race.
    pub never_mixed :
        (after.thread 0 ≢ running (main mismatch))
        × ((after.owner 0 ≢ none) ⊎ Consistent employees after.mem)
        × (¬ DataRace (fixed_code employees) after)
    unfolding outline
    never_mixed = (
      λ e. rw e at (hold.each 0),
      unless_owned after 0 (λ free. hold.unowned 0 free refl),
      race_free (fixed_code employees) begin (discipline employees) (first_day employees) (λ _. 0)
          es,
    )
