-- ===== src/Philosophers/Meals.antt =====
-- Who stands where with which forks.
use pthread_benchmark.Prelude.{
  ℕ, ◌+◌, ◌-◌, ◌<◌, ◌≡◌, ◌≢◌, inl, inr, refl, Bool, true, false, false≢true, ◌&&◌, List, ◌==◌, ltb,
  update, arith, Bool-cases,
}
use pthread_benchmark.Pthread.Roles.{fitting}
use pthread_benchmark.Pthread.Ownership.{holds, exclusive}
use pthread_benchmark.Pthread.Races.{Sound, run-Sound}
use pthread_benchmark.Pthread.Model.{
  Act, Status, unborn, running, sleeping, relocking, done, Event, run, boot,
}
use pthread_benchmark.Pthread.Outline.{Checks, Outline}
use pthread_benchmark.Pthread.Outline.Runs.{Starts}
use pthread_benchmark.Philosophers.{
  Meal, left_fork, right_fork, hungry, first, second, eat, store, tell, put_left, put_right, finish,
  spawn, await, over, Local, main, meal, code, begin, filled,
}
use pthread_benchmark.Philosophers.Discipline.{absent, held, held_meal, fits, discipline}

abbrev pub Inv : ℕ → (ℕ → ℕ) → Type 0
Inv m d = Unit

-- Nobody uses a condition variable.
abbrev pub At : ℕ → Status Local → (ℕ → ℕ) → Type 0
At t (running (main p)) d = t ≡ 0
At t (running (meal name finish)) d = (t ≡ name + 1) × (d name ≡ 0)
At t (running (meal name _)) d = t ≡ name + 1
At t (sleeping q m l) d = ⊥
At t (relocking m l) d = ⊥
At t done d = 0 < t → d (t - 1) ≡ 0
At t unborn d = Unit

-- He has both forks, from the second one on until he puts the first one back.
abbrev pub eats : Status Local → Bool
eats (running (meal name eat)) = true
eats (running (meal name (store h))) = true
eats (running (meal name tell)) = true
eats (running (meal name put_left)) = true
eats _ = false

module _ (n : ℕ) (two : 1 < n) where
  unfoldable pub Checked : ℕ → Local → (ℕ → ℕ) → Act (ℕ → ℕ) Local → Type 0
  Checked t l d = Checks (fits n) (held n) absent Inv At t l d

  -- A philosopher writes his own entry only.
  frame :
      (name h : ℕ) (d : ℕ → ℕ) (j : ℕ) (s : Status Local)
      → j ≢ name + 1
      → At j s d
      → At j s (update d name h)
  frame name h d j unborn ne a = tt
  frame name h d j done ne a = ground arith
  frame name h d j (running (main p)) ne a = a
  frame name h d j (running (meal k finish)) ne a = ground arith
  frame name h d j (running (meal k _)) ne a = a
  frame name h d j (sleeping q m l) ne a = a
  frame name h d j (relocking m l) ne a = a

  pub checks :
      (t : ℕ) (l : Local) (d : ℕ → ℕ)
      → fits n t l ≡ true
      → At t (running l) d
      → Checked t l d (code n t l)
  unfolding code Checked
  checks t (main (spawn k)) d f a = elim (Bool-cases (ltb k n)) [
    | inl more ↦ rw more (a, λ u. refl)
    | inr rest ↦ rw rest a
  ]
  checks t (main (await k)) d f a = elim (Bool-cases (ltb k n)) [
    | inl more ↦ rw more (λ u. a)
    | inr rest ↦ rw rest a
  ]
  checks t (main over) d f a = λ pos. absurd (omega arith)
  checks t (meal name hungry) d f a = elim (Bool-cases (ltb 0 (d name))) [
    | inl more ↦ rw more a
    | inr rest ↦ rw rest (a, ground arith)
  ]
  checks t (meal name first) d f a = elim (Bool-cases (name == 0)) [
    | inl zeroth ↦ rw zeroth (λ u. a)
    | inr later ↦ rw later (λ u. a)
  ]
  checks t (meal name second) d f a = elim (Bool-cases (name == 0)) [
    | inl zeroth ↦ rw zeroth (λ u. a)
    | inr later ↦ rw later (λ u. a)
  ]
  checks t (meal name (store h)) d f a =
      (a, (λ j s ne x b. frame name (h - 1) d j s (ground arith) b), λ m e u. tt)
  checks t (meal name put_left) d f a = (tt, a)
  checks t (meal name put_right) d f a = (tt, a)
  checks t (meal name finish) d f a = λ pos. ground arith
  checks t (meal name _) d f a = a

  unfoldable pub outline : Outline (code n) begin (discipline n two)
  unfolding Checked discipline
  outline = record {
    inv = Inv;
    at = At;
    checks = checks;
    wakes = λ t c m l d h. h;
    returns = λ t m l d h w. absurd h;
  }

  pub starts : (hunger : ℕ) → Starts (code n) begin (discipline n two) outline (filled n hunger)
  unfolding outline
  starts hunger = record { unowned = λ m. tt; main = refl; others = λ t ne. tt }

  eats_both :
      (name : ℕ) (p : Meal)
      → eats (running (meal name p)) ≡ true
      → (held_meal n name p (left_fork n name) ≡ true)
        × (held_meal n name p (right_fork n name) ≡ true)
  eats_both name eat e = ground arith
  eats_both name (store h) e = ground arith
  eats_both name tell e = ground arith
  eats_both name put_left e = ground arith
  eats_both name hungry e = absurd (false≢true e)
  eats_both name first e = absurd (false≢true e)
  eats_both name second e = absurd (false≢true e)
  eats_both name put_right e = absurd (false≢true e)
  eats_both name finish e = absurd (false≢true e)

  eats-holds :
      (name : ℕ) (s : Status Local)
      → fitting (fits n) (name + 1) s ≡ true
      → eats s ≡ true
      → (holds (held n) (name + 1) s (left_fork n name) ≡ true)
        × (holds (held n) (name + 1) s (right_fork n name) ≡ true)
  eats-holds name (running (main p)) f e = absurd (false≢true e)
  eats-holds name (running (meal k p)) f e =
      let same : name ≡ k = ground arith in rw same (eats_both k p e)
  eats-holds name (sleeping q m l) f e = absurd (false≢true e)
  eats-holds name (relocking m l) f e = absurd (false≢true e)
  eats-holds name unborn f e = absurd (false≢true e)
  eats-holds name done f e = absurd (false≢true e)

  -- For at least two philosophers, any hunger and every schedule: at no time do a philosopher and
  -- the one to his left both eat, that is, stand between taking the second fork and putting one
  -- back.
  pub neighbours_apart :
      (hunger : ℕ) (es : List Event) (name : ℕ)
      → name < n
      → (eats ((run (code n) es (boot (filled n hunger) (λ _. 0) begin)).thread (name + 1))
          && eats (
              (run (code n) es (boot (filled n hunger) (λ _. 0) begin)).thread
                (left_fork n name + 1)))
        ≡ false
  unfolding discipline
  neighbours_apart hunger es name lt =
      let w = run (code n) es (boot (filled n hunger) (λ _. 0) begin) in
      let sound : Sound (code n) begin (discipline n two) w =
        run-Sound (code n) begin (discipline n two) (filled n hunger) (λ _. 0) es in
      let here = w.thread (name + 1) in
      let beside = w.thread (left_fork n name + 1) in
      elim (Bool-cases (eats here && eats beside)) [
        | inl both ↦
            let one_thread : name + 1 ≡ left_fork n name + 1 =
              exclusive (held n) w sound.own (name + 1) (left_fork n name + 1) (left_fork n name)
                (eats-holds name here (sound.placed (name + 1)) (ground arith)).0
                (eats-holds (left_fork n name) beside (sound.placed (left_fork n name + 1))
                  (ground arith)).1 in
            absurd (ground (arith, one_thread))
        | inr apart ↦ apart
      ]
