-- ===== src/Philosophers/Discipline.antt =====
-- The locking discipline of philosophers.c: a philosopher alone uses his entry of the hunger table.
use pthread_benchmark.Prelude.{
  ℕ, ◌+◌, ◌-◌, ◌<◌, ◌≡◌, refl, Bool, true, false, ◌==◌, ltb, leb, ◌&&◌, ◌||◌, if◌then◌else◌, arith,
}
use pthread_benchmark.Pthread.Roles.{Stays}
use pthread_benchmark.Pthread.Ownership.{Locks}
use pthread_benchmark.Pthread.Absence.{Tracks}
use pthread_benchmark.Pthread.Races.{Policy, private, Respects, Discipline}
use pthread_benchmark.Philosophers.{
  Meal, hungry, first, second, put_right, finish, spawn, await, over, Local, main, meal, code,
  begin,
}

abbrev pub policy : ℕ → Policy
policy x = private (x + 1)

abbrev pub absent : ℕ → Local → ℕ → Bool
absent t l j = false

module _ (n : ℕ) where
  abbrev pub first_fork : ℕ → ℕ
  first_fork name = if name == 0 then 0 else name - 1

  abbrev pub second_fork : ℕ → ℕ
  second_fork name = if name == 0 then n - 1 else name

  abbrev pub held_meal : ℕ → Meal → ℕ → Bool
  held_meal name hungry m = false
  held_meal name first m = false
  held_meal name finish m = false
  held_meal name second m = first_fork name == m
  held_meal name put_right m = name == m
  held_meal name _ m = first_fork name == m || second_fork name == m

  abbrev pub held : ℕ → Local → ℕ → Bool
  held t (main p) m = false
  held t (meal name p) m = held_meal name p m

  abbrev pub fits : ℕ → Local → Bool
  fits t (main (spawn k)) = t == 0 && leb k n
  fits t (main _) = t == 0
  fits t (meal name p) = t == name + 1 && ltb name n

  module _ (two : 1 < n) where
    pub stays : (t : ℕ) (l : Local) → fits t l ≡ true → Stays fits t (code n t l)
    unfolding code
    stays t (main (spawn k)) h = ground arith
    stays t (main (await k)) h = ground arith
    stays t (main over) h = ground arith
    stays t (meal name hungry) h = ground arith
    stays t (meal name _) h = ground arith

    pub locks : (t : ℕ) (l : Local) → fits t l ≡ true → Locks held t l (code n t l)
    unfolding code
    locks t (main (spawn k)) h = ground arith
    locks t (main _) h = ground arith
    locks t (meal name hungry) h = ground arith
    locks t (meal name _) h = ground arith

    pub tracks : (t : ℕ) (l : Local) → fits t l ≡ true → Tracks absent t l (code n t l)
    unfolding code
    tracks t (main (spawn k)) h = ground arith
    tracks t (main _) h = ground arith
    tracks t (meal name hungry) h = ground arith
    tracks t (meal name _) h = ground arith

    pub respects :
        (t : ℕ) (l : Local) → fits t l ≡ true → Respects held absent policy t l (code n t l)
    unfolding code
    respects t (main (spawn k)) h = ground arith
    respects t (main _) h = ground arith
    respects t (meal name hungry) h = ground arith
    respects t (meal name _) h = ground arith

    pub begin-fits : fits 0 begin ≡ true
    begin-fits = ground arith

    unfoldable pub discipline : Discipline (code n) begin
    discipline = record {
      fits = fits;
      held = held;
      absent = absent;
      policy = policy;
      stays = stays;
      locks = locks;
      tracks = tracks;
      respects = respects;
      only_main = λ t l k ne. refl;
      starts = begin-fits;
      free = λ m. refl;
      present = refl;
    }
