-- ===== src/Zad/Discipline.antt =====
-- The locking discipline.
use pthread_benchmark.Prelude.{ℕ, ◌≡◌, refl, Bool, true, false, ◌==◌, leb, ◌&&◌, arith}
use pthread_benchmark.Pthread.Races.{Discipline}
use pthread_benchmark.Pthread.OneLock.{Guards, one_lock}
use pthread_benchmark.Zad.{
  rest, enter, draw, wait_for, post, create_push, create_pop_1, create_pop_2, Local, main, pop,
  push, code, begin,
}

abbrev pub inside : Local → Bool
inside (main p) = false
inside (pop rest) = false
inside (pop enter) = false
inside (pop _) = true
inside (push draw) = false
inside (push (wait_for v)) = false
inside (push post) = false
inside (push _) = true

abbrev pub fits : ℕ → Local → Bool
fits t (main p) = t == 0
fits t (push p) = t == 1
fits t (pop p) = leb 2 t && leb t 3

pub guards : (t : ℕ) (l : Local) → fits t l ≡ true → Guards fits inside t l (code t l)
unfolding code
guards t (main create_push) h = ground arith
guards t (main create_pop_1) h = ground arith
guards t (main create_pop_2) h = ground arith
guards t (main _) h = ground arith
guards t (pop rest) h = ground arith
guards t (pop enter) h = ground arith
guards t (pop _) h = ground arith
guards t (push draw) h = ground arith
guards t (push (wait_for v)) h = ground arith
guards t (push post) h = ground arith
guards t (push _) h = ground arith

unfoldable pub discipline : Discipline code begin
unfolding one_lock
discipline = one_lock fits inside code begin guards refl refl
