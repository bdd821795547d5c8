-- ===== src/TaskPool/Discipline.antt =====
-- The locking discipline of the pool.
use pthread_benchmark.Prelude.{ℕ, zero, suc, ◌≡◌, refl, Bool, true, false, ◌==◌, leb, ◌&&◌, arith}
use pthread_benchmark.Pthread.Races.{Discipline}
use pthread_benchmark.Pthread.OneLock.{Guards, one_lock}
use pthread_benchmark.TaskPool.{
  Worker, enter, execute, over, Main, spawn, draw, draw_b, submit, await, finish, Local, main,
  worker, code, begin,
}

abbrev pub inside : Local → Bool
inside (main (spawn n i)) = false
inside (main (draw n)) = false
inside (main (draw_b n a)) = false
inside (main (submit n t)) = false
inside (main (Main.tell n t)) = false
inside (main (await i)) = false
inside (main finish) = false
inside (main _) = true
inside (worker enter) = false
inside (worker (Worker.tell t)) = false
inside (worker (execute t)) = false
inside (worker over) = false
inside (worker _) = true

abbrev pub fits : ℕ → Local → Bool
fits t (main p) = t == 0
fits t (worker p) = leb 1 t && leb t 4

pub guards : (t : ℕ) (l : Local) → fits t l ≡ true → Guards fits inside t l (code t l)
unfolding code
guards t (main (spawn n i)) h = ground arith
guards t (main (draw zero)) h = ground arith
guards t (main (draw (suc n))) h = ground arith
guards t (main (draw_b n a)) h = ground arith
guards t (main (submit n x)) h = ground arith
guards t (main (Main.tell n x)) h = ground arith
guards t (main (await i)) h = ground arith
guards t (main finish) h = ground arith
guards t (main _) h = ground arith
guards t (worker enter) h = ground arith
guards t (worker (Worker.tell x)) h = ground arith
guards t (worker (execute x)) h = ground arith
guards t (worker over) h = ground arith
guards t (worker _) h = ground arith

module _ (n : ℕ) where
  unfoldable pub discipline : Discipline code (begin n)
  unfolding one_lock
  discipline = one_lock fits inside code (begin n) guards refl refl
