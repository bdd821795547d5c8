-- ===== src/ProCon/Discipline.antt =====
-- The locking discipline of the producer and the consumer.
use pthread_benchmark.Prelude.{ℕ, zero, suc, ◌≡◌, refl, Bool, true, false, ◌==◌, arith}
use pthread_benchmark.Pthread.Races.{Discipline}
use pthread_benchmark.Pthread.OneLock.{Guards, one_lock}
use pthread_benchmark.ProCon.{
  top, notify, enter, create_pro, create_con, Local, main, pro, con, code, begin,
}

abbrev pub inside : Local → Bool
inside (main p) = false
inside (pro (top i)) = false
inside (pro (notify i)) = false
inside (pro _) = true
inside (con (enter i)) = false
inside (con _) = true

abbrev pub fits : ℕ → Local → Bool
fits t (main p) = t == 0
fits t (pro p) = t == 1
fits t (con p) = t == 2

pub guards : (t : ℕ) (l : Local) → fits t l ≡ true → Guards fits inside t l (code t l)
unfolding code
guards t (main (create_pro n)) h = ground arith
guards t (main (create_con n)) h = ground arith
guards t (main _) h = ground arith
guards t (pro (top zero)) h = ground arith
guards t (pro (top (suc i))) h = ground arith
guards t (pro _) h = ground arith
guards t (con (enter zero)) h = ground arith
guards t (con (enter (suc i))) h = ground arith
guards t (con _) h = ground arith

module _ (n : ℕ) where
  unfoldable pub discipline : Discipline code (begin n)
  unfolding one_lock
  discipline = one_lock fits inside code (begin n) guards refl refl
