-- ===== src/Tickets/Discipline.antt =====
-- The locking discipline of the fixed ticket sellers.
use pthread_benchmark.Prelude.{ℕ, ◌≡◌, refl, Bool, true, false, ◌==◌, leb, ◌&&◌, arith}
use pthread_benchmark.Pthread.Races.{Discipline}
use pthread_benchmark.Pthread.OneLock.{Guards, one_lock}
use pthread_benchmark.Tickets.{enter, over, create_1, Local, main, seller, code, fixed_code, begin}

abbrev pub inside : Local → Bool
inside (main p) = false
inside (seller enter) = false
inside (seller over) = false
inside (seller _) = true

abbrev pub fits : ℕ → Local → Bool
fits t (main p) = t == 0
fits t (seller p) = leb 1 t && leb t 2

pub guards : (t : ℕ) (l : Local) → fits t l ≡ true → Guards fits inside t l (fixed_code t l)
unfolding code
guards t (main create_1) h = ground arith
guards t (main _) h = ground arith
guards t (seller enter) h = ground arith
guards t (seller _) h = ground arith

unfoldable pub discipline : Discipline fixed_code begin
unfolding one_lock
discipline = one_lock fits inside fixed_code begin guards refl refl
