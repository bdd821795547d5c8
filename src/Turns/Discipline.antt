-- ===== src/Turns/Discipline.antt =====
-- The locking discipline of 10practice.c: `flag` and the output are used under `lock_flag`.
use pthread_benchmark.Prelude.{ℕ, ◌≡◌, refl, Bool, true, false, ◌==◌, leb, ◌&&◌, arith}
use pthread_benchmark.Pthread.Races.{Discipline}
use pthread_benchmark.Pthread.OneLock.{Guards, one_lock}
use pthread_benchmark.Turns.{Handler, enter, check, create_a, Local, main, handler, code, begin}

abbrev pub holds_handler : Handler → Bool
holds_handler enter = false
holds_handler check = false
holds_handler _ = true

abbrev pub inside : Local → Bool
inside (main p) = false
inside (handler own i p) = holds_handler p

abbrev pub fits : ℕ → Local → Bool
fits t (main p) = t == 0
fits t (handler own i p) = t == own && (leb 1 own && leb own 3)

pub guards : (t : ℕ) (l : Local) → fits t l ≡ true → Guards fits inside t l (code t l)
unfolding code
guards t (main create_a) h = ground arith
guards t (main _) h = ground arith
guards t (handler own i enter) h = ground arith
guards t (handler own i check) h = ground arith
guards t (handler own i _) h = ground arith

unfoldable pub discipline : Discipline code begin
unfolding one_lock
discipline = one_lock fits inside code begin guards refl refl
