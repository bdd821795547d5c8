-- ===== src/HashInvert/Discipline.antt =====
-- The locking discipline of countOnes: each counter has its mutex, and main reads the total when all
-- other threads have finished.
use pthread_benchmark.Prelude.{
  ℕ, ◌≡◌, ◌≢◌, inr, refl, Bool, true, false, ◌==◌, ltb, leb, not, ◌&&◌, ◌||◌, arith,
}
use pthread_benchmark.Pthread.Model.{Act}
use pthread_benchmark.Pthread.Roles.{Stays}
use pthread_benchmark.Pthread.Ownership.{Locks}
use pthread_benchmark.Pthread.Absence.{Tracks}
use pthread_benchmark.Pthread.Races.{Policy, guarded, Respects, Discipline}
use pthread_benchmark.HashInvert.{
  Worker, look, found, raise, release, load, store, leave, Main, spawn, await, weigh, chosen, Local,
  main, worker, code, begin, Progress,
}

abbrev pub inside : Worker → ℕ → Bool
inside look m = m == 0
inside (found n) m = m == 0
inside (raise n c) m = m == 0
inside (release n) m = m == 0
inside (load z) m = m == 1
inside (store z c) m = m == 1
inside leave m = m == 1
inside _ m = false

abbrev pub held : ℕ → Local → ℕ → Bool
held t (main p) m = false
held t (worker p) m = inside p m

abbrev pub policy : ℕ → Policy
policy x = guarded x

module _ (k : ℕ) where
  abbrev pub fits : ℕ → Local → Bool
  fits t (main (spawn i)) = t == 0 && leb i k
  fits t (main (await i)) = t == 0 && leb i k
  fits t (main _) = t == 0
  fits t (worker p) = leb 1 t && leb t k

  abbrev pub absent_main : Main → ℕ → Bool
  absent_main (spawn i) j = ltb i j
  absent_main (await i) j = (ltb 0 j && leb j i) || ltb k j
  absent_main _ j = not (j == 0)

  abbrev pub absent : ℕ → Local → ℕ → Bool
  absent t (main p) j = t == 0 && absent_main p j
  absent t _ j = false

  module _ (vect_size num_bits : ℕ) (ones : ℕ → ℕ) where
    abbrev pub counting : ℕ → Local → Act Progress Local
    counting = code k vect_size num_bits ones

    pub stays : (t : ℕ) (l : Local) → fits t l ≡ true → Stays fits t (counting t l)
    unfolding code
    stays t (main (spawn i)) h = ground arith
    stays t (main (await i)) h = ground arith
    stays t (main _) h = ground arith
    stays t (worker (found n)) h = ground arith
    stays t (worker (release n)) h = ground arith
    stays t (worker _) h = ground arith

    pub locks : (t : ℕ) (l : Local) → fits t l ≡ true → Locks held t l (counting t l)
    unfolding code
    locks t (main (spawn i)) h = ground arith
    locks t (main (await i)) h = ground arith
    locks t (main _) h = ground arith
    locks t (worker (found n)) h = ground arith
    locks t (worker (release n)) h = ground arith
    locks t (worker _) h = ground arith

    pub tracks : (t : ℕ) (l : Local) → fits t l ≡ true → Tracks absent t l (counting t l)
    unfolding code
    tracks t (main (spawn i)) h = ground arith
    tracks t (main (await i)) h = ground arith
    tracks t (main _) h = ground arith
    tracks t (worker (found n)) h = ground arith
    tracks t (worker (release n)) h = ground arith
    tracks t (worker _) h = ground arith

    pub respects :
        (t : ℕ) (l : Local) → fits t l ≡ true → Respects held absent policy t l (counting t l)
    unfolding code
    respects t (main (spawn i)) h = ground arith
    respects t (main (await i)) h = ground arith
    respects t (main weigh) h = inr (λ j ne. ground arith)
    respects t (main (chosen n)) h = tt
    respects t (worker (found n)) h = ground arith
    respects t (worker (release n)) h = ground arith
    respects t (worker _) h = ground arith

    pub only_main : (t : ℕ) (l : Local) (j : ℕ) → t ≢ 0 → absent t l j ≡ false
    only_main t (main p) j ne = ground arith
    only_main t (worker p) j ne = refl

    pub begin-fits : fits 0 begin ≡ true
    begin-fits = ground arith

    unfoldable pub discipline : Discipline counting begin
    discipline = record {
      fits = fits;
      held = held;
      absent = absent;
      policy = policy;
      stays = stays;
      locks = locks;
      tracks = tracks;
      respects = respects;
      only_main = only_main;
      starts = begin-fits;
      free = λ m. refl;
      present = refl;
    }
