-- ===== src/Counters/Discipline.antt =====
-- The locking discipline of the program with the mutex. Its main uses the counter when all threads
-- have been joined.
use pthread_benchmark.Prelude.{
  ℕ, ◌≡◌, ◌≢◌, refl, Bool, true, false, ◌==◌, leb, ltb, ◌&&◌, ◌||◌, not, arith, inr,
}
use pthread_benchmark.Pthread.Roles.{Stays}
use pthread_benchmark.Pthread.Ownership.{Locks}
use pthread_benchmark.Pthread.Absence.{Tracks}
use pthread_benchmark.Pthread.OneLock.{held, policy}
use pthread_benchmark.Pthread.Races.{Respects, Discipline}
use pthread_benchmark.Counters.{
  Main, head, load, store, leave, look, print, over, spawn, await, report, say, finish, Local, main,
  count, code, begin, guarded_setting,
}

abbrev pub inside : Local → Bool
inside (main p) = false
inside (count i load) = true
inside (count i (store n)) = true
inside (count i leave) = true
inside (count i _) = false

-- The places of the program without printing.
abbrev pub fits : ℕ → ℕ → ℕ → Local → Bool
fits k r t (main (spawn i)) = t == 0 && leb i k
fits k r t (main (await i)) = t == 0 && leb i k
fits k r t (main (say n)) = false
fits k r t (main p) = t == 0
fits k r t (count i look) = false
fits k r t (count i (print n)) = false
fits k r t (count i over) = leb 1 t && leb t k && i == r
fits k r t (count i head) = leb 1 t && leb t k && leb i r
fits k r t (count i _) = leb 1 t && leb t k && ltb i r

module _ (k r : ℕ) where
  abbrev pub absent_main : Main → ℕ → Bool
  absent_main (spawn i) j = ltb i j
  absent_main (await i) j = (ltb 0 j && leb j i) || ltb k j
  absent_main _ j = not (j == 0)

  abbrev pub absent : ℕ → Local → ℕ → Bool
  absent t (main p) j = t == 0 && absent_main p j
  absent t _ j = false

  pub stays :
      (t : ℕ) (l : Local)
      → fits k r t l ≡ true
      → Stays (fits k r) t (code (guarded_setting k r) t l)
  unfolding code
  stays t (main (spawn i)) h = ground arith
  stays t (main (await i)) h = ground arith
  stays t (main report) h = λ d. h
  stays t (main (say n)) h = ground arith
  stays t (main finish) h = tt
  stays t (count i head) h = ground arith
  stays t (count i load) h = λ d. h
  stays t (count i _) h = ground arith

  pub locks :
      (t : ℕ) (l : Local)
      → fits k r t l ≡ true
      → Locks (held inside) t l (code (guarded_setting k r) t l)
  unfolding code
  locks t (main (spawn i)) h = ground arith
  locks t (main (await i)) h = ground arith
  locks t (main report) h = λ d m. refl
  locks t (main (say n)) h = ground arith
  locks t (main finish) h = λ m. ground arith
  locks t (count i head) h = ground arith
  locks t (count i load) h = λ d m. refl
  locks t (count i _) h = ground arith

  pub tracks :
      (t : ℕ) (l : Local) → fits k r t l ≡ true → Tracks absent t l (code (guarded_setting k r) t l)
  unfolding code
  tracks t (main (spawn i)) h = ground arith
  tracks t (main (await i)) h = ground arith
  tracks t (main report) h = ground arith
  tracks t (main (say n)) h = ground arith
  tracks t (main finish) h = tt
  tracks t (count i head) h = ground arith
  tracks t (count i _) h = ground arith

  pub respects :
      (t : ℕ) (l : Local)
      → fits k r t l ≡ true
      → Respects (held inside) absent policy t l (code (guarded_setting k r) t l)
  unfolding code
  respects t (main (spawn i)) h = ground arith
  respects t (main (await i)) h = ground arith
  respects t (main report) h = inr (λ j ne. ground arith)
  respects t (main (say n)) h = ground arith
  respects t (main finish) h = tt
  respects t (count i head) h = ground arith
  respects t (count i _) h = ground arith

  pub only_main : (t : ℕ) (l : Local) (j : ℕ) → t ≢ 0 → absent t l j ≡ false
  only_main t (main p) j ne = ground arith
  only_main t (count i p) j ne = refl

  pub begin-fits : fits k r 0 begin ≡ true
  begin-fits = ground arith

  pub begin-free : (m : ℕ) → held inside 0 begin m ≡ false
  begin-free m = ground arith

  unfoldable pub discipline : Discipline (code (guarded_setting k r)) begin
  discipline = record {
    fits = fits k r;
    held = held inside;
    absent = absent;
    policy = policy;
    stays = stays;
    locks = locks;
    tracks = tracks;
    respects = respects;
    only_main = only_main;
    starts = begin-fits;
    free = begin-free;
    present = refl;
  }
