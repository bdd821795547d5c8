-- ===== src/HashTable/Discipline.antt =====
-- The locking discipline of put_phase: each bucket has its lock.
use pthread_benchmark.Prelude.{
  ℕ, suc, ◌≡◌, ◌≢◌, refl, Bool, true, false, ◌==◌, ltb, leb, ◌&&◌, ◌||◌, not, arith,
}
use pthread_benchmark.Pthread.Model.{Act}
use pthread_benchmark.Pthread.Roles.{Stays}
use pthread_benchmark.Pthread.Ownership.{Locks}
use pthread_benchmark.Pthread.Absence.{Tracks}
use pthread_benchmark.Pthread.Races.{Policy, guarded, Respects, Discipline}
use pthread_benchmark.HashTable.{
  Table, head, Main, spawn, await, inserted, Local, main, put, bucket_of, code, begin,
}

abbrev pub policy : ℕ → Policy
policy x = guarded x

module _ (n size : ℕ) (keys : ℕ → ℕ) where
  abbrev pub held : ℕ → Local → ℕ → Bool
  held t (put tid key head) m = false
  held t (put tid key _) m = bucket_of (keys key) == m
  held t (main p) m = false

  abbrev pub fits : ℕ → Local → Bool
  fits t (main (spawn i)) = t == 0 && leb i n
  fits t (main (await i)) = t == 0 && leb i n
  fits t (main inserted) = t == 0
  fits t (put tid key p) = t == suc tid && ltb tid n

  abbrev pub absent_main : Main → ℕ → Bool
  absent_main (spawn i) j = ltb i j
  absent_main (await i) j = (ltb 0 j && leb j i) || ltb n j
  absent_main inserted j = not (j == 0)

  abbrev pub absent : ℕ → Local → ℕ → Bool
  absent t (main p) j = t == 0 && absent_main p j
  absent t _ j = false

  abbrev pub filling : ℕ → Local → Act Table Local
  filling = code n size keys

  pub stays : (t : ℕ) (l : Local) → fits t l ≡ true → Stays fits t (filling t l)
  unfolding code
  stays t (main (spawn i)) h = ground arith
  stays t (main (await i)) h = ground arith
  stays t (main inserted) h = tt
  stays t (put tid key head) h = ground arith
  stays t (put tid key _) h = ground arith

  pub locks : (t : ℕ) (l : Local) → fits t l ≡ true → Locks held t l (filling t l)
  unfolding code
  locks t (main (spawn i)) h = ground arith
  locks t (main (await i)) h = ground arith
  locks t (main inserted) h = λ m. refl
  locks t (put tid key head) h = ground arith
  locks t (put tid key _) h = ground arith

  pub tracks : (t : ℕ) (l : Local) → fits t l ≡ true → Tracks absent t l (filling t l)
  unfolding code
  tracks t (main (spawn i)) h = ground arith
  tracks t (main (await i)) h = ground arith
  tracks t (main inserted) h = tt
  tracks t (put tid key head) h = ground arith
  tracks t (put tid key _) h = ground arith

  pub respects :
      (t : ℕ) (l : Local) → fits t l ≡ true → Respects held absent policy t l (filling t l)
  unfolding code
  respects t (main (spawn i)) h = ground arith
  respects t (main (await i)) h = ground arith
  respects t (main inserted) h = tt
  respects t (put tid key head) h = ground arith
  respects t (put tid key _) h = ground arith

  pub only_main : (t : ℕ) (l : Local) (j : ℕ) → t ≢ 0 → absent t l j ≡ false
  only_main t (main p) j ne = ground arith
  only_main t (put tid key p) j ne = refl

  pub begin-fits : fits 0 begin ≡ true
  begin-fits = ground arith

  unfoldable pub discipline : Discipline filling begin
  discipline = record {
    fits = fits;
    held = held;
    absent = absent;
    policy = policy;
    stays = stays;
    locks = locks;
    tracks = tracks;
    respects = respects;
    only_main = only_main;
    starts = begin-fits;
    free = λ m. refl;
    present = refl;
  }
