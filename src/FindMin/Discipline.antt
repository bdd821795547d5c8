-- ===== src/FindMin/Discipline.antt =====
-- The locking discipline of find_min: one lock, which main does not need after its joins.
use pthread_benchmark.Prelude.{
  ℕ, ◌≡◌, ◌≢◌, refl, Bool, true, false, ◌==◌, ltb, leb, ◌&&◌, ◌||◌, not, arith, inr,
}
use pthread_benchmark.Prelude.Int.{ℤ}
use pthread_benchmark.Pthread.Model.{Act}
use pthread_benchmark.Pthread.Roles.{Stays}
use pthread_benchmark.Pthread.Ownership.{Locks}
use pthread_benchmark.Pthread.Absence.{Tracks}
use pthread_benchmark.Pthread.Races.{Policy, guarded, Respects, Discipline}
use pthread_benchmark.FindMin.{
  Search, scan, test, store, leave, Main, spawn, await, look, print, Local, main, search, code,
  begin,
}

abbrev pub policy : ℕ → Policy
policy x = guarded 0

abbrev pub inside : Search → Bool
inside (test v) = true
inside (store v) = true
inside leave = true
inside _ = false

abbrev pub held : ℕ → Local → ℕ → Bool
held t (search my_id p) m = 0 == m && inside p
held t (main p) m = false

module _ (n size : ℕ) (list : ℕ → ℤ) where
  abbrev pub fits : ℕ → Local → Bool
  fits t (main (spawn i)) = t == 0 && leb i n
  fits t (main (await i)) = t == 0 && leb i n
  fits t (main _) = t == 0
  fits t (search my_id p) = t == my_id && (ltb 0 my_id && leb my_id n)

  abbrev pub absent_main : Main → ℕ → Bool
  absent_main (spawn i) j = ltb i j
  absent_main (await i) j = (ltb 0 j && leb j i) || ltb n j
  absent_main _ j = not (j == 0)

  abbrev pub absent : ℕ → Local → ℕ → Bool
  absent t (main p) j = t == 0 && absent_main p j
  absent t _ j = false

  abbrev pub searching : ℕ → Local → Act ℤ Local
  searching = code n size list

  pub stays : (t : ℕ) (l : Local) → fits t l ≡ true → Stays fits t (searching t l)
  unfolding code
  stays t (main (spawn i)) h = ground arith
  stays t (main (await i)) h = ground arith
  stays t (main look) h = λ d. h
  stays t (main (print v)) h = tt
  stays t (search i (test v)) h = λ d. ground arith
  stays t (search i p) h = ground arith

  pub locks : (t : ℕ) (l : Local) → fits t l ≡ true → Locks held t l (searching t l)
  unfolding code
  locks t (main (spawn i)) h = ground arith
  locks t (main (await i)) h = ground arith
  locks t (main look) h = λ d m. refl
  locks t (main (print v)) h = λ m. refl
  locks t (search i (test v)) h = λ d m. ground arith
  locks t (search i (scan c v)) h = ground arith
  locks t (search i p) h = ground arith

  pub tracks : (t : ℕ) (l : Local) → fits t l ≡ true → Tracks absent t l (searching t l)
  unfolding code
  tracks t (main (spawn i)) h = ground arith
  tracks t (main (await i)) h = ground arith
  tracks t (main look) h = ground arith
  tracks t (main (print v)) h = tt
  tracks t (search i (test v)) h = ground arith
  tracks t (search i p) h = ground arith

  pub respects :
      (t : ℕ) (l : Local) → fits t l ≡ true → Respects held absent policy t l (searching t l)
  unfolding code
  respects t (main (spawn i)) h = ground arith
  respects t (main (await i)) h = ground arith
  respects t (main look) h = inr (λ j ne. ground arith)
  respects t (main (print v)) h = tt
  respects t (search i (test v)) h = ground arith
  respects t (search i p) h = ground arith

  pub only_main : (t : ℕ) (l : Local) (j : ℕ) → t ≢ 0 → absent t l j ≡ false
  only_main t (main p) j ne = ground arith
  only_main t (search i p) j ne = refl

  pub begin-fits : fits 0 begin ≡ true
  begin-fits = ground arith

  unfoldable pub discipline : Discipline searching begin
  discipline = record {
    fits = fits;
    held = held;
    absent = absent;
    policy = policy;
    stays = stays;
    locks = locks;
    tracks = tracks;
    respects = respects;
    only_main = only_main;
    starts = begin-fits;
    free = λ m. refl;
    present = refl;
  }
