-- ===== src/ArraySum/Discipline.antt =====
-- The locking discipline of the array program: each result has its mutex, the array is written before
-- there are threads, and main reads the results when all other threads have finished.
use pthread_benchmark.Prelude.{
  ℕ, suc, ◌-◌, ◌+◌, ◌*◌, ◌≡◌, ◌≢◌, inr, refl, Bool, true, false, ◌==◌, ltb, leb, not, ◌&&◌, ◌||◌,
  arith, Bool-cases, inl, if◌then◌else◌,
}
use pthread_benchmark.Prelude.Int.{ℤ}
use pthread_benchmark.Pthread.Model.{Act}
use pthread_benchmark.Pthread.Roles.{Stays}
use pthread_benchmark.Pthread.Ownership.{Locks}
use pthread_benchmark.Pthread.Absence.{Tracks}
use pthread_benchmark.Pthread.Races.{Policy, guarded, frozen, private, Respects, Discipline}
use pthread_benchmark.ArraySum.{
  Shared, Worker, scan, sum_load, sum_store, sum_leave, min_test, min_store, min_leave, max_test,
  max_store, max_leave, Main, fill, spawn, await, sum_look, sum_print, max_look, max_print,
  min_look, min_print, finish, Local, main, worker, code, begin,
}

abbrev pub inside : Worker → ℕ → Bool
inside sum_load j = j == 0
inside (sum_store s) j = j == 0
inside sum_leave j = j == 0
inside min_test j = j == 1
inside min_store j = j == 1
inside min_leave j = j == 1
inside max_test j = j == 2
inside max_store j = j == 2
inside max_leave j = j == 2
inside _ j = false

abbrev pub held : ℕ → Local → ℕ → Bool
held t (main p) j = false
held t (worker lo p q) j = inside q j

abbrev pub policy : ℕ → Policy
policy x = if x == 3 then frozen else if x == 4 then private 0 else guarded x

module _ (n m : ℕ) where
  abbrev pub fits : ℕ → Local → Bool
  fits t (main (spawn i t1)) = t == 0 && leb i n && t1 == i * suc m
  fits t (main (await i)) = t == 0 && leb i n
  fits t (main _) = t == 0
  fits t (worker lo p q) = leb 1 t && leb t n && lo == (t - 1) * suc m

  abbrev pub absent_main : Main → ℕ → Bool
  absent_main (fill i) j = not (j == 0)
  absent_main (spawn i t1) j = ltb i j
  absent_main (await i) j = (ltb 0 j && leb j i) || ltb n j
  absent_main _ j = not (j == 0)

  abbrev pub absent : ℕ → Local → ℕ → Bool
  absent t (main p) j = t == 0 && absent_main p j
  absent t _ j = false

  module _ (g : ℕ → ℤ) where
    abbrev pub summing : ℕ → Local → Act Shared Local
    summing = code n m g

    next_part : (i t1 : ℕ) → (t1 == i * suc m) ≡ true → (t1 + 1 + m == suc i * suc m) ≡ true
    next_part i t1 e = ground arith

    own_part : (i t1 : ℕ) → (t1 == i * suc m) ≡ true → (t1 == (suc i - 1) * suc m) ≡ true
    own_part i t1 e = let same : suc i - 1 ≡ i = omega arith in rw same e

    pub stays : (t : ℕ) (l : Local) → fits t l ≡ true → Stays fits t (summing t l)
    unfolding code
    stays t (main (fill i)) h = ground arith
    stays t (main (spawn i t1)) h = elim (Bool-cases (ltb i n)) [
      | inl more ↦ rw more (ground (arith, next_part i t1), ground (arith, own_part i t1))
      | inr last ↦ rw last (ground arith)
    ]
    stays t (main (await i)) h = ground arith
    stays t (main _) h = ground arith
    stays t (worker lo p (scan i)) h = ground arith
    stays t (worker lo p min_test) h = λ d. ground arith
    stays t (worker lo p max_test) h = λ d. ground arith
    stays t (worker lo p _) h = ground arith

    pub locks : (t : ℕ) (l : Local) → fits t l ≡ true → Locks held t l (summing t l)
    unfolding code
    locks t (main (fill i)) h = ground arith
    locks t (main (spawn i t1)) h = ground arith
    locks t (main (await i)) h = ground arith
    locks t (main _) h = ground arith
    locks t (worker lo p (scan i)) h = ground arith
    locks t (worker lo p min_test) h = λ d j. ground arith
    locks t (worker lo p max_test) h = λ d j. ground arith
    locks t (worker lo p _) h = ground arith

    pub tracks : (t : ℕ) (l : Local) → fits t l ≡ true → Tracks absent t l (summing t l)
    unfolding code
    tracks t (main (fill i)) h = ground arith
    tracks t (main (spawn i t1)) h = ground arith
    tracks t (main (await i)) h = ground arith
    tracks t (main _) h = ground arith
    tracks t (worker lo p (scan i)) h = ground arith
    tracks t (worker lo p min_test) h = λ d k. ground arith
    tracks t (worker lo p max_test) h = λ d k. ground arith
    tracks t (worker lo p _) h = ground arith

    pub respects :
        (t : ℕ) (l : Local) → fits t l ≡ true → Respects held absent policy t l (summing t l)
    unfolding code
    respects t (main (fill i)) h = elim (Bool-cases (ltb i (n * suc m))) [
      | inl more ↦ rw more (λ j ne. ground arith)
      | inr last ↦ rw last tt
    ]
    respects t (main (spawn i t1)) h = ground arith
    respects t (main (await i)) h = ground arith
    respects t (main sum_look) h = inr (λ j ne. ground arith)
    respects t (main max_look) h = inr (λ j ne. ground arith)
    respects t (main min_look) h = inr (λ j ne. ground arith)
    respects t (main (sum_print x)) h = inr (λ j ne. ground arith)
    respects t (main (max_print x)) h = inr (λ j ne. ground arith)
    respects t (main (min_print x)) h = inr (λ j ne. ground arith)
    respects t (main finish) h = tt
    respects t (worker lo p (scan i)) h = ground arith
    respects t (worker lo p _) h = ground arith

    pub only_main : (t : ℕ) (l : Local) (j : ℕ) → t ≢ 0 → absent t l j ≡ false
    only_main t (main p) j ne = ground arith
    only_main t (worker lo p q) j ne = refl

    unfoldable pub discipline : Discipline summing begin
    discipline = record {
      fits = fits;
      held = held;
      absent = absent;
      policy = policy;
      stays = stays;
      locks = locks;
      tracks = tracks;
      respects = respects;
      only_main = only_main;
      starts = refl;
      free = λ j. refl;
      present = refl;
    }
