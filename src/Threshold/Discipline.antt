-- ===== src/Threshold/Discipline.antt =====
-- The locking discipline of the counting programs: `count` is used under `count_mutex`, or by
-- `main` when all other threads have finished.
use pthread_benchmark.Prelude.{
  ℕ, ◌+◌, ◌≡◌, ◌≢◌, inl, inr, refl, Bool, true, false, ◌==◌, ltb, leb, not, ◌&&◌, ◌||◌, arith,
  Bool-cases,
}
use pthread_benchmark.Pthread.Roles.{Stays}
use pthread_benchmark.Pthread.Ownership.{Locks}
use pthread_benchmark.Pthread.Absence.{Tracks}
use pthread_benchmark.Pthread.Races.{Policy, guarded, Respects, Discipline}
use pthread_benchmark.Threshold.{
  Setting, Inc, Watch, Main, spawn, await, report, Local, main, inc, watch, code, begin,
  count_mutex,
}

abbrev pub holds_inc : Inc → Bool
holds_inc Inc.head = false
holds_inc _ = true

abbrev pub holds_watch : Watch → Bool
holds_watch Watch.enter = false
holds_watch Watch.over = false
holds_watch _ = true

abbrev pub held : ℕ → Local → ℕ → Bool
held t (main p) m = false
held t (inc i p) m = m == count_mutex && holds_inc p
held t (watch p) m = m == count_mutex && holds_watch p

abbrev pub policy : ℕ → Policy
policy x = guarded count_mutex

module _ (s : Setting) where
  abbrev pub fits : ℕ → Local → Bool
  fits t (main (spawn k)) = t == 0 && leb k (s.counters + 1)
  fits t (main _) = t == 0
  fits t (inc i p) = ltb 1 t && leb t (s.counters + 1)
  fits t (watch p) = t == 1

  abbrev pub absent_main : Main → ℕ → Bool
  absent_main (spawn k) j = ltb k j
  absent_main (await k) j = (ltb 0 j && ltb j k) || ltb (s.counters + 1) j
  absent_main (report c) j = not (j == 0)

  abbrev pub absent : ℕ → Local → ℕ → Bool
  absent t (main p) j = t == 0 && absent_main p j
  absent t _ j = false

  pub stays : (t : ℕ) (l : Local) → fits t l ≡ true → Stays fits t (code s t l)
  unfolding code
  stays t (main (spawn k)) h = ground arith
  stays t (main (await k)) h = ground arith
  stays t (main (report c)) h = ground arith
  stays t (inc i Inc.head) h = ground arith
  stays t (inc i _) h = ground arith
  stays t (watch Watch.enter) h = ground arith
  stays t (watch _) h = ground arith

  pub locks : (t : ℕ) (l : Local) → fits t l ≡ true → Locks held t l (code s t l)
  unfolding code
  locks t (main (spawn k)) h = ground arith
  locks t (main _) h = ground arith
  locks t (inc i Inc.head) h = ground arith
  locks t (inc i Inc.test) h = λ c m. ground arith
  locks t (inc i _) h = ground arith
  locks t (watch Watch.enter) h = ground arith
  locks t (watch _) h = ground arith

  pub tracks : (t : ℕ) (l : Local) → fits t l ≡ true → Tracks absent t l (code s t l)
  unfolding code
  tracks t (main (spawn k)) h = ground arith
  tracks t (main _) h = ground arith
  tracks t (inc i Inc.head) h = ground arith
  tracks t (inc i _) h = ground arith
  tracks t (watch Watch.enter) h = ground arith
  tracks t (watch _) h = ground arith

  pub respects :
      (t : ℕ) (l : Local) → fits t l ≡ true → Respects held absent policy t l (code s t l)
  unfolding code
  respects t (main (spawn k)) h = ground arith
  respects t (main (await k)) h = elim (Bool-cases (leb k (s.counters + 1))) [
    | inl more ↦ rw more tt
    | inr over ↦ rw over (inr (λ j ne. ground arith))
  ]
  respects t (main (report c)) h = ground arith
  respects t (inc i Inc.head) h = ground arith
  respects t (inc i _) h = ground arith
  respects t (watch Watch.enter) h = ground arith
  respects t (watch _) h = ground arith

  pub only_main : (t : ℕ) (l : Local) (k : ℕ) → t ≢ 0 → absent t l k ≡ false
  only_main t (main p) k ne = ground arith
  only_main t (inc i p) k ne = refl
  only_main t (watch p) k ne = refl

  pub begin-fits : fits 0 begin ≡ true
  begin-fits = ground arith

  unfoldable pub discipline : Discipline (code s) begin
  discipline = record {
    fits = fits;
    held = held;
    absent = absent;
    policy = policy;
    stays = stays;
    locks = locks;
    tracks = tracks;
    respects = respects;
    only_main = only_main;
    starts = begin-fits;
    free = λ m. refl;
    present = refl;
  }
