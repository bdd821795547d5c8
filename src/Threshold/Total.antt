-- ===== src/Threshold/Total.antt =====
-- The final count of the counting programs, and when the watcher goes on.
use pthread_benchmark.Prelude.{
  ℕ, zero, suc, ◌+◌, ◌*◌, ◌<◌, ◌≤◌, ◌≡◌, refl, true, false, List, ◌==◌, if◌then◌else◌, arith,
  sum_below, sum_below-zero, sum_below-suc,
}
use pthread_benchmark.Pthread.Races.{DataRace, race_free}
use pthread_benchmark.Pthread.Model.{
  Status, unborn, running, sleeping, relocking, done, Event, run, boot, World,
}
use pthread_benchmark.Pthread.Roles.{fitting}
use pthread_benchmark.Pthread.Outline.{Holds}
use pthread_benchmark.Pthread.Outline.Runs.{run-Holds}
use pthread_benchmark.Pthread.Accounts.{Pays, amount, run-Booked}
use pthread_benchmark.Threshold.{
  Setting, Inc, Watch, spawn, await, report, Local, main, inc, watch, amount_of, code, begin,
}
use pthread_benchmark.Threshold.Discipline.{fits, discipline}
use pthread_benchmark.Threshold.Assertions.{outline, starts, At}

module _ (s : Setting) where
  -- What a thread has added to the count.
  abbrev given : ℕ → Local → ℕ
  given t (main p) = 0
  given t (inc i Inc.head) = i
  given t (inc i Inc.load) = i
  given t (inc i (Inc.store n)) = i
  given t (inc i _) = i + 1
  given t (watch Watch.tell) = amount_of s.bonus
  given t (watch Watch.leave) = amount_of s.bonus
  given t (watch Watch.over) = amount_of s.bonus
  given t (watch _) = 0

  abbrev share : ℕ → ℕ
  share t = if t == 0 then 0 else if t == 1 then amount_of s.bonus else s.rounds

  pays :
      (t : ℕ) (l : Local) (c : ℕ)
      → fits s t l ≡ true
      → At s t (running l) c
      → 0 + given t l ≤ c
      → Pays given share (λ n. n) (λ n. 0) false 0 t l c (code s t l)
  unfolding code
  pays t (main (spawn k)) c f h le = ground arith
  pays t (main (await k)) c f h le = ground arith
  pays t (main (report n)) c f h le = ground arith
  pays t (inc i Inc.head) c f h le = ground arith
  pays t (inc i _) c f h le = ground arith
  pays t (watch Watch.test) c f h le = ground arith
  pays t (watch _) c f h le = ground arith

  below : (t : ℕ) (l : Local) → fits s t l ≡ true → t < suc (suc s.counters)
  below t (main (spawn k)) f = ground arith
  below t (main (await k)) f = ground arith
  below t (main (report k)) f = ground arith
  below t (inc i p) f = ground arith
  below t (watch p) f = ground arith

  main_gives_none : (q : Status Local) → fitting (fits s) 0 q ≡ true → amount given share 0 q ≡ 0
  main_gives_none (running (main p)) f = refl
  main_gives_none (running (inc i p)) f = ground arith
  main_gives_none (running (watch p)) f = ground arith
  main_gives_none (sleeping v m (main p)) f = refl
  main_gives_none (sleeping v m (inc i p)) f = ground arith
  main_gives_none (sleeping v m (watch p)) f = ground arith
  main_gives_none (relocking m (main p)) f = refl
  main_gives_none (relocking m (inc i p)) f = ground arith
  main_gives_none (relocking m (watch p)) f = ground arith
  main_gives_none unborn f = refl
  main_gives_none done f = refl

-- `main` gives nothing, thread 1 gives `b`, and each of `k` more threads gives `r`.
sum_of_shares :
    (g : ℕ → ℕ) (b r k : ℕ)
    → g 0 ≡ 0
    → g 1 ≡ b
    → ((t : ℕ) → 1 < t → t ≤ k + 1 → g t ≡ r)
    → sum_below g (suc (suc k)) ≡ k * r + b
sum_of_shares g b r zero z o h =
    omega (arith, sum_below-suc g 1, sum_below-suc g 0, sum_below-zero g)
sum_of_shares g b r (suc k) z o h = omega (
  arith,
  sum_below-suc g (suc (suc k)),
  h (suc (suc k)) (omega arith) (omega arith),
  sum_of_shares g b r k z o (λ t lo hi. h t lo (omega arith)),
)

module _ (s : Setting) (es : List Event) where
  abbrev after : World ℕ Local
  after = run (code s) es (boot 0 (λ _. 0) begin)

  -- For every setting and schedule: when the watcher and all counting threads have finished, the
  -- count is the number of all increments plus the bonus.
  pub final_count :
      ((t : ℕ) → 0 < t → t ≤ s.counters + 1 → after.thread t ≡ done)
      → after.mem ≡ s.counters * s.rounds + amount_of s.bonus
  unfolding discipline outline
  final_count finished = omega (
    arith,
    b.1,
    sum_of_shares (λ t. amount (given s) (share s) t (after.thread t)) (amount_of s.bonus) s.rounds
        s.counters (main_gives_none s (after.thread 0) (b.0.sound.placed 0))
        (rw (finished 1 (omega arith) (omega arith)) refl)
        (λ t lo hi. rw (finished t (omega arith) hi) (ground arith)),
  )
    where
      b :
          Holds (code s) begin (discipline s) (outline s) after
          × (after.mem
              ≡ 0
                + sum_below
                    (λ t. amount (given s) (share s) t (after.thread t))
                    (suc (suc s.counters)))
      b =
          run-Booked (code s) begin (discipline s) (outline s) (given s) (share s) (λ n. n) (λ n. 0)
            false 0 (suc (suc s.counters)) (below s) (pays s) 0 (λ _. 0) es (starts s) refl refl

  -- For every setting and schedule: where the watcher is about to leave its critical section, the
  -- count has reached the limit, and there is no data race.
  pub watch_sees_limit :
      after.thread 1 ≡ running (watch Watch.leave)
      → (s.limit ≤ after.mem) × (¬ DataRace (code s) after)
  unfolding outline
  watch_sees_limit e = (
    (rw e at
        ((run-Holds (code s) begin (discipline s) (outline s) 0 (λ _. 0) es (starts s)).each 1)),
    race_free (code s) begin (discipline s) 0 (λ _. 0) es,
  )
