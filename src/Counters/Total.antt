-- ===== src/Counters/Total.antt =====
-- The final count with the mutex.
use pthread_benchmark.Prelude.{
  ℕ, zero, suc, ◌+◌, ◌*◌, ◌<◌, ◌≤◌, ◌≡◌, ◌≢◌, refl, true, false, List, ◌==◌, if◌then◌else◌, arith,
  sum_below, sum_below-zero, sum_below-suc,
}
use pthread_benchmark.Pthread.Model.{
  Act, Status, unborn, running, sleeping, relocking, done, Event, run, boot, World,
}
use pthread_benchmark.Pthread.Roles.{fitting}
use pthread_benchmark.Pthread.OneLock.{held}
use pthread_benchmark.Pthread.Outline.{Apart, Checks, Outline, Holds}
use pthread_benchmark.Pthread.Outline.Runs.{Starts}
use pthread_benchmark.Pthread.Accounts.{Pays, amount, run-Booked}
use pthread_benchmark.Counters.{
  Tally, head, load, store, leave, look, print, over, spawn, await, report, say, finish, Local,
  main, count, code, begin, untouched, guarded_setting,
}
use pthread_benchmark.Counters.Discipline.{inside, fits, absent, discipline}

abbrev Inv : ℕ → Tally → Type 0
Inv m d = Unit

-- Who has read the counter and holds the mutex knows it.
abbrev At : ℕ → Status Local → Tally → Type 0
At t (running (count i (store n))) d = n ≡ d.counter
At t (running l) d = Unit
At t (sleeping q m l) d = ⊥
At t (relocking m l) d = ⊥
At t _ d = Unit

module _ (k r : ℕ) where
  abbrev guarded : ℕ → Local → Act Tally Local
  guarded = code (guarded_setting k r)

  frame :
      (t i n : ℕ) (d d' : Tally) (j : ℕ) (s : Status Local)
      → j ≢ t
      → Apart (fits k r) (held inside) (absent k r) t (count i (store n)) j s
      → At j s d
      → At j s d'
  frame t i n d d' j (running (count i' (store n'))) ne a h = ground (arith, a.disjoint 0)
  frame t i n d d' j (running (count i' head)) ne a h = tt
  frame t i n d d' j (running (count i' load)) ne a h = tt
  frame t i n d d' j (running (count i' leave)) ne a h = tt
  frame t i n d d' j (running (count i' look)) ne a h = tt
  frame t i n d d' j (running (count i' (print n'))) ne a h = tt
  frame t i n d d' j (running (count i' over)) ne a h = tt
  frame t i n d d' j (running (main p)) ne a h = tt
  frame t i n d d' j (sleeping q m l) ne a h = h
  frame t i n d d' j (relocking m l) ne a h = h
  frame t i n d d' j unborn ne a h = tt
  frame t i n d d' j done ne a h = tt

  unfoldable Checked : ℕ → Local → Tally → Act Tally Local → Type 0
  Checked t l d = Checks (fits k r) (held inside) (absent k r) Inv At t l d

  checks :
      (t : ℕ) (l : Local) (d : Tally)
      → fits k r t l ≡ true
      → At t (running l) d
      → Checked t l d (guarded t l)
  unfolding code Checked
  checks t (main (spawn i)) d f h = ground arith
  checks t (main (await i)) d f h = ground arith
  checks t (main report) d f h = tt
  checks t (main (say n)) d f h = ground arith
  checks t (main finish) d f h = tt
  checks t (count i head) d f h = ground arith
  checks t (count i load) d f h = refl
  checks t (count i (store n)) d f h =
      (tt, frame t i n d (record d { counter = n + 1 }), λ m unheld v. tt)
  checks t (count i leave) d f h = (tt, tt)
  checks t (count i look) d f h = tt
  checks t (count i (print n)) d f h = ground arith
  checks t (count i over) d f h = tt

  outline : Outline guarded begin (discipline k r)
  unfolding Checked discipline
  outline = record {
    inv = Inv;
    at = At;
    checks = checks;
    wakes = λ t c m l d h. h;
    returns = λ t m l d h v. absurd h;
  }

  starts : Starts guarded begin (discipline k r) outline untouched
  unfolding outline
  starts = record { unowned = λ m. tt; main = tt; others = λ t ne. tt }

  -- What a thread has added to the counter.
  abbrev given : ℕ → Local → ℕ
  given t (main p) = 0
  given t (count i leave) = i + 1
  given t (count i _) = i

  abbrev part : ℕ → ℕ
  part t = if t == 0 then 0 else r

  pays :
      (t : ℕ) (l : Local) (d : Tally)
      → fits k r t l ≡ true
      → At t (running l) d
      → 0 + given t l ≤ d.counter
      → Pays given part Tally.counter (λ d. 0) false 0 t l d (guarded t l)
  unfolding code
  pays t (main (spawn i)) d f h le = ground arith
  pays t (main (await i)) d f h le = ground arith
  pays t (main report) d f h le = ground arith
  pays t (main (say n)) d f h le = ground arith
  pays t (main finish) d f h le = ground arith
  pays t (count i head) d f h le = ground arith
  pays t (count i load) d f h le = ground arith
  pays t (count i (store n)) d f h le = ground arith
  pays t (count i leave) d f h le = ground arith
  pays t (count i look) d f h le = ground arith
  pays t (count i (print n)) d f h le = ground arith
  pays t (count i over) d f h le = ground arith

  below : (t : ℕ) (l : Local) → fits k r t l ≡ true → t < suc k
  below t (main (say n)) f = ground arith
  below t (main _) f = ground arith
  below t (count i look) f = ground arith
  below t (count i (print n)) f = ground arith
  below t (count i over) f = ground arith
  below t (count i head) f = ground arith
  below t (count i _) f = ground arith

  main_gives_none :
      (q : Status Local) (d : Tally)
      → At 0 q d
      → fitting (fits k r) 0 q ≡ true
      → amount given part 0 q ≡ 0
  main_gives_none (running (main p)) d h f = refl
  main_gives_none (running (count i head)) d h f = ground arith
  main_gives_none (running (count i over)) d h f = ground arith
  main_gives_none (running (count i look)) d h f = ground arith
  main_gives_none (running (count i (print n))) d h f = ground arith
  main_gives_none (running (count i _)) d h f = ground arith
  main_gives_none (sleeping v m l) d h f = absurd h
  main_gives_none (relocking m l) d h f = absurd h
  main_gives_none unborn d h f = refl
  main_gives_none done d h f = refl

-- `main` gives nothing, and each of `k` threads `r`.
sum_of_parts :
    (g : ℕ → ℕ) (r k : ℕ)
    → g 0 ≡ 0
    → ((t : ℕ) → 0 < t → t ≤ k → g t ≡ r)
    → sum_below g (suc k) ≡ k * r
sum_of_parts g r zero z h = omega (arith, sum_below-suc g 0, sum_below-zero g)
sum_of_parts g r (suc k) z h = omega (
  arith,
  sum_below-suc g (suc k),
  h (suc k) (omega arith) (omega arith),
  sum_of_parts g r k z (λ t lo hi. h t lo (omega arith)),
)

module _ (k r : ℕ) (es : List Event) where
  abbrev after : World Tally Local
  after = run (guarded k r) es (boot untouched (λ _. 0) begin)

  -- With the mutex, for any number of threads and rounds and every schedule: when all threads have
  -- finished, the counter is their product.
  pub counted : ((t : ℕ) → 0 < t → t ≤ k → after.thread t ≡ done) → after.mem.counter ≡ k * r
  unfolding discipline outline
  counted finished = omega (
    arith,
    b.1,
    sum_of_parts (λ t. amount (given k r) (part k r) t (after.thread t)) r k
        (main_gives_none k r (after.thread 0) after.mem (b.0.each 0) (b.0.sound.placed 0))
        (λ t lo hi. rw (finished t lo hi) (ground arith)),
  )
    where
      b :
          Holds (guarded k r) begin (discipline k r) (outline k r) after
          × (after.mem.counter
              ≡ 0 + sum_below (λ t. amount (given k r) (part k r) t (after.thread t)) (suc k))
      b =
          run-Booked (guarded k r) begin (discipline k r) (outline k r) (given k r) (part k r)
            Tally.counter (λ d. 0) false 0 (suc k) (below k r) (pays k r) untouched (λ _. 0) es
            (starts k r) refl refl
