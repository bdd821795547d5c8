-- ===== src/HashInvert/Total.antt =====
-- The total of countOnes.
use pthread_benchmark.Prelude.{
  ℕ, suc, ◌+◌, ◌<◌, ◌≤◌, ◌≡◌, ◌≢◌, refl, ap, true, false, List, ◌==◌, ltb, arith, Bool-cases, inl,
  inr, sum_below, sum_below-suc, sum_below-eq_zero, sum_below-zero, eq_of_==, ne_of_==,
}
use pthread_benchmark.Pthread.Model.{
  Status, unborn, running, sleeping, relocking, done, Event, World, run, boot,
}
use pthread_benchmark.Pthread.Absence.{quiet}
use pthread_benchmark.Pthread.OneLock.{free_of_alone}
use pthread_benchmark.Pthread.Races.{NeverRaces, race_free}
use pthread_benchmark.Pthread.Outline.{Holds}
use pthread_benchmark.Pthread.Accounts.{Pays, amount, run-Booked}
use pthread_benchmark.HashInvert.{
  Progress, found, raise, release, enter, load, store, spawn, await, chosen, Local, main, worker,
  code, begin, reset, ceil_div,
}
use pthread_benchmark.HashInvert.Discipline.{held, fits, absent, counting, discipline}
use pthread_benchmark.HashInvert.Assertions.{words, At, outline, starts}

module _ (k vect_size num_bits : ℕ) (ones : ℕ → ℕ) where
  -- The ones that a thread has counted and not yet added.
  abbrev in_hand : ℕ → Local → ℕ
  in_hand t (worker (release n)) = ones n
  in_hand t (worker (enter z)) = z
  in_hand t (worker (load z)) = z
  in_hand t (worker (store z c)) = z
  in_hand t _ = 0

  abbrev none_paid : ℕ → ℕ
  none_paid t = 0

  -- The ones of the words that threads have taken.
  abbrev handed_out : Progress → ℕ
  handed_out d = sum_below ones d.next_loc

  pays :
      (t : ℕ) (l : Local) (d : Progress)
      → fits k t l ≡ true
      → At k vect_size num_bits ones t (running l) d
      → d.total_ones + in_hand t l ≤ handed_out d
      → Pays in_hand none_paid handed_out Progress.total_ones false 0 t l d
          (counting k vect_size num_bits ones t l)
  unfolding code
  pays t (main (spawn i)) d f h le = ground arith
  pays t (main (await i)) d f h le = ground arith
  pays t (main _) d f h le = refl
  pays t (worker (found n)) d f h le = ground arith
  pays t (worker (raise n c)) d f (e, e', lt) le =
      let next : c + 1 ≡ suc n = omega arith in rw (next, ← e) (omega (arith, sum_below-suc ones n))
  pays t (worker (release n)) d f h le = elim (Bool-cases (ltb 0 (ones n))) [
    | inl some_ ↦ rw some_ refl
    | inr none_ ↦ rw none_ (ground arith)
  ]
  pays t (worker (store z c)) d f h le = omega arith
  pays t (worker _) d f h le = refl

  below : (t : ℕ) (l : Local) → fits k t l ≡ true → t < suc k
  below t (main (spawn i)) f = ground arith
  below t (main (await i)) f = ground arith
  below t (main _) f = ground arith
  below t (worker p) f = ground arith

  quiet-amount : (t : ℕ) (s : Status Local) → quiet s ≡ true → amount in_hand none_paid t s ≡ 0
  quiet-amount t unborn q = refl
  quiet-amount t done q = refl
  quiet-amount t (running l) q = cc
  quiet-amount t (sleeping c m l) q = cc
  quiet-amount t (relocking m l) q = cc

  module _ (es : List Event) where
    abbrev after : World Progress Local
    after = run (counting k vect_size num_bits ones) es (boot reset (λ _. 0) begin)

    booked :
        Holds
          (counting k vect_size num_bits ones)
          begin
          (discipline k vect_size num_bits ones)
          (outline k vect_size num_bits ones)
          after
        × (handed_out after.mem
            ≡ after.mem.total_ones
              + 0
              + sum_below (λ t. amount in_hand none_paid t (after.thread t)) (suc k))
    unfolding discipline outline
    booked =
        run-Booked (counting k vect_size num_bits ones) begin (discipline k vect_size num_bits ones)
          (outline k vect_size num_bits ones) in_hand none_paid handed_out Progress.total_ones false
          0 (suc k) below pays reset (λ _. 0) es (starts k vect_size num_bits ones)
          (sum_below-zero ones) refl

    -- At its test `main` is alone.
    others_quiet :
        (n : ℕ)
        → after.thread 0 ≡ running (main (chosen n))
        → (t : ℕ) → t ≢ 0
        → quiet (after.thread t) ≡ true
    unfolding discipline
    others_quiet n e t ne = booked.0.sound.track 0 t (rw e (ground arith))

    no_hands :
        (n : ℕ)
        → after.thread 0 ≡ running (main (chosen n))
        → (t : ℕ) → amount in_hand none_paid t (after.thread t) ≡ 0
    no_hands n e t = elim (Bool-cases (t == 0)) [
      | inl here ↦ rw (eq_of_== t 0 here, e) refl
      | inr away ↦ quiet-amount t (after.thread t) (others_quiet n e t (ne_of_== t 0 away))
    ]

    -- For at least one thread, any size of the vector and of its words, whatever count_ones gives,
    -- and every schedule: when main tests totalOnes, it is the sum of count_ones over all words,
    -- each counted once; and no schedule leads to a data race.
    pub all_counted :
        0 < k
        → (n : ℕ) → after.thread 0 ≡ running (main (chosen n))
        → (n ≡ sum_below ones (ceil_div vect_size num_bits))
          × NeverRaces (counting k vect_size num_bits ones) begin reset (λ _. 0)
    unfolding outline discipline
    all_counted pos_ n e =
        let at_test : (0 < k → words k vect_size num_bits ones ≤ after.mem.next_loc)
            × (n ≡ after.mem.total_ones) =
          (rw e at (booked.0.each 0)) in
        let bound : after.mem.next_loc ≤ words k vect_size num_bits ones =
          booked.0.unowned 0
            (free_of_alone held (absent k) after (main (chosen n)) 0 booked.0.sound.own
              booked.0.sound.track e (λ t ne. ground arith) refl)
            refl in
        let last : after.mem.next_loc ≡ words k vect_size num_bits ones =
          omega (arith, at_test.0 pos_) in
        (
          omega (
            arith,
            at_test.1,
            booked.1,
            ap (sum_below ones) last,
            sum_below-eq_zero (λ t. amount in_hand none_paid t (after.thread t)) (suc k)
                (no_hands n e),
          ),
          race_free (counting k vect_size num_bits ones) begin
              (discipline k vect_size num_bits ones) reset (λ _. 0),
        )
