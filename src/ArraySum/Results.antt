-- ===== src/ArraySum/Results.antt =====
-- What the array program prints.
use pthread_benchmark.Prelude.{
  ℕ, suc, ◌+◌, ◌-◌, ◌*◌, ◌≤◌, ◌≡◌, inl, inr, refl, sym, ap, ◌∙◌, true, false, List, [], ◌∷◌, ◌++◌,
  ◌==◌, ltb, leb, arith, Bool-cases, eq_of_==, subst,
}
use pthread_benchmark.Prelude.Int.{ℤ, ◌+ℤ◌, ◌≤ℤ◌, ltb_ℤ}
use pthread_benchmark.Pthread.Model.{Act, running, World, Event, run, boot}
use pthread_benchmark.Pthread.OneLock.{free_of_alone}
use pthread_benchmark.Pthread.Races.{NeverRaces, race_free}
use pthread_benchmark.Pthread.Outline.{Checks, Outline, Holds}
use pthread_benchmark.Pthread.Outline.Runs.{Starts, run-Holds}
use pthread_benchmark.ArraySum.{
  Shared, Partial, scan, sum_enter, sum_load, sum_store, sum_leave, min_enter, min_test, min_store,
  min_leave, max_enter, max_test, max_store, max_leave, over, fill, spawn, await, sum_look,
  sum_print, max_look, max_print, min_look, min_print, finish, Local, main, worker, code, begin,
  zeroed, take,
}
use pthread_benchmark.ArraySum.Parts.{
  scanned, start_part, whole_part, take-scanned, part_sum, marked_sum-none, marked_sum-all,
  inside_whole, lowest_of_parts, greatest_of_parts, sum_ints, IsLowest, IsGreatest,
}
use pthread_benchmark.ArraySum.Discipline.{held, fits, absent, summing, discipline}
use pthread_benchmark.ArraySum.Assertions.{size, Inv, Filled, Joined, At}
use pthread_benchmark.ArraySum.Writes.{
  add_Improves, low_Improves, high_Improves, add_Inv, low_Inv, high_Inv,
}
use pthread_benchmark.ArraySum.Frames.{Improves-Inv, frame, quiet_frame, Joined-out}

module _ (n m : ℕ) (g : ℕ → ℤ) where
  unfoldable Checked : ℕ → Local → Shared → Act Shared Local → Type 0
  Checked t l d = Checks (fits n m) held (absent n m) (Inv n m g) (At n m g) t l d

  next_part :
      (t lo : ℕ) (p : Partial) (i : ℕ) (d : Shared)
      → fits n m t (worker lo p (scan i)) ≡ true
      → lo ≤ i
      → p ≡ scanned g lo (i - lo)
      → Filled n m g (size n m g) d
      → leb i (lo + m) ≡ true
      → take p (d.arr i) ≡ scanned g lo (suc i - lo)
  next_part t lo p i d f le own filled more =
      let inside = inside_whole g m n t (i - lo) (ground arith) (ground arith) (ground arith) in
      ap (λ q. take q (d.arr i)) own
      ∙ ap (take (scanned g lo (i - lo))) (filled.entry i (ground (arith, inside)))
      ∙ take-scanned g lo i le

  checks :
      (t : ℕ) (l : Local) (d : Shared)
      → fits n m t l ≡ true
      → At n m g t (running l) d
      → Checked t l d (summing n m g t l)
  unfolding code Checked
  checks t (main (fill i)) d f (filled, empty) = elim (Bool-cases (ltb i (size n m g))) [
    | inl more ↦ rw more (
      (record { entry = λ j lt. ground (arith, filled.entry j) }, empty),
      quiet_frame n m g t (fill i) d _ refl refl refl (λ j ne. ground arith),
      λ j e v. v,
    )
    | inr last ↦ rw last (record { entry = λ j lt. filled.entry j (ground arith) }, empty)
  ]
  checks t (main (spawn i t1)) d f h = elim (Bool-cases (ltb i n)) [
    | inl more ↦ rw more (h, λ new. (omega arith, omega arith, start_part g t1, new, h.0))
    | inr last ↦ rw last (record { each = λ j lo hi. absurd (omega arith) }, h.1)
  ]
  checks t (main (await i)) d f h = elim (Bool-cases (ltb i n)) [
    | inl more ↦ rw more (λ q. (
      record {
        each = λ j lo hi. elim (Bool-cases (j == suc i)) [
          | inl e ↦ rw (eq_of_== j (suc i) e) (q (omega arith))
          | inr ne ↦ h.0.each j lo (ground arith)
        ];
      },
      h.1,
    ))
    | inr last ↦ rw last (record { each = λ j lo hi. h.0.each j lo (ground arith) }, h.1)
  ]
  checks t (main sum_look) d f h = (h.0, h.1, refl)
  checks t (main (sum_print x)) d f h = (
    (Joined-out n m g n (d.out ++ (x ∷ [])) d h.0, rw (h.1, h.2) refl),
    quiet_frame n m g t (sum_print x) d _ refl refl refl (λ j ne. ground arith),
    λ j e v. v,
  )
  checks t (main max_look) d f h = (h.0, h.1, refl)
  checks t (main (max_print x)) d f h = (
    (Joined-out n m g n (d.out ++ (x ∷ [])) d h.0, rw (h.1, h.2) refl),
    quiet_frame n m g t (max_print x) d _ refl refl refl (λ j ne. ground arith),
    λ j e v. v,
  )
  checks t (main min_look) d f h = (h.0, h.1, refl)
  checks t (main (min_print x)) d f h = (
    (Joined-out n m g n (d.out ++ (x ∷ [])) d h.0, rw (h.1, h.2) refl),
    quiet_frame n m g t (min_print x) d _ refl refl refl (λ j ne. ground arith),
    λ j e v. v,
  )
  checks t (main finish) d f h = λ gt. absurd (ground arith)
  checks t (worker lo p (scan i)) d f (le, hi, own, new, filled) =
      elim (Bool-cases (leb i (lo + m))) [
        | inl more ↦
            rw more
              (omega arith, ground arith, next_part t lo p i d f le own filled more, new, filled)
        | inr last ↦ rw last (own ∙ whole_part g m t lo i (ground arith) le hi last, new)
      ]
  checks t (worker lo p sum_enter) d f h = λ v. (h.0, h.1, v)
  checks t (worker lo p sum_load) d f h = (h.0, h.1, h.2, refl)
  checks t (worker lo p (sum_store s)) d f h = (
    (h.0, ground arith, add_Inv n m g t lo p d f h.0 s h.1 h.2 h.3),
    frame n m g t 0 d _ (add_Improves n m g t lo p d f h.0 (s +ℤ p.local_sum))
        (worker lo p (sum_store s)) (ground arith) refl,
    λ j unheld v.
        Improves-Inv n m g t 0 d _ (add_Improves n m g t lo p d f h.0 (s +ℤ p.local_sum)) j
          (ground arith) v,
  )
  checks t (worker lo p sum_leave) d f h = (h.2, (h.0, h.1))
  checks t (worker lo p min_enter) d f h = λ v. (h.0, h.1, v)
  checks t (worker lo p min_test) d f h = elim (Bool-cases (ltb_ℤ p.local_min d.min)) [
    | inl less ↦ rw less (h.0, h.1, h.2, less)
    | inr more ↦ rw more (h.0, h.1, h.2, ground arith)
  ]
  checks t (worker lo p min_store) d f h = (
    (h.0, h.1, low_Inv n m g t lo p d f h.0 h.2 h.3, omega arith),
    frame n m g t 1 d _ (low_Improves n m g t lo p d f h.0 h.3) (worker lo p min_store)
        (ground arith) refl,
    λ j unheld v.
        Improves-Inv n m g t 1 d _ (low_Improves n m g t lo p d f h.0 h.3) j (ground arith) v,
  )
  checks t (worker lo p min_leave) d f h = (h.2, (h.0, h.1, h.3))
  checks t (worker lo p max_enter) d f h = λ v. (h.0, h.1, h.2, v)
  checks t (worker lo p max_test) d f h = elim (Bool-cases (ltb_ℤ d.max p.local_max)) [
    | inl more ↦ rw more (h.0, h.1, h.2, h.3, more)
    | inr less ↦ rw less (h.0, h.1, h.2, h.3, ground arith)
  ]
  checks t (worker lo p max_store) d f h = (
    (h.0, h.1, h.2, high_Inv n m g t lo p d f h.0 h.3 h.4, omega arith),
    frame n m g t 2 d _ (high_Improves n m g t lo p d f h.0 h.4) (worker lo p max_store)
        (ground arith) refl,
    λ j unheld v.
        Improves-Inv n m g t 2 d _ (high_Improves n m g t lo p d f h.0 h.4) j (ground arith) v,
  )
  checks t (worker lo p max_leave) d f h = (
    h.3,
    record {
      summed = h.1;
      low = subst (λ q. d.min ≤ℤ q.local_min) h.0 h.2;
      high = subst (λ q. q.local_max ≤ℤ d.max) h.0 h.4;
    },
  )
  checks t (worker lo p over) d f h = λ gt. h

  outline : Outline (summing n m g) begin (discipline n m g)
  unfolding Checked discipline
  outline = record {
    inv = Inv n m g;
    at = At n m g;
    checks = checks;
    wakes = λ t c j l d h. h;
    returns = λ t j l d h v. absurd h;
  }

  starts : Starts (summing n m g) begin (discipline n m g) outline zeroed
  unfolding outline
  starts = record {
    unowned = λ j. (
      λ z. sym (marked_sum-none (part_sum g m) n (λ t. false) (λ t. refl)),
      λ z. (omega arith, inl refl),
      λ z. (omega arith, inl refl),
    );
    main = (record { entry = λ j lt. absurd (omega arith) }, refl);
    others = λ t ne. refl;
  }

  module _ (es : List Event) where
    abbrev after : World Shared Local
    after = run (summing n m g) es (boot zeroed (λ _. 0) begin)

    hold : Holds (summing n m g) begin (discipline n m g) outline after
    hold = run-Holds (summing n m g) begin (discipline n m g) outline zeroed (λ _. 0) es starts

    module _ (e : after.thread 0 ≡ running (main finish)) where
      -- At its end `main` is alone, and no mutex has an owner.
      finals : (j : ℕ) → Inv n m g j after.mem
      unfolding outline discipline
      finals j = hold.unowned j (
          free_of_alone held (absent n m) after (main finish) j hold.sound.own hold.sound.track e
            (λ t ne. ground arith) refl)

      all_delivered : Joined n m g n after.mem
      unfolding outline
      all_delivered = (rw e at (hold.each 0)).0

      -- For any number of threads, length of the parts, contents of the array and every schedule:
      -- when main has printed, it has printed the sum of the whole array, then the greatest of 0
      -- and all its numbers, then the lowest of 0 and all its numbers; and no schedule leads to a
      -- data race.
      pub results :
          (after.mem.out ≡ sum_ints g (n * suc m) ∷ after.mem.max ∷ after.mem.min ∷ [])
          × IsGreatest g (n * suc m) after.mem.max
          × IsLowest g (n * suc m) after.mem.min
          × NeverRaces (summing n m g) begin zeroed (λ _. 0)
      unfolding outline
      results = (
        (rw e at (hold.each 0)).1
            ∙ ap (λ x. x ∷ after.mem.max ∷ after.mem.min ∷ [])
                ((finals 0).0 refl
                  ∙ marked_sum-all g m n after.mem.merged
                      (λ t lo hi. (all_delivered.each t lo hi).summed)),
        record {
          above_zero = ((finals 2).2 refl).0;
          above =
              greatest_of_parts g m n after.mem.max (λ t lo hi. (all_delivered.each t lo hi).high);
          occurs = ((finals 2).2 refl).1;
        },
        record {
          below_zero = ((finals 1).1 refl).0;
          below = lowest_of_parts g m n after.mem.min (λ t lo hi. (all_delivered.each t lo hi).low);
          occurs = ((finals 1).1 refl).1;
        },
        race_free (summing n m g) begin (discipline n m g) zeroed (λ _. 0),
      )
