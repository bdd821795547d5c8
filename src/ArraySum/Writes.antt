-- ===== src/ArraySum/Writes.antt =====
-- The writes of a worker of the array program.
use pthread_benchmark.Prelude.{ℕ, ◌≡◌, refl, sym, ap, ◌∙◌, true, false, update, arith}
use pthread_benchmark.Prelude.Int.{ℤ, ◌+ℤ◌, ltb_ℤ}
use pthread_benchmark.ArraySum.{Shared, Partial, over, worker}
use pthread_benchmark.ArraySum.Parts.{
  part, part_sum, marked_sum, marked_sum-mark, part-min-occurs, part-max-occurs,
}
use pthread_benchmark.ArraySum.Discipline.{fits}
use pthread_benchmark.ArraySum.Assertions.{Inv}
use pthread_benchmark.ArraySum.Frames.{Improves}

module _ (n m : ℕ) (g : ℕ → ℤ) where
  -- The writes of a worker.
  module _ (t lo : ℕ) (p : Partial) (d : Shared) (f : fits n m t (worker lo p over) ≡ true)
      (own : p ≡ part g m t) where
    pub add_Improves :
        (s : ℤ) → Improves n m g t 0 d (record d { sum = s; merged = update d.merged t true })
    add_Improves s = record {
      marks = λ j ne. ground arith;
      lower = omega arith;
      higher = omega arith;
      same_out = refl;
      same_arr = refl;
      same_marks = λ ne. absurd (ne refl);
      same_sum = λ ne. absurd (ne refl);
      same_min = λ ne. refl;
      same_max = λ ne. refl;
    }

    pub low_Improves :
        ltb_ℤ p.local_min d.min ≡ true → Improves n m g t 1 d (record d { min = p.local_min })
    low_Improves less = record {
      marks = λ j ne. refl;
      lower = ground arith;
      higher = omega arith;
      same_out = refl;
      same_arr = refl;
      same_marks = λ ne. refl;
      same_sum = λ ne. refl;
      same_min = λ ne. absurd (ne refl);
      same_max = λ ne. refl;
    }

    pub high_Improves :
        ltb_ℤ d.max p.local_max ≡ true → Improves n m g t 2 d (record d { max = p.local_max })
    high_Improves more = record {
      marks = λ j ne. refl;
      lower = omega arith;
      higher = ground arith;
      same_out = refl;
      same_arr = refl;
      same_marks = λ ne. refl;
      same_sum = λ ne. refl;
      same_min = λ ne. refl;
      same_max = λ ne. absurd (ne refl);
    }

    pub add_Inv :
        (s : ℤ)
        → d.merged t ≡ false
        → Inv n m g 0 d
        → s ≡ d.sum
        → Inv n m g 0 (record d { sum = s +ℤ p.local_sum; merged = update d.merged t true })
    add_Inv s new h e = (
      λ z.
          ap (λ x. x +ℤ p.local_sum) (e ∙ h.0 refl)
          ∙ ap (λ (q : Partial). marked_sum (part_sum g m) d.merged n +ℤ q.local_sum) own
          ∙ sym (marked_sum-mark (part_sum g m) n t d.merged (ground arith) (ground arith) new),
      λ z. absurd (omega arith),
      λ z. absurd (omega arith),
    )

    pub low_Inv :
        Inv n m g 1 d
        → ltb_ℤ p.local_min d.min ≡ true
        → Inv n m g 1 (record d { min = p.local_min })
    low_Inv h less = (
      λ z. absurd (omega arith),
      λ z. (
        ground (arith, (h.1 refl).0),
        rw own (part-min-occurs g m n t (ground arith) (ground arith)),
      ),
      λ z. absurd (omega arith),
    )

    pub high_Inv :
        Inv n m g 2 d
        → ltb_ℤ d.max p.local_max ≡ true
        → Inv n m g 2 (record d { max = p.local_max })
    high_Inv h more = (
      λ z. absurd (omega arith),
      λ z. absurd (omega arith),
      λ z. (
        ground (arith, (h.2 refl).0),
        rw own (part-max-occurs g m n t (ground arith) (ground arith)),
      ),
    )
