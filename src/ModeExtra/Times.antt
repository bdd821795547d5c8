-- ===== src/ModeExtra/Times.antt =====
-- The worker's round: which lights go dark, and what it keeps.
use pthread_benchmark.Prelude.{
  ℕ, zero, suc, ◌-◌, ◌≡◌, refl, Bool, true, false, ◌&&◌, not, if◌then◌else◌, arith, sym, Bool-cases,
  inl, inr, ltb, ◌==◌, eq_of_==,
}
use pthread_benchmark.Prelude.Int.{ℤ, pos, ◌-ℤ◌, ltb_ℤ}
use pthread_benchmark.ModeExtra.{Bits, Status, expire, expire_first}
use pthread_benchmark.ModeExtra.Switch.{set_bits, set_bits-suc, set_bits-zero}

-- The time of the light of bit `k` does not last for `gap`.
abbrev pub late : ℤ → Status → ℕ → Bool
late gap s k = let rest = s.rest_time (suc k) -ℤ gap in ltb_ℤ rest (pos 0)

-- The lights that go dark in a round.
abbrev pub gone : ℤ → Status → Bits
gone gap s k = s.answer k && late gap s k

-- What is left of `s` after the lines of the first `n` fields, where its score is `x`.
pub record Expired (gap : ℤ) (s : Status) (x n : ℕ) (s' : Status) : Type 0 where
  pub lights : (k : ℕ) → s'.answer k ≡ (s.answer k && not (ltb k n && late gap s k))
  pub times :
      (k : ℕ)
      → s'.rest_time (suc k)
        ≡ (if s.answer k && ltb k n then s.rest_time (suc k) -ℤ gap else s.rest_time (suc k))
  pub scored : s'.score ≡ pos (x - set_bits n (gone gap s))

and_true : (b : Bool) → (b && not false) ≡ b
and_true true = refl
and_true false = refl

expire-Expired :
    (buttons : ℕ) (gap : ℤ) (s : Status) (x n : ℕ) (s' : Status)
    → Expired gap s x n s'
    → Expired gap s x (suc n) (expire buttons gap n s')
unfolding expire
expire-Expired buttons gap s x n s' h =
    let a : s'.answer n ≡ s.answer n = ground (arith, h.lights n) in
    let t : s'.rest_time (suc n) ≡ s.rest_time (suc n) = ground (arith, h.times n) in
    record {
      lights = λ k. elim (Bool-cases (n == k)) [
        | inl here ↦ rw (sym (eq_of_== n k here)) (ground (arith, a, t))
        | inr away ↦ ground (arith, h.lights k)
      ];
      times = λ k. elim (Bool-cases (n == k)) [
        | inl here ↦ rw (sym (eq_of_== n k here)) (ground (arith, a, t))
        | inr away ↦ ground (arith, h.times k)
      ];
      scored = ground (arith, a, t, h.scored, set_bits-suc n (gone gap s));
    }

-- Where the score is not negative: after the lines of the worker for the first fields, a light
-- among them is still lit if its time lasts for what has passed, each that was lit has that much
-- less time, the score is one less for each that went dark, stopping at 0, and no other light has
-- changed.
pub expire_first-Expired :
    (buttons n : ℕ) (gap : ℤ) (s : Status) (x : ℕ)
    → s.score ≡ pos x
    → Expired gap s x n (expire_first buttons n gap s)
unfolding expire_first
expire_first-Expired buttons zero gap s x e = record {
  lights = λ k. ground arith;
  times = λ k. ground arith;
  scored = ground (arith, e, set_bits-zero (gone gap s));
}
expire_first-Expired buttons (suc n) gap s x e =
    expire-Expired buttons gap s x n (expire_first buttons n gap s)
      (expire_first-Expired buttons n gap s x e)
