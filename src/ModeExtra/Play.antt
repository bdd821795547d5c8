-- ===== src/ModeExtra/Play.antt =====
-- What every call keeps.
use native.Mathlib.Nat.{mod-lt}
use pthread_benchmark.Prelude.{
  ℕ, suc, ◌%◌, ◌<◌, ◌≡◌, refl, Bool, true, arith, Bool-cases, inl, inr, List, [], ◌∷◌,
}
use pthread_benchmark.Prelude.Int.{ℤ, pos, negsuc, pos_part, ◌≤ℤ◌, ◌-ℤ◌}
use pthread_benchmark.ModeExtra.{
  Bits, Status, Clock, constructed, mode_extra_switch, expire_first, light, worker_round, Call,
  press, round, call, play,
}
use pthread_benchmark.ModeExtra.Switch.{switch-score}
use pthread_benchmark.ModeExtra.Times.{Expired, expire_first-Expired}

-- The score is not negative, only the first `buttons` bits are lit, and a lit button has its time.
pub record IsValid (buttons : ℕ) (s : Status) : Type 0 where
  pub scored : pos 0 ≤ℤ s.score
  pub known : (k : ℕ) → s.answer k ≡ true → k < buttons
  pub timed : (k : ℕ) → s.answer k ≡ true → pos 0 ≤ℤ s.rest_time (suc k)

natural : (z : ℤ) → pos 0 ≤ℤ z → z ≡ pos (pos_part z)
natural (pos n) h = refl
natural (negsuc n) h = absurd (omega arith)

constructed-IsValid : (buttons : ℕ) (rest : ℕ → ℤ) → IsValid buttons (constructed rest)
constructed-IsValid buttons rest = record {
  scored = omega arith;
  known = λ k h. ground arith;
  timed = λ k h. ground arith;
}

module _ (buttons : ℕ) where
  switch-IsValid :
      (data_ : Bits) (s : Status)
      → IsValid buttons s
      → IsValid buttons (mode_extra_switch buttons data_ s)
  switch-IsValid data_ s v =
      let (e, lit, t) =
        switch-score buttons data_ s (pos_part s.score) (natural s.score v.scored) in
      record {
        scored = ground (arith, e);
        known = λ k h. ground (arith, lit k, v.known k);
        timed = λ k h. ground (arith, lit k, t, v.timed k);
      }

  expire_first-IsValid :
      (n : ℕ) (gap : ℤ) (s : Status)
      → IsValid buttons s
      → IsValid buttons (expire_first buttons n gap s)
  expire_first-IsValid n gap s v =
      let x : Expired gap s (pos_part s.score) n (expire_first buttons n gap s) =
        expire_first-Expired buttons n gap s (pos_part s.score) (natural s.score v.scored) in
      record {
        scored = ground (arith, x.scored);
        known = λ k h. ground (arith, x.lights k, v.known k);
        timed = λ k h. ground (arith, x.lights k, x.times k, v.timed k);
      }

  light-IsValid :
      (r₁ r₂ : ℕ) (s : Status)
      → 0 < buttons
      → IsValid buttons s
      → IsValid buttons (light buttons r₁ r₂ s)
  unfolding light
  light-IsValid r₁ r₂ s some_ v =
      let mod_small : r₂ % buttons < buttons = mod-lt r₂ some_ in
      record {
        scored = v.scored;
        known = λ k h. ground (arith, mod_small, v.known k);
        timed = λ k h. ground (arith, v.timed k);
      }

  call-IsValid :
      (is_due : ℤ → ℤ → Bool) (a : Call) (c : Clock) (s : Status)
      → 0 < buttons
      → IsValid buttons s
      → IsValid buttons (call buttons is_due a (c, s)).1
  unfolding call worker_round
  call-IsValid is_due (press data_) c s some_ v = switch-IsValid data_ s v
  call-IsValid is_due (round now r₁ r₂) c s some_ v =
      let s' = expire_first buttons 9 (now -ℤ c.prev_nano_time) s in
      let v' : IsValid buttons s' = expire_first-IsValid 9 (now -ℤ c.prev_nano_time) s v in
      elim (Bool-cases (is_due (now -ℤ c.prev_creation_time) s'.score)) [
        | inl due ↦ rw due (light-IsValid r₁ r₂ s' some_ v')
        | inr early ↦ rw early v'
      ]

  kept :
      (is_due : ℤ → ℤ → Bool) (as_ : List Call) (c : Clock) (s : Status)
      → 0 < buttons
      → IsValid buttons s
      → IsValid buttons (play buttons is_due as_ (c, s)).1
  unfolding play
  kept is_due [] c s some_ v = v
  kept is_due (a ∷ as_) c s some_ v =
      kept is_due as_ (call buttons is_due a (c, s)).0 (call buttons is_due a (c, s)).1 some_
        (call-IsValid is_due a c s some_ v)

  -- For at least one button and every sequence of presses and rounds of the worker from the
  -- construction on: the score is not negative, only buttons that exist are lit, and a lit button
  -- has time that is not negative.
  pub play-IsValid :
      (is_due : ℤ → ℤ → Bool) (as_ : List Call) (c : Clock) (rest : ℕ → ℤ)
      → 0 < buttons
      → IsValid buttons (play buttons is_due as_ (c, constructed rest)).1
  play-IsValid is_due as_ c rest some_ =
      kept is_due as_ c (constructed rest) some_ (constructed-IsValid buttons rest)
