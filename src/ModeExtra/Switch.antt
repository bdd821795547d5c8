-- ===== src/ModeExtra/Switch.antt =====
-- What mode_extra_switch does to the score and the lights.
use pthread_benchmark.Prelude.{
  ℕ, zero, suc, ◌+◌, ◌-◌, ◌≡◌, refl, ap, Bool, true, false, ◌&&◌, not, if◌then◌else◌, arith,
  sum_below, sum_below-zero, sum_below-suc,
}
use pthread_benchmark.Prelude.Int.{ℤ, pos, negsuc, pos_part, neg_part, ◌+ℤ◌, ◌-ℤ◌, ltb_ℤ}
use pthread_benchmark.ModeExtra.{Bits, Status, xor, bit, shifted, add_bits, mode_extra_switch}

abbrev pub one_if : Bool → ℕ
one_if true = 1
one_if false = 0

-- How many of the first `n` bits are set.
pub set_bits : ℕ → Bits → ℕ
set_bits n c = sum_below (λ k. one_if (c k)) n

sum_below-front : (f : ℕ → ℕ) (n : ℕ) → sum_below f (suc n) ≡ f 0 + sum_below (λ k. f (suc k)) n
sum_below-front f zero =
    omega (arith, sum_below-suc f 0, sum_below-zero f, sum_below-zero (λ k. f (suc k)))
sum_below-front f (suc n) =
    omega (arith, sum_below-suc f (suc n), sum_below-front f n, sum_below-suc (λ k. f (suc k)) n)

one_bit :
    (z : ℤ) (b c : Bool)
    → pos_part (z +ℤ bit b -ℤ bit c) + neg_part z + one_if c
      ≡ neg_part (z +ℤ bit b -ℤ bit c) + pos_part z + one_if b
unfolding ◌+ℤ◌
one_bit z true true = ground arith
one_bit z true false = ground arith
one_bit z false true = ground arith
one_bit z false false = ground arith

add_bits-parts :
    (n : ℕ) (c w : Bits) (z : ℤ)
    → pos_part (add_bits n c w z) + neg_part z + set_bits n w
      ≡ neg_part (add_bits n c w z) + pos_part z + set_bits n c
unfolding add_bits set_bits
add_bits-parts zero c w z =
    omega (arith, sum_below-zero (λ k. one_if (c k)), sum_below-zero (λ k. one_if (w k)))
add_bits-parts (suc n) c w z = omega (
  arith,
  one_bit z (c 0) (w 0),
  add_bits-parts n (shifted c) (shifted w) (z +ℤ bit (c 0) -ℤ bit (w 0)),
  sum_below-front (λ k. one_if (c k)) n,
  sum_below-front (λ k. one_if (w k)) n,
)

clamp_parts :
    (z : ℤ) (s h m : ℕ)
    → pos_part z + m ≡ neg_part z + s + h
    → (if ltb_ℤ z (pos 0) then pos 0 else z) ≡ pos (s + h - m)
clamp_parts (pos x) s h m e = ground arith
clamp_parts (negsuc x) s h m e = ground arith

-- Lights that are pressed, and buttons that are pressed without light.
abbrev pub hits : ℕ → Bits → Status → ℕ
hits n data_ s = set_bits n (λ k. s.answer k && data_ k)

abbrev pub misses : ℕ → Bits → Status → ℕ
misses n data_ s = set_bits n (λ k. data_ k && not (s.answer k))

pub set_bits-suc : (n : ℕ) (c : Bits) → set_bits (suc n) c ≡ set_bits n c + one_if (c n)
unfolding set_bits
set_bits-suc n c = sum_below-suc (λ k. one_if (c k)) n

pub set_bits-zero : (c : Bits) → set_bits 0 c ≡ 0
unfolding set_bits
set_bits-zero c = sum_below-zero (λ k. one_if (c k))

pub set_bits-same : (n : ℕ) (c w : Bits) → ((k : ℕ) → c k ≡ w k) → set_bits n c ≡ set_bits n w
unfolding set_bits
set_bits-same zero c w h =
    omega (arith, sum_below-zero (λ k. one_if (c k)), sum_below-zero (λ k. one_if (w k)))
set_bits-same (suc n) c w h =
    let e : set_bits n c ≡ set_bits n w = set_bits-same n c w h in
    omega (
      arith,
      sum_below-suc (λ k. one_if (c k)) n,
      sum_below-suc (λ k. one_if (w k)) n,
      e,
      ap one_if (h n),
    )

miss : (a d : Bool) → (xor a d && d) ≡ (d && not a)
miss true true = refl
miss true false = refl
miss false true = refl
miss false false = refl

pressed : (a d : Bool) → xor a (a && d) ≡ (a && not d)
pressed true true = refl
pressed true false = refl
pressed false d = refl

-- Where the score is not negative: mode_extra_switch adds the lit buttons among those pressed to
-- the score and takes the dark ones off, stopping at 0, makes the pressed lights dark and no other,
-- and leaves the times.
pub switch-score :
    (buttons : ℕ) (data_ : Bits) (s : Status) (n : ℕ)
    → s.score ≡ pos n
    → ((mode_extra_switch buttons data_ s).score
        ≡ pos (n + hits buttons data_ s - misses buttons data_ s))
      × ((k : ℕ) → (mode_extra_switch buttons data_ s).answer k ≡ (s.answer k && not (data_ k)))
      × ((mode_extra_switch buttons data_ s).rest_time ≡ s.rest_time)
unfolding mode_extra_switch
switch-score buttons data_ s n e = (
  clamp_parts
      (add_bits buttons (λ k. s.answer k && data_ k) (λ k. xor (s.answer k) (data_ k) && data_ k)
        s.score)
      n (hits buttons data_ s) (misses buttons data_ s)
      (let h : set_bits buttons (λ k. xor (s.answer k) (data_ k) && data_ k)
            ≡ misses buttons data_ s =
          set_bits-same buttons (λ k. xor (s.answer k) (data_ k) && data_ k)
            (λ k. data_ k && not (s.answer k)) (λ k. miss (s.answer k) (data_ k)) in
        omega (
          arith,
          add_bits-parts buttons (λ k. s.answer k && data_ k)
              (λ k. xor (s.answer k) (data_ k) && data_ k) s.score,
          h,
          ap pos_part e,
          ap neg_part e,
        )),
  λ k. pressed (s.answer k) (data_ k),
  refl,
)
