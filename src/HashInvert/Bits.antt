-- ===== src/HashInvert/Bits.antt =====
-- The bits of a word, and what `bit_and` and `bit_or` do to them.
use Prim.Native.Nat.{bit_and, bit_or, digits, bit_and-bitwise, bit_or-bitwise, min, max}
use pthread_benchmark.Prelude.{
  ℕ, zero, suc, ◌+◌, ◌-◌, ◌*◌, ◌/◌, ◌%◌, ◌^◌, ◌≤◌, ◌<◌, ◌≡◌, refl, ◌==◌, if◌then◌else◌, arith, ◌∙◌,
}

-- Bit `p` of a word.
pub bit : ℕ → ℕ → ℕ
bit zero w = w % 2
bit (suc p) w = bit p (w / 2)

pub bit-lt : (p w : ℕ) → bit p w < 2
unfolding bit
bit-lt zero w = omega arith
bit-lt (suc p) w = bit-lt p (w / 2)

pub bit-zero : (p : ℕ) → bit p 0 ≡ 0
unfolding bit
bit-zero zero = refl
bit-zero (suc p) = bit-zero p

bit-suc : (p x c : ℕ) → c < 2 → bit (suc p) (x * 2 + c) ≡ bit p x
unfolding bit
bit-suc p x c lt = let half : (x * 2 + c) / 2 ≡ x = omega arith in rw half refl

bit-low : (x c : ℕ) → c < 2 → bit 0 (x * 2 + c) ≡ c
unfolding bit
bit-low x c lt = omega arith

bit_half : (p w : ℕ) → bit p (w / 2) ≡ bit (suc p) w
unfolding bit
bit_half p w = refl

bit_low : (w : ℕ) → bit 0 w ≡ w % 2
unfolding bit
bit_low w = refl

-- An operation on digits acts on each bit.
module _ (z : ℕ → ℕ) (f : ℕ → ℕ → ℕ) (small : (x y : ℕ) → x < 2 → y < 2 → f x y < 2)
    (first : (p b : ℕ) → bit p (z b) ≡ f 0 (bit p b)) where
  bit-digits : (p n a b : ℕ) → a ≤ n → bit p (digits z f n a b) ≡ f (bit p a) (bit p b)
  bit-digits p zero zero b le = rw (bit-zero p) (first p b)
  bit-digits p zero (suc a) b le = absurd (omega arith)
  bit-digits p (suc n) zero b le = rw (bit-zero p) (first p b)
  bit-digits zero (suc n) (suc a) b le =
      bit-low (digits z f n (suc a / 2) (b / 2)) (f (suc a % 2) (b % 2))
        (small (suc a % 2) (b % 2) (omega arith) (omega arith))
      ∙ rw (bit_low (suc a), bit_low b) refl
  bit-digits (suc p) (suc n) (suc a) b le =
      bit-suc p (digits z f n (suc a / 2) (b / 2)) (f (suc a % 2) (b % 2))
        (small (suc a % 2) (b % 2) (omega arith) (omega arith))
      ∙ bit-digits p n (suc a / 2) (b / 2) (omega arith)
      ∙ rw (bit_half p (suc a), bit_half p b) refl

pub bit-bit_and : (p a b : ℕ) → bit p (bit_and a b) ≡ min (bit p a) (bit p b)
bit-bit_and p a b = rw bit_and-bitwise (
    bit-digits (λ _. 0) min (λ x y lx ly. omega arith) (λ q c. bit-zero q ∙ omega arith) p a a b
      (omega arith))

pub bit-bit_or : (p a b : ℕ) → bit p (bit_or a b) ≡ max (bit p a) (bit p b)
bit-bit_or p a b =
    rw bit_or-bitwise (
      bit-digits (λ c. c) max (λ x y lx ly. omega arith) (λ q c. omega arith) p a a b (omega arith))

pub bit-pow : (p o : ℕ) → bit p (2 ^ o) ≡ (if p == o then 1 else 0)
unfolding bit
bit-pow zero zero = refl
bit-pow zero (suc o) = ground arith
bit-pow (suc p) zero = ground (arith, bit-zero p)
bit-pow (suc p) (suc o) =
    (let half : 2 ^ suc o / 2 ≡ 2 ^ o = omega arith in rw half (ground (arith, bit-pow p o)))

eq_zero_of_bits_below : (n w : ℕ) → w ≤ n → ((p : ℕ) → bit p w ≡ 0) → w ≡ 0
unfolding bit
eq_zero_of_bits_below zero w le h = omega arith
eq_zero_of_bits_below (suc n) w le h =
    omega (arith, h 0, eq_zero_of_bits_below n (w / 2) (omega arith) (λ p. h (suc p)))

pub eq_zero_of_bits : (w : ℕ) → ((p : ℕ) → bit p w ≡ 0) → w ≡ 0
eq_zero_of_bits w h = eq_zero_of_bits_below w w (omega arith) h

pub bit-inverted : (n p w : ℕ) → p < n → w < 2 ^ n → bit p (2 ^ n - 1 - w) ≡ 1 - bit p w
unfolding bit
bit-inverted zero p w lt fits = absurd (omega arith)
bit-inverted (suc n) zero w lt fits = omega arith
bit-inverted (suc n) (suc p) w lt fits =
    let half : (2 ^ suc n - 1 - w) / 2 ≡ 2 ^ n - 1 - w / 2 = omega arith in
    rw half (bit-inverted n p (w / 2) (omega arith) (omega arith))
