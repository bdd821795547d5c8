-- ===== src/Prelude/Family.antt =====
-- Tables `ℕ → A`: a write at one index, and the sum of a weight over the first entries.
use Prim.Native.Nat.{ℕ, zero, suc, ◌+◌, ◌≤◌, ◌<◌}
use mathlib.Core.Path.{◌≡◌, refl}
use mathlib.Core.Logic.{inl, inr}
use native.Mathlib.Omega.{arith}
use pthread_benchmark.Prelude.Tests.{◌==◌, if◌then◌else◌, Bool-cases}

abbrev pub update {ℓ} : {A : Type ℓ} → (ℕ → A) → ℕ → A → ℕ → A
update f i a j = if i == j then a else f j

pub sum_below : (ℕ → ℕ) → ℕ → ℕ
sum_below f zero = 0
sum_below f (suc n) = sum_below f n + f n

-- Two tables that agree off `i` have sums that differ by their entries at `i`.
pub sum_below-outside :
    (f g : ℕ → ℕ) (i n : ℕ)
    → ((j : ℕ) → ¬ (j ≡ i) → f j ≡ g j)
    → n ≤ i
    → sum_below f n ≡ sum_below g n
unfolding sum_below
sum_below-outside f g i zero h le = refl
sum_below-outside f g i (suc n) h le =
    omega (arith, sum_below-outside f g i n h (omega arith), h n (omega arith))

pub sum_below-change :
    (f g : ℕ → ℕ) (i n : ℕ)
    → ((j : ℕ) → ¬ (j ≡ i) → f j ≡ g j)
    → i < n
    → sum_below f n + g i ≡ sum_below g n + f i
unfolding sum_below
sum_below-change f g i zero h lt = absurd (omega arith)
sum_below-change f g i (suc n) h lt = elim (Bool-cases (n == i)) [
  | inl here ↦ ground (arith, sum_below-outside f g i n h)
  | inr away ↦ ground (arith, sum_below-change f g i n h, h n)
]

pub sum_below-zero : (f : ℕ → ℕ) → sum_below f 0 ≡ 0
unfolding sum_below
sum_below-zero f = refl

pub sum_below-suc : (f : ℕ → ℕ) (n : ℕ) → sum_below f (suc n) ≡ sum_below f n + f n
unfolding sum_below
sum_below-suc f n = refl

pub sum_below-eq_zero : (f : ℕ → ℕ) (n : ℕ) → ((j : ℕ) → f j ≡ 0) → sum_below f n ≡ 0
unfolding sum_below
sum_below-eq_zero f zero h = refl
sum_below-eq_zero f (suc n) h = omega (arith, sum_below-eq_zero f n h, h n)

pub sum_below-entry : (f : ℕ → ℕ) (i n : ℕ) → i < n → f i ≤ sum_below f n
unfolding sum_below
sum_below-entry f i zero lt = absurd (omega arith)
sum_below-entry f i (suc n) lt = elim (Bool-cases (n == i)) [
  | inl here ↦ ground arith
  | inr away ↦ ground (arith, sum_below-entry f i n)
]
