-- ===== src/Prelude/Cyclic.antt =====
-- Arrays used round and round: the `n` entries from index `h` on, in a table of `size` entries.
use Prim.Native.Nat.{ℕ, zero, suc, ◌+◌, ◌-◌, ◌%◌, ◌<◌, ◌≤◌}
use mathlib.Core.Path.{◌≡◌, refl, ap₂, ap, sym, ◌∙◌}
use mathlib.Core.Logic.{◌≢◌, ◌⊎◌, inl, inr}
use mathlib.Core.List.{List, [], ◌∷◌, ◌++◌}
use native.Mathlib.Numerals.{add-one}
use native.Mathlib.Nat.{le_refl, mod-eq_of_lt, mod-eq-sub-mod, add-zero}
use native.Mathlib.Decide.{dec_lt}
use native.Mathlib.Omega.{arith}
use pthread_benchmark.Prelude.Family.{update}
use pthread_benchmark.Prelude.Lists.{length, length-append}

-- The index `k` places after `h` is `h + k`, or that less `size`.
pub turn_cases :
    (size h k : ℕ)
    → h < size
    → k ≤ size
    → ((h + k < size) × ((h + k) % size ≡ h + k))
      ⊎ ((size ≤ h + k) × ((h + k) % size ≡ h + k - size))
turn_cases size h k hh hk = elim (dec_lt (h + k) size) [
  | yes p ↦ inl (p, mod-eq_of_lt p)
  | no p ↦ elim (dec_lt (h + k - size) size) [
    | yes q ↦ inr (
      omega arith,
      omega (
        arith,
        mod-eq-sub-mod {n = h + k} {m = size} (omega arith),
        mod-eq_of_lt {n = h + k - size} {m = size} q,
      ),
    )
    | no q ↦ absurd (omega arith)
  ]
]

-- Distinct places within one round are distinct indices.
pub turn-ne : (size h j k : ℕ) → h < size → j < k → k < size → (h + k) % size ≢ (h + j) % size
turn-ne size h j k hh jk hk e =
    omega (arith, turn_cases size h k hh (omega arith), turn_cases size h j hh (omega arith))

-- One place after the next index is two places after this one.
pub turn-suc :
    (size h k : ℕ) → h < size → k < size → ((h + 1) % size + k) % size ≡ (h + suc k) % size
turn-suc size h k hh hk = elim (dec_lt (h + 1) size) [
  | yes p ↦ ap (λ n. n % size) (omega (arith, mod-eq_of_lt p))
  | no p ↦ rw (wraps p) (
      omega (
        arith,
        turn_cases size h (suc k) hh (omega arith),
        turn_cases size 0 k (omega arith) (omega arith),
      ))
]
  where
    wraps : ¬ (h + 1 < size) → (h + 1) % size ≡ 0
    wraps q = omega (arith, turn_cases size h 1 hh (omega arith))

turn-zero : (size h : ℕ) → h < size → (h + 0) % size ≡ h
turn-zero size h hh = rw add-zero (mod-eq_of_lt hh)

module _ {ℓ} {A : Type ℓ} (f : ℕ → A) (size : ℕ) where
  unfoldable pub window : ℕ → ℕ → List A
  window h zero = []
  window h (suc n) = window h n ++ (f ((h + n) % size) ∷ [])

  pub length-window : (h n : ℕ) → length (window h n) ≡ n
  unfolding window
  length-window h zero = refl
  length-window h (suc n) =
      omega (arith, length-append (window h n) (f ((h + n) % size) ∷ []), length-window h n)

  -- The window without its first entry is the window from the next index.
  pub window-cons :
      (h n : ℕ) → h < size → n < size → window h (suc n) ≡ f h ∷ window ((h + 1) % size) n
  unfolding window
  window-cons h zero hh hn = ap (λ x. x ∷ []) (ap f (turn-zero size h hh))
  window-cons h (suc n) hh hn =
      ap₂ (λ xs y. xs ++ (y ∷ [])) (window-cons h n hh (omega arith))
        (ap f (sym (turn-suc size h n hh (omega arith))))

-- A write just past a window leaves it alone.
pub window-update {ℓ} :
    {A : Type ℓ} (f : ℕ → A) (size h m n : ℕ) (x : A)
    → h < size
    → m < size
    → n ≤ m
    → window (update f ((h + m) % size) x) size h n ≡ window f size h n
unfolding window
window-update f size h m zero x hh hm hn = refl
window-update f size h m (suc n) x hh hm hn =
    ap₂ (λ xs y. xs ++ (y ∷ [])) (window-update f size h m n x hh hm (omega arith))
      (ground (arith, turn-ne size h n m hh (omega arith) hm))

-- A write at the end of a window makes it longer by that entry.
pub window-snoc {ℓ} :
    {A : Type ℓ} (f : ℕ → A) (size h m : ℕ) (x : A)
    → h < size
    → m < size
    → window (update f ((h + m) % size) x) size h (m + 1) ≡ window f size h m ++ (x ∷ [])
unfolding window
window-snoc f size h m x hh hm =
    rw add-one
      (ap₂ (λ xs y. xs ++ (y ∷ [])) (window-update f size h m m x hh hm (le_refl m)) (ground arith))

pub window-pop {ℓ} :
    {A : Type ℓ} (f : ℕ → A) (size h n : ℕ)
    → h < size
    → 0 < n
    → n ≤ size
    → window f size h n ≡ f h ∷ window f size ((h + 1) % size) (n - 1)
window-pop f size h zero hh pos le = absurd (omega arith)
window-pop f size h (suc n) hh pos le =
    window-cons f size h n hh (omega arith)
    ∙ ap (λ k. f h ∷ window f size ((h + 1) % size) k) (omega arith)
