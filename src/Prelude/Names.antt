-- ===== src/Prelude/Names.antt =====
-- Comparison of C strings without their final 0.
use Prim.Native.Nat.{ℕ}
use mathlib.Core.Path.{◌≡◌, refl, ap₂}
use mathlib.Core.Logic.{inl, inr}
use mathlib.Core.Bool.{Bool, true, false, ◌&&◌, false≢true}
use mathlib.Core.List.{List, [], ◌∷◌}
use native.Mathlib.Omega.{arith}
use pthread_benchmark.Prelude.Tests.{◌==◌, Bool-cases, eq_of_==}

-- strcmp(...) == 0.
unfoldable pub same_name : List ℕ → List ℕ → Bool
same_name [] [] = true
same_name (a ∷ as') (b ∷ bs) = a == b && same_name as' bs
same_name _ _ = false

pub same_name-eq : (as' bs : List ℕ) → same_name as' bs ≡ true → as' ≡ bs
unfolding same_name
same_name-eq [] [] e = refl
same_name-eq [] (b ∷ bs) e = absurd (false≢true e)
same_name-eq (a ∷ as') [] e = absurd (false≢true e)
same_name-eq (a ∷ as') (b ∷ bs) e = elim (Bool-cases (a == b)) [
  | inl same ↦ ap₂ (λ c cs. c ∷ cs) (eq_of_== a b same) (same_name-eq as' bs (cc))
  | inr other ↦ absurd (ground arith)
]

pub same_name_self : (as' : List ℕ) → same_name as' as' ≡ true
unfolding same_name
same_name_self [] = refl
same_name_self (a ∷ as') = ground (arith, same_name_self as')
