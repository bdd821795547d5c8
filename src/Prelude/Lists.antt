-- ===== src/Prelude/Lists.antt =====
-- Lists measured and indexed by native numbers, under the library's names.
use Prim.Native.Nat.{ℕ, zero, suc, ◌+◌, ◌<◌, ◌≤◌}
use Prim.Native.Char.{code}
use Prim.Native.String.{String}
use mathlib.Core.Path.{◌≡◌, refl, ap}
use mathlib.Core.Logic.{◌≢◌}
use mathlib.Core.List.{List, [], ◌∷◌, ◌++◌}
use native.Mathlib.Omega.{arith}

-- The bytes of a text.
abbrev pub codes : String → List ℕ
codes String.[] = []
codes (String.◌∷◌ c s) = code c ∷ codes s

module _ {ℓ} {A : Type ℓ} where
  abbrev pub length : List A → ℕ
  length [] = 0
  length (x ∷ xs) = suc (length xs)

  abbrev pub get_or : List A → ℕ → A → A
  get_or [] i d = d
  get_or (x ∷ xs) zero d = x
  get_or (x ∷ xs) (suc i) d = get_or xs i d

  -- A write out of bounds changes nothing.
  abbrev pub set : List A → ℕ → A → List A
  set [] i v = []
  set (x ∷ xs) zero v = v ∷ xs
  set (x ∷ xs) (suc i) v = x ∷ set xs i v

  abbrev pub take : ℕ → List A → List A
  take zero xs = []
  take (suc n) [] = []
  take (suc n) (x ∷ xs) = x ∷ take n xs

  cons≢nil : {x : A} {xs : List A} → x ∷ xs ≢ []
  cons≢nil h = cc

  pub length-append : (xs ys : List A) → length (xs ++ ys) ≡ length xs + length ys
  length-append [] ys = omega arith
  length-append (x ∷ xs) ys = omega (arith, length-append xs ys)

  pub length-set : (xs : List A) (i : ℕ) (v : A) → length (set xs i v) ≡ length xs
  length-set [] i v = refl
  length-set (x ∷ xs) zero v = refl
  length-set (x ∷ xs) (suc i) v = ap suc (length-set xs i v)

  pub get_or-set_self :
      (xs : List A) (i : ℕ) (v d : A) → i < length xs → get_or (set xs i v) i d ≡ v
  get_or-set_self [] i v d h = elim h [ ]
  get_or-set_self (x ∷ xs) zero v d h = refl
  get_or-set_self (x ∷ xs) (suc i) v d h = get_or-set_self xs i v d (omega arith)

  pub get_or-set_ne :
      (xs : List A) (i j : ℕ) (v d : A) → i ≢ j → get_or (set xs i v) j d ≡ get_or xs j d
  get_or-set_ne [] i j v d h = refl
  get_or-set_ne (x ∷ xs) zero zero v d h = absurd (h refl)
  get_or-set_ne (x ∷ xs) zero (suc j) v d h = refl
  get_or-set_ne (x ∷ xs) (suc i) zero v d h = refl
  get_or-set_ne (x ∷ xs) (suc i) (suc j) v d h = get_or-set_ne xs i j v d (λ e. h (ap suc e))

  -- What a list shows of a longer one that it begins.
  pub take-snoc_of_append :
      (xs : List A) (y : A) (ys zs : List A) (n : ℕ)
      → xs ++ (y ∷ ys) ≡ take n zs
      → xs ++ (y ∷ []) ≡ take (suc (length xs)) zs
  take-snoc_of_append [] y ys zs zero h = absurd (cons≢nil h)
  take-snoc_of_append [] y ys [] (suc n) h = absurd (cons≢nil h)
  take-snoc_of_append [] y ys (z ∷ zs) (suc n) h = ground arith
  take-snoc_of_append (x ∷ xs) y ys zs zero h = absurd (cons≢nil h)
  take-snoc_of_append (x ∷ xs) y ys [] (suc n) h = absurd (cons≢nil h)
  take-snoc_of_append (x ∷ xs) y ys (z ∷ zs) (suc n) h =
      ground (arith, take-snoc_of_append xs y ys zs n)

  pub take-snoc :
      (xs : List A) (n : ℕ) (d : A)
      → n < length xs
      → take n xs ++ (get_or xs n d ∷ []) ≡ take (suc n) xs
  take-snoc [] n d h = elim h [ ]
  take-snoc (x ∷ xs) zero d h = refl
  take-snoc (x ∷ xs) (suc n) d h = ap (λ l. x ∷ l) (take-snoc xs n d (omega arith))

  pub take-length : (xs : List A) (n : ℕ) → length xs ≤ n → take n xs ≡ xs
  take-length [] zero h = refl
  take-length [] (suc n) h = refl
  take-length (x ∷ xs) zero h = elim h [ ]
  take-length (x ∷ xs) (suc n) h = ap (λ l. x ∷ l) (take-length xs n (omega arith))

  pub length-take : (xs : List A) (n : ℕ) → n ≤ length xs → length (take n xs) ≡ n
  length-take xs zero h = refl
  length-take [] (suc n) h = elim h [ ]
  length-take (x ∷ xs) (suc n) h = ap suc (length-take xs n (omega arith))
