-- ===== src/Zad/Ends.antt =====
-- push_f and pop_f on a list.
use pthread_benchmark.Prelude.{◌+◌, ◌≤◌, ◌≡◌, refl, true, false, List, [], ◌∷◌, length, arith}
use pthread_benchmark.Prelude.Int.{ℤ, is_negative_one}
use pthread_benchmark.Zad.{push_f, pop_from, pop_f}

-- No entry is -1.
abbrev pub Proper : List ℤ → Type 0
Proper [] = Unit
Proper (x ∷ xs) = (is_negative_one x ≡ false) × Proper xs

pop_from-push_f : (x v : ℤ) (xs : List ℤ) → pop_from x (push_f v xs) ≡ (v, x ∷ xs)
unfolding pop_from push_f
pop_from-push_f x v [] = refl
pop_from-push_f x v (y ∷ ys) = rw (pop_from-push_f y v ys) refl

-- pop_f after push_f gives the value and the list before it.
pub pop_f-push_f : (v : ℤ) (xs : List ℤ) → pop_f (push_f v xs) ≡ (v, xs)
unfolding pop_f push_f pop_from
pop_f-push_f v [] = refl
pop_f-push_f v (x ∷ xs) = pop_from-push_f x v xs

pub length-push_f : (v : ℤ) (xs : List ℤ) → length (push_f v xs) ≡ length xs + 1
unfolding push_f
length-push_f v [] = refl
length-push_f v (x ∷ xs) = omega (arith, length-push_f v xs)

pub push_f-Proper :
    (v : ℤ) (xs : List ℤ) → is_negative_one v ≡ false → Proper xs → Proper (push_f v xs)
unfolding push_f
push_f-Proper v [] e p = (e, tt)
push_f-Proper v (x ∷ xs) e (q, p) = (q, push_f-Proper v xs e p)

length-pop_from : (x : ℤ) (xs : List ℤ) → length (pop_from x xs).1 ≡ length xs
unfolding pop_from
length-pop_from x [] = refl
length-pop_from x (y ∷ ys) = omega (arith, length-pop_from y ys)

pop_from-Proper :
    (x : ℤ) (xs : List ℤ)
    → is_negative_one x ≡ false
    → Proper xs
    → (is_negative_one (pop_from x xs).0 ≡ false) × Proper (pop_from x xs).1
unfolding pop_from
pop_from-Proper x [] e p = (e, tt)
pop_from-Proper x (y ∷ ys) e (q, p) = let (l, r) = pop_from-Proper y ys q p in (l, (e, r))

-- An empty list gives -1 and stays, any other gives its last entry.
pub pop_f-Proper :
    (xs : List ℤ)
    → Proper xs
    → Proper (pop_f xs).1
      × (is_negative_one (pop_f xs).0 ≡ true → (pop_f xs).1 ≡ [])
      × (1 ≤ length xs
          → (is_negative_one (pop_f xs).0 ≡ false) × (length (pop_f xs).1 + 1 ≡ length xs))
unfolding pop_f
pop_f-Proper [] p = (tt, λ e. refl, λ le. absurd (omega (arith, le)))
pop_f-Proper (x ∷ xs) (e, p) =
    let (l, r) = pop_from-Proper x xs e p in
    (r, λ t. absurd (ground (arith, l, t)), λ le. (l, omega (arith, length-pop_from x xs)))
