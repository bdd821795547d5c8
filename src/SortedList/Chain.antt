-- ===== src/SortedList/Chain.antt =====
-- When the heap holds a sorted list, and what the values of the list are.
use pthread_benchmark.Prelude.{
  ℕ, zero, suc, ◌+◌, ◌<◌, ◌≤◌, ◌≡◌, ◌≢◌, ◌⊎◌, refl, ap, ◌∙◌, inl, inr, Bool, true, false, some,
  List, [], ◌∷◌, ◌==◌, ltb, if◌then◌else◌, length, map, arith, Bool-cases, ◌||◌,
}
use mathlib.Core.Path.{ap₂}
use pthread_benchmark.SortedList.{Heap, walk, found, member}

-- The nodes from `p` on are those at the listed addresses, their values ascend, and the first is
-- at least `low`.
abbrev pub Chain : Heap → ℕ → ℕ → List ℕ → Type 0
Chain h low p [] = p ≡ 0
Chain h low p (a ∷ xs) =
    (p ≡ a) × (a ≢ 0) × (low ≤ h.data_ a) × Chain h (h.data_ a + 1) (h.next a) xs

abbrev pub values : Heap → List ℕ → List ℕ
values h xs = map h.data_ xs

-- A strictly ascending list xs a set.
abbrev pub has : ℕ → List ℕ → Bool
has x [] = false
has x (y ∷ ys) = x == y || has x ys

abbrev pub add : ℕ → List ℕ → List ℕ
add x [] = x ∷ []
add x (y ∷ ys) = if ltb y x then y ∷ add x ys else if x == y then y ∷ ys else x ∷ y ∷ ys

abbrev pub remove : ℕ → List ℕ → List ℕ
remove x [] = []
remove x (y ∷ ys) = if x == y then ys else y ∷ remove x ys

pub Chain-weaken :
    (h : Heap) (low low' p : ℕ) (xs : List ℕ) → low' ≤ low → Chain h low p xs → Chain h low' p xs
Chain-weaken h low low' p [] le c = c
Chain-weaken h low low' p (a ∷ xs) le (e, nz, lo, c) = (e, nz, omega arith, c)

-- A smaller value than all is not there.
pub has-below :
    (h : Heap) (x low p : ℕ) (xs : List ℕ)
    → Chain h low p xs
    → x < low
    → has x (values h xs) ≡ false
has-below h x low p [] c lt = refl
has-below h x low p (a ∷ xs) (e, nz, lo, c) lt =
    ground (arith, has-below h x (h.data_ a + 1) (h.next a) xs c (omega arith))

-- An address that is none of the nodes.
abbrev pub Fresh : ℕ → List ℕ → Type 0
Fresh t [] = Unit
Fresh t (a ∷ xs) = (a ≢ t) × Fresh t xs

pub Fresh-null : (h : Heap) (low p : ℕ) (xs : List ℕ) → Chain h low p xs → Fresh 0 xs
Fresh-null h low p [] c = tt
Fresh-null h low p (a ∷ xs) (e, nz, lo, c) = (nz, Fresh-null h (h.data_ a + 1) (h.next a) xs c)

-- Two heaps that agree on the nodes from `low` on, but for a fresh one.
pub Chain-frame :
    (h h' : Heap) (t low p : ℕ) (xs : List ℕ)
    → Chain h low p xs
    → Fresh t xs
    → ((a : ℕ) → a ≢ t → low ≤ h.data_ a → (h'.data_ a ≡ h.data_ a) × (h'.next a ≡ h.next a))
    → Chain h' low p xs × (values h' xs ≡ values h xs)
Chain-frame h h' t low p [] c f same = (c, refl)
Chain-frame h h' t low p (a ∷ xs) (e, nz, lo, c) f same =
    let (d, n) = same a f.0 lo in
    let (c', v) =
      Chain-frame h h' t (h.data_ a + 1) (h.next a) xs c f.1 (λ b ne le. same b ne (omega arith)) in
    ((e, nz, omega (arith, d), rw d (rw n c')), ap₂ (λ y ys. y ∷ ys) d v)

-- One turn of the loop.
pub walk-on :
    (fuel : ℕ) (h : Heap) (x prev a : ℕ)
    → a ≢ 0
    → h.data_ a < x
    → walk (suc fuel) h x prev a ≡ walk fuel h x a (h.next a)
unfolding walk
walk-on fuel h x prev a nz lt = ground arith

pub walk-off :
    (fuel : ℕ) (h : Heap) (x prev a : ℕ)
    → (a ≡ 0) ⊎ (x ≤ h.data_ a)
    → walk (suc fuel) h x prev a ≡ some (prev, a)
unfolding walk
walk-off fuel h x prev a (inl z) = ground arith
walk-off fuel h x prev a (inr le) = ground arith

pub found_at : (h : Heap) (x p : ℕ) → p ≢ 0 → h.data_ p ≡ x → found h x p ≡ true
unfolding found
found_at h x p nz e = ground arith

pub missing : (h : Heap) (x p : ℕ) → (p ≡ 0) ⊎ (x < h.data_ p) → found h x p ≡ false
unfolding found
missing h x p (inl z) = ground arith
missing h x p (inr lt) = ground arith

found-first :
    (h : Heap) (x low p a : ℕ) (xs : List ℕ)
    → Chain h low p (a ∷ xs)
    → x ≤ h.data_ a
    → found h x a ≡ has x (values h (a ∷ xs))
unfolding found
found-first h x low p a xs (e, nz, lo, c) le =
    ground (arith, has-below h x (h.data_ a + 1) (h.next a) xs c)

-- The loop ends at a node with the value, or at a place where it is missing.
pub walk-found :
    (xs : List ℕ) (fuel : ℕ) (h : Heap) (x low prev p : ℕ)
    → Chain h low p xs
    → length xs < fuel
    → (q : ℕ) × (curr : ℕ) × (walk fuel h x prev p ≡ some (q, curr))
      × (found h x curr ≡ has x (values h xs))
unfolding found
walk-found xs zero h x low prev p c enough = absurd (omega arith)
walk-found [] (suc fuel) h x low prev p c enough =
    (prev, p, walk-off fuel h x prev p (inl c), ground arith)
walk-found (a ∷ xs) (suc fuel) h x low prev p (e, nz, lo, c) enough =
    elim (Bool-cases (ltb (h.data_ a) x)) [
      | inl less ↦ rw e (
          let (q, curr, w, f) =
            walk-found xs fuel h x (h.data_ a + 1) a (h.next a) c (omega arith) in
          (q, curr, walk-on fuel h x prev a nz (ground arith) ∙ w, f ∙ ground arith))
      | inr more ↦ rw e (
        prev,
        a,
        walk-off fuel h x prev a (inr (ground arith)),
        found-first h x low p a xs (e, nz, lo, c) (ground arith),
      )
    ]

-- Where the heap holds a sorted list and the fuel is more than the nodes, Member tells whether the
-- value is in the list.
pub member-has :
    (fuel x : ℕ) (h : Heap) (xs : List ℕ)
    → Chain h 0 h.head xs
    → length xs < fuel
    → member fuel x h ≡ some (has x (values h xs))
unfolding member
member-has fuel x h xs c enough =
    let (q, curr, w, f) = walk-found xs fuel h x 0 0 h.head c enough in rw (w, member) (ap some f)
