-- ===== src/SortedList/Delete.antt =====
-- `Delete` of mutex_linked_list.c.
use pthread_benchmark.Prelude.{
  ℕ, zero, suc, ◌+◌, ◌<◌, ◌≤◌, ◌≡◌, ◌≢◌, ◌⊎◌, refl, sym, ap, ◌∙◌, inl, inr, Bool, true, false, some,
  List, [], ◌∷◌, ◌==◌, ltb, length, arith, Bool-cases, subst, eq_of_==,
}
use pthread_benchmark.SortedList.{Heap, walk, to_delete, link, unlink, delete}
use pthread_benchmark.SortedList.Chain.{
  Chain, values, has, remove, Chain-weaken, has-below, walk-on, walk-off,
}
use pthread_benchmark.SortedList.Relink.{
  Hangs, beyond_first, from_head, Relinked, Relinked-same, Relinked-cons, link-Relinked,
}

-- What the deletion of `x` gives. No node is new, so the new node's place is NULL's.
abbrev Deleted : Heap → (low prev : ℕ) → (x : ℕ) → List ℕ → Heap × Bool → Type 0
Deleted h low prev x ys r = Relinked h r.0 0 low prev (remove x ys) × (r.1 ≡ has x ys)

delete_at : (h : Heap) (x p : ℕ) → p ≢ 0 → h.data_ p ≡ x → to_delete h x p ≡ true
unfolding to_delete
delete_at h x p nz e = ground arith

no_delete : (h : Heap) (x p : ℕ) → (p ≡ 0) ⊎ (x < h.data_ p) → to_delete h x p ≡ false
unfolding to_delete
no_delete h x p (inl z) = ground arith
no_delete h x p (inr lt) = ground arith

unlink-there :
    (h : Heap) (x prev p : ℕ)
    → to_delete h x p ≡ true
    → unlink h x prev p ≡ (link h prev (h.next p), true)
unfolding unlink
unlink-there h x prev p e = rw e refl

unlink-missing :
    (h : Heap) (x prev p : ℕ) → to_delete h x p ≡ false → unlink h x prev p ≡ (h, false)
unfolding unlink
unlink-missing h x prev p e = rw e refl

-- A value below all of a list is not in it, and its removal changes nothing.
remove-below :
    (h : Heap) (x low p : ℕ) (xs : List ℕ)
    → Chain h low p xs
    → x < low
    → remove x (values h xs) ≡ values h xs
remove-below h x low p [] c lt = refl
remove-below h x low p (a ∷ xs) (e, nz, lo, c) lt =
    ground (arith, remove-below h x (h.data_ a + 1) (h.next a) xs c (omega arith))

missing-Deleted :
    (h : Heap) (x low prev p : ℕ) (xs : List ℕ)
    → Chain h low p xs
    → Chain h (x + 1) p xs
    → Hangs h low prev p
    → to_delete h x p ≡ false
    → Deleted h low prev x (values h xs) (unlink h x prev p)
missing-Deleted h x low prev p xs c c' g e = rw (unlink-missing h x prev p e) (
  subst (Relinked h h 0 low prev) (sym (remove-below h x (x + 1) p xs c' (omega arith)))
      (Relinked-same h 0 low prev p xs c g),
  sym (has-below h x (x + 1) p xs c' (omega arith)),
)

there-Deleted :
    (h : Heap) (x low prev p a : ℕ) (xs : List ℕ)
    → Chain h low p (a ∷ xs)
    → Hangs h low prev p
    → h.data_ a ≡ x
    → Deleted h low prev x (values h (a ∷ xs)) (unlink h x prev p)
there-Deleted h x low prev p a xs (e, nz, lo, c) g eq =
    rw (unlink-there h x prev p (delete_at h x p (λ z. nz (sym e ∙ z)) (ap h.data_ e ∙ eq))) (
      subst (Relinked h _ 0 low prev) (ground arith) (
          link-Relinked h h 0 low prev (h.next p) xs refl (λ b nz. (refl, refl))
            (rw e (Chain-weaken h (h.data_ a + 1) low (h.next a) xs (omega arith) c)) g.smaller
            (λ ne. ne)),
      ground arith,
    )

cons-Deleted :
    (h : Heap) (x low prev p a : ℕ) (ys : List ℕ) (r : Heap × Bool)
    → Hangs h low prev p
    → p ≡ a
    → a ≢ 0
    → low ≤ h.data_ a
    → h.data_ a < x
    → Deleted h (h.data_ a + 1) a x ys r
    → Deleted h low prev x (h.data_ a ∷ ys) r
cons-Deleted h x low prev p a ys r g e nz lo lt (i, b) = (
  subst (Relinked h r.0 0 low prev) (ground arith)
      (Relinked-cons h r.0 0 low prev p a (remove x ys) g e nz nz (λ ne. ne) lo i),
  b ∙ ground arith,
)

-- The loop ends, and what follows it removes the value.
walk-Deleted :
    (xs : List ℕ) (fuel : ℕ) (h : Heap) (x low prev p : ℕ)
    → Chain h low p xs
    → Hangs h low prev p
    → length xs < fuel
    → (q : ℕ) × (curr : ℕ) × (walk fuel h x prev p ≡ some (q, curr))
      × Deleted h low prev x (values h xs) (unlink h x q curr)
walk-Deleted xs zero h x low prev p c g enough = absurd (omega arith)
walk-Deleted [] (suc fuel) h x low prev p c g enough = (
  prev,
  p,
  walk-off fuel h x prev p (inl c),
  missing-Deleted h x low prev p [] c c g (no_delete h x p (inl c)),
)
walk-Deleted (a ∷ xs) (suc fuel) h x low prev p (e, na, la, c) g enough =
    elim (Bool-cases (ltb (h.data_ a) x)) [
      | inl less ↦
          let (q, curr, w, r) =
            walk-Deleted xs fuel h x (h.data_ a + 1) a (h.next a) c (beyond_first h a na)
              (omega arith) in
          (
            q,
            curr,
            rw e (walk-on fuel h x prev a na (ground arith)) ∙ w,
            cons-Deleted h x low prev p a (values h xs) _ g e na la (ground arith) r,
          )
      | inr more ↦ (
        prev,
        p,
        walk-off fuel h x prev p (inr (rw e (ground arith))),
        elim (Bool-cases (h.data_ a == x)) [
          | inl here ↦
              there-Deleted h x low prev p a xs (e, na, la, c) g (eq_of_== (h.data_ a) x here)
          | inr away ↦
              missing-Deleted h x low prev p (a ∷ xs) (e, na, la, c) (e, na, ground arith, c) g
                (no_delete h x p (inr (rw e (ground arith))))
        ],
      )
    ]

-- Where the heap holds a sorted list and the fuel is more than the nodes, Delete ends, the heap
-- then holds the sorted list without the value, and the result tells whether the value was there.
pub delete-remove :
    (fuel x : ℕ) (h : Heap) (xs : List ℕ)
    → Chain h 0 h.head xs
    → length xs < fuel
    → (h' : Heap) × (ys : List ℕ) × (delete fuel x h ≡ some (h', has x (values h xs)))
      × Chain h' 0 h'.head ys
      × (values h' ys ≡ remove x (values h xs))
unfolding delete
delete-remove fuel x h xs c enough =
    let (q, curr, w, (r, b)) = walk-Deleted xs fuel h x 0 0 h.head c (from_head h) enough in
    (
      (unlink h x q curr).0,
      r.nodes,
      rw (w, delete) (ap (λ b. some ((unlink h x q curr).0, b)) b),
      rw (r.hangs.at_head refl) r.chain,
      r.now,
    )
