-- ===== src/SortedList/Insert.antt =====
-- `Insert` of mutex_linked_list.c.
use pthread_benchmark.Prelude.{
  ℕ, zero, suc, ◌+◌, ◌<◌, ◌≤◌, ◌≡◌, ◌≢◌, refl, sym, ap, ◌∙◌, inl, inr, Bool, true, false, not, some,
  List, [], ◌∷◌, ◌==◌, ltb, update, length, arith, Bool-cases, subst, eq_of_==,
}
use mathlib.Core.Path.{ap₂}
use pthread_benchmark.SortedList.{Heap, walk, found, link, place, insert}
use pthread_benchmark.SortedList.Chain.{
  Chain, Fresh, values, has, add, Chain-frame, has-below, walk-on, walk-off, found_at, missing,
}
use pthread_benchmark.SortedList.Relink.{
  Hangs, beyond_first, from_head, Relinked, Relinked-same, Relinked-cons, link-Relinked,
}

-- What the insertion of `x` gives, with `t` the address that malloc gave.
abbrev Inserted : Heap → (t low prev : ℕ) → (x : ℕ) → List ℕ → Heap × Bool → Type 0
Inserted h t low prev x ys r = Relinked h r.0 t low prev (add x ys) × (r.1 ≡ not (has x ys))

-- `malloc` and the two assignments that follow it.
abbrev new_node : Heap → ℕ → ℕ → ℕ → Heap
new_node h x t p = record h { data_ = update h.data_ t x; next = update h.next t p }

place-missing :
    (h : Heap) (x t prev p : ℕ)
    → found h x p ≡ false
    → place h x t prev p ≡ (link (new_node h x t p) prev t, true)
unfolding place
place-missing h x t prev p e = rw e refl

place-there : (h : Heap) (x t prev p : ℕ) → found h x p ≡ true → place h x t prev p ≡ (h, false)
unfolding place
place-there h x t prev p e = rw e refl

-- A value below all of a list goes before it.
add-below :
    (h : Heap) (x low p : ℕ) (xs : List ℕ)
    → Chain h low p xs
    → x < low
    → add x (values h xs) ≡ x ∷ values h xs
add-below h x low p [] c lt = refl
add-below h x low p (a ∷ xs) (e, nz, lo, c) lt = ground arith

update_self : (f : ℕ → ℕ) (i y : ℕ) → update f i y i ≡ y
update_self f i y = ground arith

new-Inserted :
    (h : Heap) (x t low prev p : ℕ) (xs : List ℕ)
    → Chain h (x + 1) p xs
    → Fresh t xs
    → Hangs h low prev p
    → low ≤ x
    → t ≢ 0
    → (prev ≢ 0 → prev ≢ t)
    → found h x p ≡ false
    → Inserted h t low prev x (values h xs) (place h x t prev p)
new-Inserted h x t low prev p xs c f g lo nz old e =
    let (c', v) = Chain-frame h (new_node h x t p) t (x + 1) p xs c f (λ a ne le. ground arith) in
    rw (place-missing h x t prev p e) (
      subst (Relinked h _ t low prev)
          (ap₂ (λ y ys. y ∷ ys) (update_self h.data_ t x) v
            ∙ sym (add-below h x (x + 1) p xs c (omega arith)))
          (link-Relinked h (new_node h x t p) t low prev t (t ∷ xs) refl (λ b ne. ground arith)
            (
              refl,
              nz,
              rw (update_self h.data_ t x) lo,
              rw (update_self h.data_ t x) (rw (update_self h.next t p) c'),
            )
            g.smaller old),
      ground (arith, has-below h x (x + 1) p xs c),
    )

there-Inserted :
    (h : Heap) (x t low prev p a : ℕ) (xs : List ℕ)
    → Chain h low p (a ∷ xs)
    → Hangs h low prev p
    → h.data_ a ≡ x
    → Inserted h t low prev x (values h (a ∷ xs)) (place h x t prev p)
there-Inserted h x t low prev p a xs (e, nz, lo, c) g eq =
    rw (place-there h x t prev p (found_at h x p (λ z. nz (sym e ∙ z)) (ap h.data_ e ∙ eq))) (
      subst (Relinked h h t low prev) (ground arith)
          (Relinked-same h t low prev p (a ∷ xs) (e, nz, lo, c) g),
      ground arith,
    )

cons-Inserted :
    (h : Heap) (x t low prev p a : ℕ) (ys : List ℕ) (r : Heap × Bool)
    → Hangs h low prev p
    → p ≡ a
    → a ≢ 0
    → a ≢ t
    → (prev ≢ 0 → prev ≢ t)
    → low ≤ h.data_ a
    → h.data_ a < x
    → Inserted h t (h.data_ a + 1) a x ys r
    → Inserted h t low prev x (h.data_ a ∷ ys) r
cons-Inserted h x t low prev p a ys r g e nz new old lo lt (i, b) = (
  subst (Relinked h r.0 t low prev) (ground arith)
      (Relinked-cons h r.0 t low prev p a (add x ys) g e nz new old lo i),
  b ∙ ground arith,
)

-- The loop ends, and what follows it inserts the value.
walk-Inserted :
    (xs : List ℕ) (fuel : ℕ) (h : Heap) (x t low prev p : ℕ)
    → Chain h low p xs
    → Fresh t xs
    → Hangs h low prev p
    → low ≤ x
    → t ≢ 0
    → (prev ≢ 0 → prev ≢ t)
    → length xs < fuel
    → (q : ℕ) × (curr : ℕ) × (walk fuel h x prev p ≡ some (q, curr))
      × Inserted h t low prev x (values h xs) (place h x t q curr)
walk-Inserted xs zero h x t low prev p c f g lo nz old enough = absurd (omega arith)
walk-Inserted [] (suc fuel) h x t low prev p c f g lo nz old enough = (
  prev,
  p,
  walk-off fuel h x prev p (inl c),
  new-Inserted h x t low prev p [] c f g lo nz old (missing h x p (inl c)),
)
walk-Inserted (a ∷ xs) (suc fuel) h x t low prev p (e, na, la, c) f g lo nz old enough =
    elim (Bool-cases (ltb (h.data_ a) x)) [
      | inl less ↦
          let (q, curr, w, r) =
            walk-Inserted xs fuel h x t (h.data_ a + 1) a (h.next a) c f.1 (beyond_first h a na)
              (ground arith) nz (λ z. f.0) (omega arith) in
          (
            q,
            curr,
            rw e (walk-on fuel h x prev a na (ground arith)) ∙ w,
            cons-Inserted h x t low prev p a (values h xs) _ g e na f.0 old la (ground arith) r,
          )
      | inr more ↦ (
        prev,
        p,
        walk-off fuel h x prev p (inr (rw e (ground arith))),
        elim (Bool-cases (h.data_ a == x)) [
          | inl here ↦
              there-Inserted h x t low prev p a xs (e, na, la, c) g (eq_of_== (h.data_ a) x here)
          | inr away ↦
              new-Inserted h x t low prev p (a ∷ xs) (e, na, ground arith, c) f g lo nz old
                (missing h x p (inr (rw e (ground arith))))
        ],
      )
    ]

-- Where the heap holds a sorted list, malloc gives a new address other than NULL and the fuel is
-- more than the nodes, Insert ends, the heap then holds the sorted list with the value, and the
-- result tells whether the value was new.
pub insert-add :
    (fuel x t : ℕ) (h : Heap) (xs : List ℕ)
    → Chain h 0 h.head xs
    → Fresh t xs
    → t ≢ 0
    → length xs < fuel
    → (h' : Heap) × (ys : List ℕ) × (insert fuel x t h ≡ some (h', not (has x (values h xs))))
      × Chain h' 0 h'.head ys
      × (values h' ys ≡ add x (values h xs))
unfolding insert
insert-add fuel x t h xs c f nz enough =
    let (q, curr, w, (r, b)) =
      walk-Inserted xs fuel h x t 0 0 h.head c f (from_head h) (omega arith) nz
        (λ ne. absurd (ne refl)) enough in
    (
      (place h x t q curr).0,
      r.nodes,
      rw (w, insert) (ap (λ b. some ((place h x t q curr).0, b)) b),
      rw (r.hangs.at_head refl) r.chain,
      r.now,
    )
