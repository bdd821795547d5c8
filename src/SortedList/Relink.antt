-- ===== src/SortedList/Relink.antt =====
-- What a change of the list at one place does to the rest of it.
use pthread_benchmark.Prelude.{ℕ, ◌+◌, ◌<◌, ◌≤◌, ◌≡◌, ◌≢◌, refl, ap, ◌∙◌, List, ◌∷◌, arith}
use mathlib.Core.Path.{ap₂}
use pthread_benchmark.SortedList.{Heap, link}
use pthread_benchmark.SortedList.Chain.{Chain, values, Chain-frame, Fresh-null}

-- The list from `p` on hangs on `prev`, a smaller node, or on the head where `prev` is NULL.
pub record Hangs (h : Heap) (low prev p : ℕ) : Type 0 where
  pub at_head : prev ≡ 0 → h.head ≡ p
  pub at_prev : prev ≢ 0 → h.next prev ≡ p
  pub smaller : prev ≢ 0 → h.data_ prev < low

pub beyond_first : (h : Heap) (a : ℕ) → a ≢ 0 → Hangs h (h.data_ a + 1) a (h.next a)
beyond_first h a nz = record {
  at_head = λ z. absurd (nz z);
  at_prev = λ ne. refl;
  smaller = λ ne. omega arith;
}

pub from_head : (h : Heap) → Hangs h 0 0 h.head
from_head h = record {
  at_head = λ z. refl;
  at_prev = λ ne. absurd (ne refl);
  smaller = λ ne. absurd (ne refl);
}

-- After a change behind `prev` the list there has the values `ys`; but for `prev` and a new node
-- `t` all smaller nodes are as before.
pub record Relinked (h h' : Heap) (t low prev : ℕ) (ys : List ℕ) : Type 0 where
  pub nodes : List ℕ
  pub start : ℕ
  pub chain : Chain h' low start nodes
  pub now : values h' nodes ≡ ys
  pub hangs : Hangs h' low prev start
  pub head_kept : prev ≢ 0 → h'.head ≡ h.head
  pub next_kept : (b : ℕ) → b ≢ prev → b ≢ t → h.data_ b < low → h'.next b ≡ h.next b
  pub data_kept : (b : ℕ) → b ≢ t → h'.data_ b ≡ h.data_ b

pub Relinked-same :
    (h : Heap) (t low prev p : ℕ) (xs : List ℕ)
    → Chain h low p xs
    → Hangs h low prev p
    → Relinked h h t low prev (values h xs)
Relinked-same h t low prev p xs c g = record {
  nodes = xs;
  start = p;
  chain = c;
  now = refl;
  hangs = g;
  head_kept = λ ne. refl;
  next_kept = λ b ne new lt. refl;
  data_kept = λ b new. refl;
}

-- A change further on, seen from the node before.
pub Relinked-cons :
    (h h' : Heap) (t low prev p a : ℕ) (ys : List ℕ)
    → Hangs h low prev p
    → p ≡ a
    → a ≢ 0
    → a ≢ t
    → (prev ≢ 0 → prev ≢ t)
    → low ≤ h.data_ a
    → Relinked h h' t (h.data_ a + 1) a ys
    → Relinked h h' t low prev (h.data_ a ∷ ys)
Relinked-cons h h' t low prev p a ys g e nz new old lo r = record {
  nodes = a ∷ r.nodes;
  start = a;
  chain = (
    refl,
    nz,
    omega (arith, r.data_kept a new),
    rw (r.data_kept a new) (rw (r.hangs.at_prev nz) r.chain),
  );
  now = ap₂ (λ y ys. y ∷ ys) (r.data_kept a new) r.now;
  hangs = record {
    at_head = λ z. r.head_kept nz ∙ (g.at_head z ∙ e);
    at_prev = λ ne.
        r.next_kept prev (λ s. omega (arith, ap h.data_ s, g.smaller ne)) (old ne)
          (omega (arith, g.smaller ne))
        ∙ (g.at_prev ne ∙ e);
    smaller = λ ne. omega (arith, r.data_kept prev (old ne), g.smaller ne);
  };
  head_kept = λ ne. r.head_kept nz;
  next_kept = λ b ne fresh lt. r.next_kept b (λ s. omega (arith, ap h.data_ s)) fresh (omega arith);
  data_kept = r.data_kept;
}

link-other : (g : Heap) (prev s b : ℕ) → b ≢ prev → (link g prev s).next b ≡ g.next b
unfolding link
link-other g prev s b ne = ground arith

link-data : (g : Heap) (prev s b : ℕ) → (link g prev s).data_ b ≡ g.data_ b
unfolding link
link-data g prev s b = ground arith

link-Hangs :
    (g : Heap) (low prev s : ℕ) → (prev ≢ 0 → g.data_ prev < low) → Hangs (link g prev s) low prev s
unfolding link
link-Hangs g low prev s lt = record {
  at_head = λ z. ground arith;
  at_prev = λ ne. ground arith;
  smaller = λ ne. omega (arith, link-data g prev s prev, lt ne);
}

link-head : (g : Heap) (prev s : ℕ) → prev ≢ 0 → (link g prev s).head ≡ g.head
unfolding link
link-head g prev s ne = ground arith

-- Linking `s` behind `prev` in a heap `g` that is `h` but for the node `t`.
pub link-Relinked :
    (h g : Heap) (t low prev s : ℕ) (xs : List ℕ)
    → g.head ≡ h.head
    → ((b : ℕ) → b ≢ t → (g.next b ≡ h.next b) × (g.data_ b ≡ h.data_ b))
    → Chain g low s xs
    → (prev ≢ 0 → h.data_ prev < low)
    → (prev ≢ 0 → prev ≢ t)
    → Relinked h (link g prev s) t low prev (values g xs)
link-Relinked h g t low prev s xs top same c lt old =
    let (c', v) = Chain-frame g (link g prev s) 0 low s xs c (Fresh-null g low s xs c) (λ a nz le. (
      link-data g prev s a,
      link-other g prev s a (λ e.
          omega (arith, ap g.data_ e, (same prev (old (λ z. nz (e ∙ z)))).1, lt (λ z. nz (e ∙ z)))),
    )) in
    record {
      nodes = xs;
      start = s;
      chain = c';
      now = v;
      hangs = link-Hangs g low prev s (λ ne. omega (arith, lt ne, same prev (old ne)));
      head_kept = λ ne. link-head g prev s ne ∙ top;
      next_kept = λ b ne new small. link-other g prev s b ne ∙ (same b new).0;
      data_kept = λ b new. link-data g prev s b ∙ (same b new).1;
    }
