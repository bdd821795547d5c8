-- ===== src/BoundedBuffer/Ring.antt =====
-- The buffer of 05bounded.c as a queue of the items produced and not yet consumed.
use pthread_benchmark.Prelude.{
  ℕ, suc, ◌+◌, ◌-◌, ◌%◌, ◌<◌, ◌≤◌, ◌≡◌, refl, sym, ap, ◌∙◌, List, [], ◌∷◌, ◌++◌, get_or, take,
  length, update, arith, append_assoc, take-snoc, length-take, length-append, take-snoc_of_append,
}
use pthread_benchmark.Prelude.Cyclic.{window, window-snoc, window-pop}
use pthread_benchmark.BoundedBuffer.{Buffer, bsize, numitems, item}

pub length-item : length item ≡ 30
unfolding item
length-item = refl

-- A buffer of four places with `n` items in it, the oldest at `o`, the next free place `i`; `p` was
-- produced, `c` consumed.
pub record Ring (b : ℕ → ℕ) (i o n : ℕ) (p c : List ℕ) : Type 0 where
  pub in_range : i < bsize
  pub out_range : o < bsize
  pub fits_in : n ≤ bsize
  pub meets : i ≡ (o + n) % bsize
  pub queue : p ≡ c ++ window b bsize o n
  pub text : p ≡ take (length p) item

abbrev pub Whole : Buffer → Type 0
Whole b = Ring b.buf b.nextin b.nextout b.occupied b.produced b.consumed

-- What is produced next is the next character of the text.
pub Made-next :
    {i : ℕ} {p : List ℕ}
    → i < numitems
    → p ≡ take i item
    → p ++ (get_or item i 0 ∷ []) ≡ take (i + 1) item
Made-next {i} li made =
    rw made (take-snoc item i 0 (omega (arith, length-item)))
    ∙ ap (λ m. take m item) {x = suc i} {y = i + 1} (omega arith)

-- The item that the producer stores goes to the end of the queue.
pub Ring-store :
    {b : ℕ → ℕ} {n o k : ℕ} {p c : List ℕ} (i : ℕ)
    → Ring b n o k p c
    → k < bsize
    → i < numitems
    → p ≡ take i item
    → Ring
        (update b n (get_or item i 0))
        ((n + 1) % bsize)
        o
        (k + 1)
        (p ++ (get_or item i 0 ∷ []))
        c
Ring-store {b} {n} {o} {k} {p} {c} i r lt li made = record {
  in_range = omega arith;
  out_range = r.out_range;
  fits_in = omega arith;
  meets = omega (arith, r.meets);
  queue =
      ap (λ l. l ++ (get_or item i 0 ∷ [])) r.queue
      ∙ append_assoc c (window b bsize o k) (get_or item i 0 ∷ [])
      ∙ ap (λ l. c ++ l)
          (rw r.meets (sym (window-snoc b bsize o k (get_or item i 0) r.out_range lt)));
  text =
      Made-next li made
      ∙ ap (λ m. take m item) {x = i + 1} {y = length (p ++ (get_or item i 0 ∷ []))}
          (omega (
            arith,
            ap (length {0}) (Made-next li made),
            length-take item (i + 1) (omega (arith, length-item)),
          ));
}

pub Ring-load :
    {b : ℕ → ℕ} {n o k : ℕ} {p c : List ℕ}
    → Ring b n o k p c
    → 0 < k
    → Ring b n ((o + 1) % bsize) (k - 1) p (c ++ (b o ∷ []))
Ring-load {b} {n} {o} {k} {p} {c} r lt = record {
  in_range = r.in_range;
  out_range = omega arith;
  fits_in = omega (arith, r.fits_in);
  meets = omega (arith, r.meets);
  queue =
      r.queue
      ∙ ap (λ l. c ++ l) (window-pop b bsize o k r.out_range lt r.fits_in)
      ∙ sym (append_assoc c (b o ∷ []) (window b bsize ((o + 1) % bsize) (k - 1)));
  text = r.text;
}

-- What is consumed next is the next character of the text.
pub Taken-next :
    {b : ℕ → ℕ} {n o k i : ℕ} {p c : List ℕ} (x : ℕ)
    → Ring b n o k p (c ++ (x ∷ []))
    → c ≡ take i item
    → i ≡ length c
    → (c ++ (x ∷ []) ≡ take (i + 1) item) × (i + 1 ≡ length (c ++ (x ∷ [])))
Taken-next {b} {o} {k} {i} {p} {c} x r e l = (
  take-snoc_of_append c x (window b bsize o k) item (length p)
        (sym (append_assoc c (x ∷ []) (window b bsize o k)) ∙ sym r.queue ∙ r.text)
      ∙ ap (λ m. take m item) {x = suc (length c)} {y = i + 1} (omega arith),
  omega (arith, length-append c (x ∷ [])),
)
