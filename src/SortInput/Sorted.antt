-- ===== src/SortInput/Sorted.antt =====
-- The array is sorted, and has the values that it had.
use pthread_benchmark.Prelude.{
  ℕ, zero, suc, ◌+◌, ◌<◌, ◌≤◌, ◌≡◌, ◌≢◌, refl, true, update, arith, Bool-cases, inl, inr, ◌==◌,
  sum_below, sum_below-change, ap, ◌∙◌,
}
use pthread_benchmark.Prelude.Int.{ℤ, ltb_ℤ, ◌≤ℤ◌}
use pthread_benchmark.SortInput.{shift_in, func}

-- The entries up to `i` ascend, but for the one at `j`, and those from there on are not below `t`.
record Gap (t : ℤ) (j i : ℕ) (a : ℕ → ℤ) : Type 0 where
  ascends : (p q : ℕ) → p < q → q ≤ i → p ≢ j → q ≢ j → a p ≤ℤ a q
  above : (q : ℕ) → j < q → q ≤ i → t ≤ℤ a q

pub record Ascending (n : ℕ) (a : ℕ → ℤ) : Type 0 where
  pub each : (p q : ℕ) → p < q → q < n → a p ≤ℤ a q

stored :
    (t : ℤ) (j i : ℕ) (a : ℕ → ℤ)
    → Gap t j i a
    → ((p : ℕ) → p < j → a p ≤ℤ t)
    → Ascending (suc i) (update a j t)
stored t j i a g lo = record {
  each = λ p q lt le. elim (Bool-cases (j == p)) [
    | inl at_p ↦ ground (arith, g.above q)
    | inr off_p ↦ elim (Bool-cases (j == q)) [
      | inl at_q ↦ ground (arith, lo p)
      | inr off_q ↦ ground (arith, g.ascends p q)
    ]
  ];
}

moved_on :
    (t : ℤ) (j i : ℕ) (a : ℕ → ℤ)
    → j < i
    → Gap t (suc j) i a
    → ltb_ℤ t (a j) ≡ true
    → Gap t j i (update a (suc j) (a j))
moved_on t j i a le g less = record {
  ascends = λ p q lt q_le p_ne q_ne. elim (Bool-cases (suc j == p)) [
    | inl at_p ↦ ground (arith, g.ascends j q)
    | inr off_p ↦ elim (Bool-cases (suc j == q)) [
      | inl at_q ↦ ground (arith, g.ascends p j)
      | inr off_q ↦ ground (arith, g.ascends p q)
    ]
  ];
  above = λ q lt q_le. elim (Bool-cases (suc j == q)) [
    | inl here ↦ ground arith
    | inr away ↦ ground (arith, g.above q)
  ];
}

shift_in-Ascending :
    (t : ℤ) (j i : ℕ) (a : ℕ → ℤ) → j ≤ i → Gap t j i a → Ascending (suc i) (shift_in t j a)
unfolding shift_in
shift_in-Ascending t zero i a le g = stored t 0 i a g (λ p lt. absurd (omega arith))
shift_in-Ascending t (suc j) i a le g = elim (Bool-cases (ltb_ℤ t (a j))) [
  | inl less ↦ rw less (
      shift_in-Ascending t j i (update a (suc j) (a j)) (omega arith)
        (moved_on t j i a (omega arith) g less))
  | inr fits ↦ rw fits (
      stored t (suc j) i a g (λ p lt. elim (Bool-cases (p == j)) [
        | inl last ↦ ground arith
        | inr first ↦ ground (arith, g.ascends p j)
      ]))
]

-- The sum of any weight: with the weight of one value, how often it occurs.
abbrev pub total : (ℤ → ℕ) → ℕ → (ℕ → ℤ) → ℕ
total f n a = sum_below (λ k. f (a k)) n

total-update :
    (f : ℤ → ℕ) (a : ℕ → ℤ) (i n : ℕ) (x : ℤ)
    → i < n
    → total f n (update a i x) + f (a i) ≡ total f n a + f x
total-update f a i n x lt =
    let here : update a i x i ≡ x = ground arith in
    sum_below-change (λ k. f (update a i x k)) (λ k. f (a k)) i n (λ j ne. ap f (ground arith)) lt
    ∙ ap (λ y. total f n a + f y) here

total-shift_in :
    (f : ℤ → ℕ) (t : ℤ) (j n : ℕ) (a : ℕ → ℤ)
    → j < n
    → total f n (shift_in t j a) + f (a j) ≡ total f n a + f t
unfolding shift_in
total-shift_in f t zero n a lt = total-update f a 0 n t lt
total-shift_in f t (suc j) n a lt = elim (Bool-cases (ltb_ℤ t (a j))) [
  | inl less ↦
      let moved : update a (suc j) (a j) j ≡ a j = ground arith in
      rw less (
        omega (
          arith,
          total-shift_in f t j n (update a (suc j) (a j)) (omega arith),
          total-update f a (suc j) n (a j) lt,
          ap f moved,
        ))
  | inr fits ↦ rw fits (total-update f a (suc j) n t lt)
]

func-Ascending : (n : ℕ) (source : ℕ → ℤ) → Ascending n (func n source)
unfolding func
func-Ascending zero source = record { each = λ p q lt le. absurd (omega arith) }
func-Ascending (suc i) source =
    shift_in-Ascending (func i source i) i i (func i source) (omega arith) (record {
      ascends = λ p q lt le p_ne q_ne. (func-Ascending i source).each p q lt (omega arith);
      above = λ q lt le. absurd (omega arith);
    })

total-func :
    (f : ℤ → ℕ) (i n : ℕ) (source : ℕ → ℤ) → i ≤ n → total f n (func i source) ≡ total f n source
unfolding func
total-func f zero n source le = refl
total-func f (suc i) n source le = omega (
  arith,
  total-shift_in f (func i source i) i n (func i source) (omega arith),
  total-func f i n source (omega arith),
)

-- For every number of rounds and every array: after so many rounds of func over an array that
-- nothing else changes, so many first entries ascend, and every weight has the same sum over them
-- as before, so that each value stands among them as often.
pub func-Ascending_same :
    (n : ℕ) (source : ℕ → ℤ)
    → Ascending n (func n source) × ((f : ℤ → ℕ) → total f n (func n source) ≡ total f n source)
func-Ascending_same n source = (func-Ascending n source, λ f. total-func f n n source (omega arith))
