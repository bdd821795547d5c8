-- ===== src/ArraySum/Parts.antt =====
-- What a worker computes over its part of the array, and how the parts make up the whole.
use pthread_benchmark.Prelude.{
  ℕ, zero, suc, ◌+◌, ◌-◌, ◌*◌, ◌≤◌, ◌<◌, ◌≡◌, ◌⊎◌, inl, inr, refl, sym, ap, subst, ltb, leb, ◌∙◌,
  Bool, true, false, ◌==◌, if◌then◌else◌, update, arith, Bool-cases, eq_of_==,
}
use pthread_benchmark.Prelude.Int.{ℤ, pos, ◌+ℤ◌, ◌≤ℤ◌, ltb_ℤ, +ℤ_comm, +ℤ_assoc, +ℤ-zero}
use pthread_benchmark.ArraySum.{Partial, nothing, take}

-- The sum of the first `n` numbers of `g`.
unfoldable pub sum_ints : (ℕ → ℤ) → ℕ → ℤ
sum_ints g zero = pos 0
sum_ints g (suc n) = sum_ints g n +ℤ g n

-- `x` is the lowest of 0 and the first `n` numbers of `g`; so for the greatest.
pub record IsLowest (g : ℕ → ℤ) (n : ℕ) (x : ℤ) : Type 0 where
  pub below_zero : x ≤ℤ pos 0
  pub below : (j : ℕ) → j < n → x ≤ℤ g j
  pub occurs : (x ≡ pos 0) ⊎ ((j : ℕ) × (j < n) × (x ≡ g j))

pub record IsGreatest (g : ℕ → ℤ) (n : ℕ) (x : ℤ) : Type 0 where
  pub above_zero : pos 0 ≤ℤ x
  pub above : (j : ℕ) → j < n → g j ≤ℤ x
  pub occurs : (x ≡ pos 0) ⊎ ((j : ℕ) × (j < n) × (x ≡ g j))

-- The partial results of the `k` numbers from `lo` on.
pub scanned : (ℕ → ℤ) → ℕ → ℕ → Partial
scanned g lo zero = nothing
scanned g lo (suc k) = take (scanned g lo k) (g (lo + k))

pub start_part : (g : ℕ → ℤ) (t1 : ℕ) → nothing ≡ scanned g t1 (t1 - t1)
unfolding scanned
start_part g t1 = let none : t1 - t1 ≡ 0 = omega arith in rw none refl

pub take-scanned :
    (g : ℕ → ℤ) (lo i : ℕ) → lo ≤ i → take (scanned g lo (i - lo)) (g i) ≡ scanned g lo (suc i - lo)
unfolding scanned
take-scanned g lo i le =
    let next : suc i - lo ≡ suc (i - lo) = omega arith in
    rw next (ap (λ j. take (scanned g lo (i - lo)) (g j)) (omega arith))

later :
    (h : ℕ → ℤ) (n : ℕ) (x : ℤ)
    → (x ≡ pos 0) ⊎ ((j : ℕ) × (j < n) × (x ≡ h j))
    → (x ≡ pos 0) ⊎ ((j : ℕ) × (j < suc n) × (x ≡ h j))
later h n x (inl e) = inl e
later h n x (inr (j, lt, e)) = inr (j, omega arith, e)

-- One more number.
IsLowest-more :
    (h : ℕ → ℤ) (k : ℕ) (y : ℤ)
    → IsLowest h k y
    → IsLowest h (suc k) (if ltb_ℤ (h k) y then h k else y)
IsLowest-more h k y r = elim (Bool-cases (ltb_ℤ (h k) y)) [
  | inl less ↦ rw less (
      let lt : h k ≤ℤ y = ground arith in
      record {
        below_zero = omega (arith, r.below_zero);
        below = λ j le. elim (Bool-cases (j == k)) [
          | inl e ↦ rw (eq_of_== j k e) (omega arith)
          | inr ne ↦ omega (arith, r.below j (ground arith))
        ];
        occurs = inr (k, omega arith, refl);
      })
  | inr more ↦ rw more (
      let ge : y ≤ℤ h k = ground arith in
      record {
        below_zero = r.below_zero;
        below = λ j le. elim (Bool-cases (j == k)) [
          | inl e ↦ rw (eq_of_== j k e) ge
          | inr ne ↦ r.below j (ground arith)
        ];
        occurs = later h k y r.occurs;
      })
]

IsGreatest-more :
    (h : ℕ → ℤ) (k : ℕ) (y : ℤ)
    → IsGreatest h k y
    → IsGreatest h (suc k) (if ltb_ℤ y (h k) then h k else y)
IsGreatest-more h k y r = elim (Bool-cases (ltb_ℤ y (h k))) [
  | inl more ↦ rw more (
      let lt : y ≤ℤ h k = ground arith in
      record {
        above_zero = omega (arith, r.above_zero);
        above = λ j le. elim (Bool-cases (j == k)) [
          | inl e ↦ rw (eq_of_== j k e) (omega arith)
          | inr ne ↦ omega (arith, r.above j (ground arith))
        ];
        occurs = inr (k, omega arith, refl);
      })
  | inr less ↦ rw less (
      let ge : h k ≤ℤ y = ground arith in
      record {
        above_zero = r.above_zero;
        above = λ j le. elim (Bool-cases (j == k)) [
          | inl e ↦ rw (eq_of_== j k e) ge
          | inr ne ↦ r.above j (ground arith)
        ];
        occurs = later h k y r.occurs;
      })
]

module _ (g : ℕ → ℤ) (lo : ℕ) where
  abbrev pub shift : ℕ → ℤ
  shift j = g (lo + j)

  pub scanned-IsLowest : (k : ℕ) → IsLowest shift k (scanned g lo k).local_min
  unfolding scanned take
  scanned-IsLowest zero = record {
    below_zero = omega arith;
    below = λ j lt. absurd (omega arith);
    occurs = inl refl;
  }
  scanned-IsLowest (suc k) = IsLowest-more shift k (scanned g lo k).local_min (scanned-IsLowest k)

  pub scanned-IsGreatest : (k : ℕ) → IsGreatest shift k (scanned g lo k).local_max
  unfolding scanned take
  scanned-IsGreatest zero = record {
    above_zero = omega arith;
    above = λ j lt. absurd (omega arith);
    occurs = inl refl;
  }
  scanned-IsGreatest (suc k) =
      IsGreatest-more shift k (scanned g lo k).local_max (scanned-IsGreatest k)

  pub scanned-sum : (k : ℕ) → sum_ints g lo +ℤ (scanned g lo k).local_sum ≡ sum_ints g (lo + k)
  unfolding scanned take sum_ints
  scanned-sum zero = +ℤ-zero (sum_ints g lo) ∙ ap (sum_ints g) (omega arith)
  scanned-sum (suc k) =
      let next : lo + suc k ≡ suc (lo + k) = omega arith in
      sym (+ℤ_assoc (sum_ints g lo) (scanned g lo k).local_sum (g (lo + k)))
      ∙ ap (λ s. s +ℤ g (lo + k)) (scanned-sum k)
      ∙ sym (ap (sum_ints g) next)

swap : (a b c : ℤ) → a +ℤ b +ℤ c ≡ a +ℤ c +ℤ b
swap a b c = +ℤ_assoc a b c ∙ ap (λ d. a +ℤ d) (+ℤ_comm b c) ∙ sym (+ℤ_assoc a c b)

-- The sum over the threads from 1 to `n` that are marked.
module _ (part : ℕ → ℤ) where
  pub marked_sum : (ℕ → Bool) → ℕ → ℤ
  marked_sum b zero = pos 0
  marked_sum b (suc n) =
      let rest = marked_sum b n in if b (suc n) then rest +ℤ part (suc n) else rest

  pub marked_sum-none : (n : ℕ) (b : ℕ → Bool) → ((t : ℕ) → b t ≡ false) → marked_sum b n ≡ pos 0
  unfolding marked_sum
  marked_sum-none zero b h = refl
  marked_sum-none (suc n) b h = rw (h (suc n)) (marked_sum-none n b h)

  marked_sum-outside :
      (n t : ℕ) (b : ℕ → Bool) → n < t → marked_sum (update b t true) n ≡ marked_sum b n
  unfolding marked_sum
  marked_sum-outside zero t b lt = refl
  marked_sum-outside (suc n) t b lt = ground (arith, marked_sum-outside n t b)

  pub marked_sum-mark :
      (n t : ℕ) (b : ℕ → Bool)
      → 0 < t
      → t ≤ n
      → b t ≡ false
      → marked_sum (update b t true) n ≡ marked_sum b n +ℤ part t
  unfolding marked_sum
  marked_sum-mark zero t b lo hi new = absurd (omega arith)
  marked_sum-mark (suc n) t b lo hi new = elim (Bool-cases (t == suc n)) [
    | inl here ↦
        let e = eq_of_== t (suc n) here in
        rw (here, subst (λ i. b i ≡ false) e new, marked_sum-outside n t b (omega arith), e) refl
    | inr away ↦
        rw (away, marked_sum-mark n t b lo (ground arith) new)
          (elim (Bool-cases (b (suc n))) [
            | inl old ↦ rw old (swap (marked_sum b n) (part t) (part (suc n)))
            | inr other ↦ rw other refl
          ])
  ]

-- The parts of `m + 1` numbers of `n` threads.
module _ (g : ℕ → ℤ) (m : ℕ) where
  pub part : ℕ → Partial
  part t = scanned g ((t - 1) * suc m) (suc m)

  part-suc : (i : ℕ) → part (suc i) ≡ scanned g (i * suc m) (suc m)
  unfolding part
  part-suc i = ap (λ j. scanned g (j * suc m) (suc m)) (omega arith)

  abbrev pub part_sum : ℕ → ℤ
  part_sum t = (part t).local_sum

  pub marked_sum-all :
      (n : ℕ) (b : ℕ → Bool)
      → ((t : ℕ) → 0 < t → t ≤ n → b t ≡ true)
      → marked_sum part_sum b n ≡ sum_ints g (n * suc m)
  unfolding marked_sum sum_ints
  marked_sum-all zero b h = let none : 0 * suc m ≡ 0 = omega arith in rw none refl
  marked_sum-all (suc n) b h =
      rw
        (
          h (suc n) (omega arith) (omega arith),
          marked_sum-all n b (λ t lo hi. h t lo (omega arith)),
        )
        (ap (λ (p : Partial). sum_ints g (n * suc m) +ℤ p.local_sum) (part-suc n)
          ∙ scanned-sum g (n * suc m) (suc m)
          ∙ ap (sum_ints g) {x = n * suc m + suc m} {y = suc n * suc m} (omega arith))

  -- Where a part has been scanned.
  pub whole_part :
      (t lo i : ℕ)
      → lo ≡ (t - 1) * suc m
      → lo ≤ i
      → i ≤ suc (lo + m)
      → leb i (lo + m) ≡ false
      → scanned g lo (i - lo) ≡ part t
  unfolding part
  whole_part t lo i e le hi last =
      let count : i - lo ≡ suc m = ground arith in rw count (ap (λ j. scanned g j (suc m)) e)

  -- The part that holds element `j`.
  holder :
      (n j : ℕ) → j < n * suc m → (i : ℕ) × (k : ℕ) × (i < n) × (k < suc m) × (j ≡ i * suc m + k)
  holder zero j lt = absurd (omega arith)
  holder (suc n) j lt = elim (Bool-cases (ltb j (n * suc m))) [
    | inl before ↦ let (i, k, li, lk, e) = holder n j (ground arith) in (i, k, omega arith, lk, e)
    | inr here ↦ (n, j - n * suc m, omega arith, ground arith, ground arith)
  ]

  -- What is at most the lowest of every part is so for the whole.
  pub lowest_of_parts :
      (n : ℕ) (x : ℤ)
      → ((t : ℕ) → 0 < t → t ≤ n → x ≤ℤ (part t).local_min)
      → (j : ℕ) → j < n * suc m
      → x ≤ℤ g j
  lowest_of_parts n x h j lt =
      let (i, k, li, lk, e) = holder n j lt in
      let of_part = (scanned-IsLowest g (i * suc m) (suc m)).below k lk in
      rw e (omega (arith, (rw (part-suc i) at (h (suc i) (omega arith) (omega arith))), of_part))

  pub greatest_of_parts :
      (n : ℕ) (x : ℤ)
      → ((t : ℕ) → 0 < t → t ≤ n → (part t).local_max ≤ℤ x)
      → (j : ℕ) → j < n * suc m
      → g j ≤ℤ x
  greatest_of_parts n x h j lt =
      let (i, k, li, lk, e) = holder n j lt in
      let of_part = (scanned-IsGreatest g (i * suc m) (suc m)).above k lk in
      rw e (omega (arith, (rw (part-suc i) at (h (suc i) (omega arith) (omega arith))), of_part))

  pub inside_whole : (n t k : ℕ) → 0 < t → t ≤ n → k < suc m → (t - 1) * suc m + k < n * suc m
  inside_whole n t k lo hi lt = grind arith

  occurs_in_whole :
      (n t : ℕ) (x : ℤ)
      → 0 < t
      → t ≤ n
      → (x ≡ pos 0) ⊎ ((k : ℕ) × (k < suc m) × (x ≡ g ((t - 1) * suc m + k)))
      → (x ≡ pos 0) ⊎ ((j : ℕ) × (j < n * suc m) × (x ≡ g j))
  occurs_in_whole n t x lo hi (inl e) = inl e
  occurs_in_whole n t x lo hi (inr (k, lt, e)) =
      inr ((t - 1) * suc m + k, inside_whole n t k lo hi lt, e)

  pub part-min-occurs :
      (n t : ℕ)
      → 0 < t
      → t ≤ n
      → ((part t).local_min ≡ pos 0) ⊎ ((j : ℕ) × (j < n * suc m) × ((part t).local_min ≡ g j))
  unfolding part
  part-min-occurs n t lo hi =
      occurs_in_whole n t (part t).local_min lo hi
        (scanned-IsLowest g ((t - 1) * suc m) (suc m)).occurs

  pub part-max-occurs :
      (n t : ℕ)
      → 0 < t
      → t ≤ n
      → ((part t).local_max ≡ pos 0) ⊎ ((j : ℕ) × (j < n * suc m) × ((part t).local_max ≡ g j))
  unfolding part
  part-max-occurs n t lo hi =
      occurs_in_whole n t (part t).local_max lo hi
        (scanned-IsGreatest g ((t - 1) * suc m) (suc m)).occurs
