-- ===== src/JobList/Order.antt =====
-- The order of the job list: `insert` puts a job behind those that finish earlier.
use pthread_benchmark.Prelude.{
  ℕ, zero, suc, ◌+◌, ◌<◌, ◌≤◌, ◌≡◌, refl, sym, ap, inl, inr, some, List, [], ◌∷◌, ◌++◌, ltb,
  if◌then◌else◌, length, arith, Bool-cases,
}
use mathlib.Core.List.Perm
use mathlib.Core.List.{Perm, perm_middle}
use pthread_benchmark.JobList.{
  Job, finish, count, count_earlier, add, link_after, add_after, add_last, insert_counted, insert,
  insert_all,
}

-- The jobs in the order in which they finish.
abbrev pub Ascends : ℕ → List Job → Type 0
Ascends low [] = Unit
Ascends low (x ∷ xs) = (low ≤ finish x) × Ascends (finish x) xs

abbrev pub put_in : Job → List Job → List Job
put_in j [] = j ∷ []
put_in j (x ∷ xs) = if ltb (finish x) (finish j) then x ∷ put_in j xs else j ∷ x ∷ xs

abbrev earlier : Job → List Job → ℕ
earlier j [] = 0
earlier j (x ∷ xs) = (if ltb (finish x) (finish j) then 1 else 0) + earlier j xs

count-length : (xs : List Job) → count xs ≡ length xs
unfolding count
count-length [] = refl
count-length (x ∷ xs) = omega (arith, count-length xs)

count_earlier-earlier : (j : Job) (xs : List Job) (c : ℕ) → count_earlier j xs c ≡ c + earlier j xs
unfolding count_earlier
count_earlier-earlier j [] c = omega arith
count_earlier-earlier j (x ∷ xs) c =
    ground (arith, count_earlier-earlier j xs (c + 1), count_earlier-earlier j xs c)

earlier-length : (j : Job) (xs : List Job) → earlier j xs ≤ length xs
earlier-length j [] = omega arith
earlier-length j (x ∷ xs) = ground (arith, earlier-length j xs)

earlier-none :
    (j : Job) (xs : List Job) (low : ℕ) → Ascends low xs → finish j ≤ low → earlier j xs ≡ 0
earlier-none j [] low a le = refl
earlier-none j (x ∷ xs) low (lo, a) le =
    ground (arith, earlier-none j xs (finish x) a (omega arith))

put_in-first : (j : Job) (xs : List Job) → earlier j xs ≡ 0 → put_in j xs ≡ j ∷ xs
put_in-first j [] e = refl
put_in-first j (x ∷ xs) e = ground arith

link_after-put_in :
    (j : Job) (xs : List Job) (low n : ℕ)
    → Ascends low xs
    → earlier j xs ≡ suc n
    → earlier j xs < length xs
    → link_after (suc n) j xs ≡ some (put_in j xs)
unfolding link_after
link_after-put_in j [] low n a e lt = absurd (omega arith)
link_after-put_in j (x ∷ xs) low zero (lo, a) e lt = elim (Bool-cases (ltb (finish x) (finish j))) [
  | inl is ↦ ground (arith, put_in-first j xs)
  | inr late ↦ absurd (ground (arith, earlier-none j xs (finish x) a))
]
link_after-put_in j (x ∷ xs) low (suc m) (lo, a) e lt =
    elim (Bool-cases (ltb (finish x) (finish j))) [
      | inl is ↦ ground (arith, link_after-put_in j xs (finish x) m a)
      | inr late ↦ absurd (ground (arith, earlier-none j xs (finish x) a))
    ]

add_last-put_in :
    (j x : Job) (xs : List Job)
    → earlier j (x ∷ xs) ≡ length (x ∷ xs)
    → add_last j (x ∷ xs) ≡ some (put_in j (x ∷ xs))
unfolding add_last
add_last-put_in j x [] e = ground arith
add_last-put_in j x (y ∷ xs) e = ground (arith, earlier-length j (y ∷ xs), add_last-put_in j y xs)

insert_counted-put_in :
    (j x : Job) (xs : List Job) (c : ℕ)
    → Ascends 0 (x ∷ xs)
    → c ≡ earlier j (x ∷ xs)
    → insert_counted j c (x ∷ xs) ≡ some (put_in j (x ∷ xs))
unfolding insert_counted add add_after
insert_counted-put_in j x xs zero a e = ap some (sym (put_in-first j (x ∷ xs) (sym e)))
insert_counted-put_in j x xs (suc n) a e = elim (Bool-cases (ltb (suc n) (count (x ∷ xs)))) [
  | inl inside ↦ ground (arith, link_after-put_in j (x ∷ xs) 0 n a (sym e), count-length (x ∷ xs))
  | inr behind ↦
      ground (arith, add_last-put_in j x xs, count-length (x ∷ xs), earlier-length j (x ∷ xs))
]

-- Where the list ascends by finishing time, insert, which counts the jobs that finish earlier and
-- then links the new one at one of three places, does not fault and puts the job behind those that
-- finish earlier.
pub insert-put_in : (j : Job) (xs : List Job) → Ascends 0 xs → insert j xs ≡ some (put_in j xs)
unfolding insert add
insert-put_in j [] a = refl
insert-put_in j (x ∷ xs) a =
    insert_counted-put_in j x xs (count_earlier j (x ∷ xs) 0) a
      (omega (arith, count_earlier-earlier j (x ∷ xs) 0))

pub put_in-Ascends :
    (j : Job) (xs : List Job) (low : ℕ)
    → low ≤ finish j
    → Ascends low xs
    → Ascends low (put_in j xs)
put_in-Ascends j [] low le a = (le, tt)
put_in-Ascends j (x ∷ xs) low le (lo, a) = elim (Bool-cases (ltb (finish x) (finish j))) [
  | inl is ↦ rw is (lo, put_in-Ascends j xs (finish x) (ground arith) a)
  | inr late ↦ rw late (le, (ground arith, a))
]

pub put_in-Perm : (j : Job) (xs : List Job) → Perm (j ∷ xs) (put_in j xs)
put_in-Perm j [] = Perm.refl (j ∷ [])
put_in-Perm j (x ∷ xs) = elim (Bool-cases (ltb (finish x) (finish j))) [
  | inl is ↦ rw is (Perm.trans (Perm.swap x j xs) (Perm.cons x (put_in-Perm j xs)))
  | inr late ↦ rw late (Perm.refl (j ∷ x ∷ xs))
]

-- For every input, inserting the jobs one by one into an ascending list never faults, and the list
-- is then the old and the new jobs in the order in which they finish.
pub insert_all-sorted :
    (js xs : List Job)
    → Ascends 0 xs
    → (ys : List Job) × (insert_all js xs ≡ some ys) × Ascends 0 ys × Perm (js ++ xs) ys
unfolding insert_all
insert_all-sorted [] xs a = (xs, refl, a, Perm.refl xs)
insert_all-sorted (j ∷ js) xs a =
    let (ys, e, up, perm) =
      insert_all-sorted js (put_in j xs) (put_in-Ascends j xs 0 (omega arith) a) in
    (
      ys,
      rw (insert_all, insert-put_in j xs a) e,
      up,
      Perm.trans (Perm.symm (perm_middle js xs))
          (Perm.trans (Perm.append_left js (put_in-Perm j xs)) perm),
    )
