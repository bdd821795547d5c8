-- ===== src/Turns/Assertions.antt =====
-- What the threads of 10practice.c know, and that the others do not touch it.
use native.Mathlib.Numerals.{add-one}
use mathlib.Core.Path.{ap₂}
use pthread_benchmark.Prelude.{
  ℕ, zero, suc, ◌+◌, ◌-◌, ◌/◌, ◌%◌, ◌<◌, ◌≤◌, ◌≡◌, ◌≢◌, ◌∙◌, sym, true, List, [], ◌∷◌, ◌++◌, length,
  length-append, arith,
}
use pthread_benchmark.Pthread.Model.{Status, unborn, running, sleeping, relocking, done}
use pthread_benchmark.Pthread.Outline.{Apart}
use pthread_benchmark.Turns.{
  Board, Handler, enter, test, pass, print, leave, check, Local, main, handler, next_flag, letter,
  lock_flag,
}
use pthread_benchmark.Pthread.OneLock.{held, absent}
use pthread_benchmark.Turns.Discipline.{inside, fits}

-- The first `n` letters of ABCABC...
unfoldable pub word : ℕ → List ℕ
word zero = []
word (suc n) = word n ++ (letter (n % 3 + 1) ∷ [])

-- How many of the first `n` letters are of handler `own`.
abbrev pub share : ℕ → ℕ → ℕ
share own n = (n + 3 - own) / 3

pub record Fair (b : Board) : Type 0 where
  pub text : b.printed ≡ word (length b.printed)
  pub next : b.flag ≡ length b.printed % 3 + 1

abbrev pub Inv : ℕ → Board → Type 0
Inv m b = m ≡ lock_flag → Fair b

abbrev AtHandler : ℕ → ℕ → Handler → Board → Type 0
AtHandler own i enter b = i < 10
AtHandler own i test b = (i < 10) × Fair b
AtHandler own i check b = i ≤ 10
AtHandler own i pass b = (i < 10) × Fair b × (b.flag ≡ own)
AtHandler own i print b =
    (i < 10)
    × (b.printed ≡ word (length b.printed))
    × (length b.printed % 3 + 1 ≡ own)
    × (b.flag ≡ next_flag own)
AtHandler own i leave b = (i ≤ 10) × Fair b

abbrev pub At : ℕ → Status Local → Board → Type 0
At t (running (main p)) b = Unit
At t (running (handler own i p)) b = (i ≡ share own (length b.printed)) × AtHandler own i p b
At t (sleeping q m l) b = ⊥
At t (relocking m l) b = ⊥
At t unborn b = 0 < t → t ≤ 3 → share t (length b.printed) ≡ 0
At t done b = 0 < t → t ≤ 3 → share t (length b.printed) ≡ 10

abbrev Beside : ℕ → Local → ℕ → Status Local → Type 0
Beside = Apart fits (held inside) absent

pub share-other :
    (own t n : ℕ) → n % 3 + 1 ≡ own → t ≢ own → 0 < t → t ≤ 3 → share t (n + 1) ≡ share t n
share-other own t n e ne pos le = omega arith

pub share-own : (own n : ℕ) → n % 3 + 1 ≡ own → share own (n + 1) ≡ share own n + 1
share-own own n e = omega arith

pub length-snoc : (xs : List ℕ) (x : ℕ) → length (xs ++ (x ∷ [])) ≡ length xs + 1
length-snoc xs x = omega (arith, length-append xs (x ∷ []))

pub snoc-Fair :
    (b : Board) (own : ℕ)
    → b.printed ≡ word (length b.printed)
    → length b.printed % 3 + 1 ≡ own
    → b.flag ≡ next_flag own
    → Fair (record b { printed = b.printed ++ (letter own ∷ []) })
unfolding word
snoc-Fair b own text turn flag = record {
  text =
      rw (length-snoc b.printed (letter own))
        (rw add-one (ap₂ (λ xs k. xs ++ (letter k ∷ [])) text (sym turn)));
  next = rw (length-snoc b.printed (letter own)) (ground arith);
}

pub placed_own :
    (t own i : ℕ) (p : Handler)
    → fits t (handler own i p) ≡ true
    → (t ≡ own) × (0 < own) × (own ≤ 3)
placed_own t own i p h = ground arith

kept :
    (t j k n : ℕ) (p : Handler) (l l' : ℕ)
    → ((i : ℕ) → i ≢ t → 0 < i → i ≤ 3 → share i l' ≡ share i l)
    → j ≢ t
    → fits j (handler k n p) ≡ true
    → share k l ≡ share k l'
kept t j k n p l l' same ne f =
    let (e, pos, le) = placed_own j k n p f in sym (same k (λ q. ne (e ∙ q)) pos le)

pub frame :
    (t own i : ℕ) (p : Handler) (b b' : Board)
    → held inside t (handler own i p) lock_flag ≡ true
    → ((j : ℕ) → j ≢ t → 0 < j → j ≤ 3 → share j (length b'.printed) ≡ share j (length b.printed))
    → (j : ℕ) (s : Status Local) → j ≢ t
    → Beside t (handler own i p) j s
    → At j s b
    → At j s b'
frame t own i p b b' own_it same j unborn ne a h = λ pos le. same j ne pos le ∙ h pos le
frame t own i p b b' own_it same j done ne a h = λ pos le. same j ne pos le ∙ h pos le
frame t own i p b b' own_it same j (sleeping q m l) ne a h = h
frame t own i p b b' own_it same j (relocking m l) ne a h = h
frame t own i p b b' own_it same j (running (main q)) ne a h = h
frame t own i p b b' own_it same j (running (handler k n enter)) ne a h =
    (h.0 ∙ kept t j k n enter (length b.printed) (length b'.printed) same ne a.placed, h.1)
frame t own i p b b' own_it same j (running (handler k n check)) ne a h =
    (h.0 ∙ kept t j k n check (length b.printed) (length b'.printed) same ne a.placed, h.1)
frame t own i p b b' own_it same j (running (handler k n _)) ne a h =
    ground (arith, a.disjoint lock_flag)
