-- ===== src/Tickets/Assertions.antt =====
-- What the sellers know, and that the others do not touch it.
use pthread_benchmark.Prelude.{
  ℕ, zero, suc, ◌-◌, ◌<◌, ◌≤◌, ◌≡◌, ◌≢◌, true, List, [], ◌∷◌, ◌++◌, arith,
}
use pthread_benchmark.Prelude.Int.{ℤ, pos}
use pthread_benchmark.Pthread.Model.{Status, unborn, running, sleeping, relocking, done}
use pthread_benchmark.Pthread.Outline.{Apart}
use pthread_benchmark.Pthread.OneLock.{held, absent}
use pthread_benchmark.Tickets.{
  Office, Seller, enter, test, load, store, print, leave, quit, over, Local, main, seller,
}
use pthread_benchmark.Tickets.Discipline.{inside, fits}

-- The first `k` tickets of a stock, the highest number first.
unfoldable pub countdown : ℕ → ℕ → List ℤ
countdown stock zero = []
countdown stock (suc k) = countdown stock k ++ (pos (stock - k) ∷ [])

module _ (stock : ℕ) where
  -- `left` tickets are left, and the others were sold in order.
  pub record Honest (left : ℕ) (o : Office) : Type 0 where
    pub count : o.tickets ≡ pos left
    pub bounded : left ≤ stock
    pub sales : o.sold ≡ countdown stock (stock - left)

  -- Between the two writes of a sale.
  pub record Selling (n : ℤ) (o : Office) : Type 0 where
    pub left : ℕ
    pub number : n ≡ pos (suc left)
    pub count : o.tickets ≡ pos left
    pub bounded : left < stock
    pub sales : o.sold ≡ countdown stock (stock - suc left)

  abbrev pub Inv : ℕ → Office → Type 0
  Inv m o = m ≡ 0 → (k : ℕ) × Honest k o

  abbrev pub AtSeller : Seller → Office → Type 0
  AtSeller enter o = Unit
  AtSeller test o = (k : ℕ) × Honest k o
  AtSeller load o = (k : ℕ) × Honest (suc k) o
  AtSeller (store n) o = (k : ℕ) × Honest (suc k) o × (n ≡ pos (suc k))
  AtSeller (print n) o = Selling n o
  AtSeller leave o = (k : ℕ) × Honest k o
  AtSeller quit o = Honest 0 o
  AtSeller over o = o.tickets ≡ pos 0

  abbrev pub At : ℕ → Status Local → Office → Type 0
  At t (running (main p)) o = Unit
  At t (running (seller p)) o = AtSeller p o
  At t (sleeping q m l) o = ⊥
  At t (relocking m l) o = ⊥
  At t unborn o = Unit
  At t done o = 0 < t → o.tickets ≡ pos 0

  -- A seller in the critical section, who keeps the sold-out state, disturbs nobody.
  pub frame :
      (t : ℕ) (p : Seller) (o o' : Office)
      → inside (seller p) ≡ true
      → (o.tickets ≡ pos 0 → o'.tickets ≡ pos 0)
      → (j : ℕ) (s : Status Local) → j ≢ t
      → Apart fits (held inside) absent t (seller p) j s
      → At j s o
      → At j s o'
  frame t p o o' own keep j unborn ne a h = tt
  frame t p o o' own keep j done ne a h = λ gt. keep (h gt)
  frame t p o o' own keep j (sleeping q m l) ne a h = h
  frame t p o o' own keep j (relocking m l) ne a h = h
  frame t p o o' own keep j (running (main q)) ne a h = tt
  frame t p o o' own keep j (running (seller enter)) ne a h = tt
  frame t p o o' own keep j (running (seller over)) ne a h = keep h
  frame t p o o' own keep j (running (seller _)) ne a h = ground (arith, a.disjoint 0)
