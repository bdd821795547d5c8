-- ===== src/NodeStack/Assertions.antt =====
-- What the printed lines say of the list, and what the threads know.
use pthread_benchmark.Prelude.{ℕ, ◌≡◌, ◌≢◌, true, List, [], ◌∷◌, ◌++◌, arith}
use pthread_benchmark.Pthread.Model.{Status, unborn, running, sleeping, relocking, done}
use pthread_benchmark.Pthread.Outline.{Apart}
use pthread_benchmark.Pthread.OneLock.{held, absent}
use pthread_benchmark.NodeStack.{
  Line, consumed, produced, Shared, Consumer, test, fetch, null, unlink, Producer, prepare, link,
  announce, Local, main, consumer, producer,
}
use pthread_benchmark.NodeStack.Discipline.{inside, fits}

-- The lines are those of a stack that holds `xs` in the end: each number that is consumed is the one
-- produced last of those that are left.
pub data Stacked : List Line → List ℕ → Type 0 where
  empty : Stacked [] []
  pushed :
      {ls : List Line} {xs : List ℕ} (p n : ℕ)
      → Stacked ls xs
      → Stacked (ls ++ (produced p n ∷ [])) (n ∷ xs)
  popped :
      {ls : List Line} {xs : List ℕ} (c n : ℕ)
      → Stacked ls (n ∷ xs)
      → Stacked (ls ++ (consumed c n ∷ [])) xs

abbrev pub Sound : Shared → Type 0
Sound s = Stacked s.out s.head

abbrev pub Inv : ℕ → Shared → Type 0
Inv m s = m ≡ 0 → Sound s

abbrev pub AtConsumer : Consumer → Shared → Type 0
AtConsumer Consumer.enter s = Unit
AtConsumer test s = Sound s
AtConsumer Consumer.wait s = Sound s
AtConsumer fetch s = Sound s × ((x : ℕ) × (xs : List ℕ) × (s.head ≡ x ∷ xs))
AtConsumer null s = ⊥
AtConsumer (unlink x xs) s = Stacked s.out (x ∷ xs)
AtConsumer (Consumer.say x) s = Stacked s.out (x ∷ s.head)
AtConsumer Consumer.leave s = Sound s

abbrev pub AtProducer : Producer → Shared → Type 0
AtProducer (Producer.enter i) s = Unit
AtProducer (prepare i) s = Sound s
AtProducer (link i xs) s = Stacked s.out xs
AtProducer (Producer.say i) s = (xs : List ℕ) × Stacked s.out xs × (s.head ≡ i ∷ xs)
AtProducer (announce i) s = Sound s
AtProducer (Producer.leave i) s = Sound s

abbrev pub Resting : ℕ → Local → Type 0
Resting m (consumer test) = m ≡ 0
Resting m _ = ⊥

abbrev pub At : ℕ → Status Local → Shared → Type 0
At t (running (main p)) s = Unit
At t (running (consumer p)) s = AtConsumer p s
At t (running (producer p)) s = AtProducer p s
At t (sleeping q m l) s = Resting m l
At t (relocking m l) s = Resting m l
At t unborn s = Unit
At t done s = Unit

-- A thread that holds the mutex disturbs nobody.
pub frame :
    (t : ℕ) (l : Local) (s s' : Shared)
    → inside l ≡ true
    → (j : ℕ) (q : Status Local) → j ≢ t
    → Apart fits (held inside) absent t l j q
    → At j q s
    → At j q s'
frame t l s s' own j unborn ne a h = tt
frame t l s s' own j done ne a h = tt
frame t l s s' own j (sleeping q m k) ne a h = h
frame t l s s' own j (relocking m k) ne a h = h
frame t l s s' own j (running (main q)) ne a h = tt
frame t l s s' own j (running (consumer Consumer.enter)) ne a h = tt
frame t l s s' own j (running (consumer _)) ne a h = ground (arith, a.disjoint 0)
frame t l s s' own j (running (producer (Producer.enter i))) ne a h = tt
frame t l s s' own j (running (producer _)) ne a h = ground (arith, a.disjoint 0)
