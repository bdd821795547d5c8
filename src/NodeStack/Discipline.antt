-- ===== src/NodeStack/Discipline.antt =====
-- The locking discipline.
use pthread_benchmark.Prelude.{
  ℕ, ◌≡◌, refl, Bool, true, false, List, [], ◌∷◌, ◌==◌, leb, ◌&&◌, arith,
}
use pthread_benchmark.Pthread.Races.{Discipline}
use pthread_benchmark.Pthread.OneLock.{Guards, Goes, one_lock}
use pthread_benchmark.NodeStack.{
  Consumer, test, fetch, Producer, spawn, await, over, Local, main, consumer, producer, fetched,
  looked, code, begin,
}

abbrev pub inside : Local → Bool
inside (main p) = false
inside (consumer Consumer.enter) = false
inside (consumer _) = true
inside (producer (Producer.enter i)) = false
inside (producer _) = true

abbrev pub fits : ℕ → Local → Bool
fits t (main p) = t == 0
fits t (consumer p) = leb 1 t && leb t 2
fits t (producer p) = leb 3 t && leb t 4

looked-Goes :
    (t : ℕ) (xs : List ℕ)
    → fits t (consumer test) ≡ true
    → Goes fits inside t (consumer test) (consumer (looked xs))
looked-Goes t [] h = (h, refl)
looked-Goes t (x ∷ xs) h = (h, refl)

fetched-Goes :
    (t : ℕ) (xs : List ℕ)
    → fits t (consumer fetch) ≡ true
    → Goes fits inside t (consumer fetch) (consumer (fetched xs))
fetched-Goes t [] h = (h, refl)
fetched-Goes t (x ∷ xs) h = (h, refl)

pub guards : (t : ℕ) (l : Local) → fits t l ≡ true → Guards fits inside t l (code t l)
unfolding code
guards t (main (spawn i)) h = ground arith
guards t (main (await i)) h = ground arith
guards t (main over) h = ground arith
guards t (consumer Consumer.enter) h = ground arith
guards t (consumer test) h = (refl, λ s. looked-Goes t s.head h)
guards t (consumer fetch) h = (refl, λ s. fetched-Goes t s.head h)
guards t (consumer _) h = ground arith
guards t (producer (Producer.enter i)) h = ground arith
guards t (producer _) h = ground arith

unfoldable pub discipline : Discipline code begin
unfolding one_lock
discipline = one_lock fits inside code begin guards refl refl
