-- ===== src/BoundedBuffer/Discipline.antt =====
-- The locking discipline of 05bounded.c: the buffer is used under its mutex, or by `main` alone.
use pthread_benchmark.Prelude.{ℕ, ◌≡◌, ◌≢◌, inr, refl, Bool, true, false, not, ◌==◌, ◌&&◌, arith}
use pthread_benchmark.Pthread.Roles.{Stays}
use pthread_benchmark.Pthread.Ownership.{Locks}
use pthread_benchmark.Pthread.Absence.{Tracks}
use pthread_benchmark.Pthread.Races.{Policy, guarded, Respects, Discipline}
use pthread_benchmark.BoundedBuffer.{
  Main, Producer, Consumer, Local, main, producer, consumer, code, begin, mutex, set_occupied,
  set_nextin, set_nextout, create_consumer, join_producer, join_consumer,
}

abbrev pub fits : ℕ → Local → Bool
fits t (main p) = t == 0
fits t (producer i p) = t == 1
fits t (consumer i p) = t == 2

abbrev pub holds_producer : Producer → Bool
holds_producer Producer.head = false
holds_producer _ = true

abbrev pub holds_consumer : Consumer → Bool
holds_consumer Consumer.head = false
holds_consumer _ = true

abbrev pub held : ℕ → Local → ℕ → Bool
held t (main p) m = false
held t (producer i p) m = m == mutex && holds_producer p
held t (consumer i p) m = m == mutex && holds_consumer p

-- What `main` may rely on: the thread is not yet created, or joined.
abbrev pub absent_main : Main → ℕ → Bool
absent_main create_consumer k = not (k == 0) && not (k == 1)
absent_main join_producer k = not (k == 0) && not (k == 1) && not (k == 2)
absent_main join_consumer k = not (k == 0) && not (k == 2)
absent_main _ k = not (k == 0)

abbrev pub absent : ℕ → Local → ℕ → Bool
absent t (main p) k = t == 0 && absent_main p k
absent t _ k = false

abbrev pub policy : ℕ → Policy
policy x = guarded mutex

pub stays : (t : ℕ) (l : Local) → fits t l ≡ true → Stays fits t (code t l)
unfolding code
stays t (main set_occupied) h = ground arith
stays t (main _) h = ground arith
stays t (producer i Producer.head) h = ground arith
stays t (producer i _) h = ground arith
stays t (consumer i Consumer.head) h = ground arith
stays t (consumer i _) h = ground arith

pub locks : (t : ℕ) (l : Local) → fits t l ≡ true → Locks held t l (code t l)
unfolding code
locks t (main set_occupied) h = ground arith
locks t (main _) h = ground arith
locks t (producer i Producer.head) h = ground arith
locks t (producer i _) h = ground arith
locks t (consumer i Consumer.head) h = ground arith
locks t (consumer i _) h = ground arith

pub tracks : (t : ℕ) (l : Local) → fits t l ≡ true → Tracks absent t l (code t l)
unfolding code
tracks t (main set_occupied) h = ground arith
tracks t (main _) h = ground arith
tracks t (producer i Producer.head) h = ground arith
tracks t (producer i _) h = ground arith
tracks t (consumer i Consumer.head) h = ground arith
tracks t (consumer i _) h = ground arith

pub respects : (t : ℕ) (l : Local) → fits t l ≡ true → Respects held absent policy t l (code t l)
unfolding code
respects t (main set_occupied) h = inr (λ j ne. ground arith)
respects t (main set_nextin) h = inr (λ j ne. ground arith)
respects t (main set_nextout) h = inr (λ j ne. ground arith)
respects t (main _) h = tt
respects t (producer i Producer.head) h = ground arith
respects t (producer i _) h = ground arith
respects t (consumer i Consumer.head) h = ground arith
respects t (consumer i _) h = ground arith

pub only_main : (t : ℕ) (l : Local) (k : ℕ) → t ≢ 0 → absent t l k ≡ false
only_main t (main p) k ne = ground arith
only_main t (producer i p) k ne = refl
only_main t (consumer i p) k ne = refl

unfoldable pub discipline : Discipline code begin
discipline = record {
  fits = fits;
  held = held;
  absent = absent;
  policy = policy;
  stays = stays;
  locks = locks;
  tracks = tracks;
  respects = respects;
  only_main = only_main;
  starts = refl;
  free = λ m. refl;
  present = refl;
}
