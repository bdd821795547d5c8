-- ===== src/BoundedBuffer/Frames.antt =====
-- What the threads of 05bounded.c know is untouched by what the others write.
use pthread_benchmark.Prelude.{ℕ, ◌≡◌, ◌≢◌, true, arith}
use pthread_benchmark.Pthread.Model.{Status, unborn, running, sleeping, relocking, done}
use pthread_benchmark.Pthread.Outline.{Apart}
use pthread_benchmark.BoundedBuffer.{
  Buffer, Main, Producer, Consumer, Local, main, producer, consumer, mutex,
}
use pthread_benchmark.BoundedBuffer.Discipline.{fits, held, absent, holds_producer, holds_consumer}
use pthread_benchmark.BoundedBuffer.Assertions.{At}

abbrev pub Beside : ℕ → Local → ℕ → Status Local → Type 0
Beside = Apart fits held absent

-- The producer, in its critical section, may change all but `consumed`.
pub producer_frame :
    (i : ℕ) (p : Producer) (b b' : Buffer)
    → holds_producer p ≡ true
    → b'.consumed ≡ b.consumed
    → (j : ℕ) (s : Status Local) → j ≢ 1
    → Beside 1 (producer i p) j s
    → At j s b
    → At j s b'
producer_frame i p b b' own e j unborn ne a h = ground arith
producer_frame i p b b' own e j done ne a h = ground arith
producer_frame i p b b' own e j (running (main Main.finish)) ne a h = ground (arith, a.unknown)
producer_frame i p b b' own e j (running (main _)) ne a h = ground (arith, a.unknown)
producer_frame i p b b' own e j (running (consumer n Consumer.head)) ne a h = ground arith
producer_frame i p b b' own e j (running (consumer n _)) ne a h = ground (arith, a.disjoint mutex)
producer_frame i p b b' own e j (running (producer n q)) ne a h = ground (arith, a.placed)
producer_frame i p b b' own e j (sleeping c m (main q)) ne a h = h
producer_frame i p b b' own e j (sleeping c m (producer n q)) ne a h = ground (arith, a.placed)
producer_frame i p b b' own e j (sleeping c m (consumer n q)) ne a h = ground arith
producer_frame i p b b' own e j (relocking m (main q)) ne a h = h
producer_frame i p b b' own e j (relocking m (producer n q)) ne a h = ground (arith, a.placed)
producer_frame i p b b' own e j (relocking m (consumer n q)) ne a h = ground arith

-- The consumer, in its critical section, may change all but `produced`.
pub consumer_frame :
    (i : ℕ) (p : Consumer) (b b' : Buffer)
    → holds_consumer p ≡ true
    → b'.produced ≡ b.produced
    → (j : ℕ) (s : Status Local) → j ≢ 2
    → Beside 2 (consumer i p) j s
    → At j s b
    → At j s b'
consumer_frame i p b b' own e j unborn ne a h = ground arith
consumer_frame i p b b' own e j done ne a h = ground arith
consumer_frame i p b b' own e j (running (main Main.finish)) ne a h = ground (arith, a.unknown)
consumer_frame i p b b' own e j (running (main _)) ne a h = ground (arith, a.unknown)
consumer_frame i p b b' own e j (running (producer n Producer.head)) ne a h = ground arith
consumer_frame i p b b' own e j (running (producer n _)) ne a h = ground (arith, a.disjoint mutex)
consumer_frame i p b b' own e j (running (consumer n q)) ne a h = ground (arith, a.placed)
consumer_frame i p b b' own e j (sleeping c m (main q)) ne a h = h
consumer_frame i p b b' own e j (sleeping c m (consumer n q)) ne a h = ground (arith, a.placed)
consumer_frame i p b b' own e j (sleeping c m (producer n q)) ne a h = ground arith
consumer_frame i p b b' own e j (relocking m (main q)) ne a h = h
consumer_frame i p b b' own e j (relocking m (consumer n q)) ne a h = ground (arith, a.placed)
consumer_frame i p b b' own e j (relocking m (producer n q)) ne a h = ground arith

-- While `main` is alone, it may change all but the two lists.
pub main_frame :
    (p : Main) (b b' : Buffer)
    → ((k : ℕ) → k ≢ 0 → absent 0 (main p) k ≡ true)
    → b'.produced ≡ b.produced
    → b'.consumed ≡ b.consumed
    → (j : ℕ) (s : Status Local) → j ≢ 0
    → Beside 0 (main p) j s
    → At j s b
    → At j s b'
main_frame p b b' alone e e' j unborn ne a h = ground arith
main_frame p b b' alone e e' j done ne a h = ground arith
main_frame p b b' alone e e' j (running l) ne a h = ground (arith, a.gone, alone j ne)
main_frame p b b' alone e e' j (sleeping c m l) ne a h = ground (arith, a.gone, alone j ne)
main_frame p b b' alone e e' j (relocking m l) ne a h = ground (arith, a.gone, alone j ne)
