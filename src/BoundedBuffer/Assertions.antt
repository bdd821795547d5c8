-- ===== src/BoundedBuffer/Assertions.antt =====
-- What holds at each place of the threads of 05bounded.c.
use pthread_benchmark.Prelude.{ℕ, ◌+◌, ◌-◌, ◌%◌, ◌<◌, ◌≤◌, ◌≡◌, [], ◌∷◌, ◌++◌, get_or, take, length}
use pthread_benchmark.Pthread.Model.{Status, unborn, running, sleeping, relocking, done}
use pthread_benchmark.BoundedBuffer.{
  Buffer, bsize, numitems, item, Main, Producer, Consumer, Local, main, producer, consumer, mutex,
}
use pthread_benchmark.BoundedBuffer.Ring.{Ring, Whole}

-- What the producer has put in, in its round `i`, and what the consumer has taken out.
abbrev pub Made : ℕ → Buffer → Type 0
Made i b = (b.produced ≡ take i item) × (i ≤ numitems)

abbrev pub Taken : ℕ → Buffer → Type 0
Taken i b = (b.consumed ≡ take i item) × (i ≡ length b.consumed)

abbrev pub InProducer : ℕ → Producer → Buffer → Type 0
InProducer i Producer.head b = Unit
InProducer i Producer.test b = Whole b × (i < numitems)
InProducer i Producer.rest b = Whole b × (i < numitems)
InProducer i Producer.slot b = Whole b × (b.occupied < bsize) × (i < numitems)
InProducer i (Producer.bump n) b = Whole b × (b.occupied < bsize) × (i < numitems) × (n ≡ b.nextin)
InProducer i (Producer.store n) b =
    Ring b.buf n b.nextout b.occupied b.produced b.consumed
    × (b.occupied < bsize)
    × (i < numitems)
    × (b.nextin ≡ n + 1)
InProducer i Producer.wrap b =
    Ring b.buf (b.nextin % bsize) b.nextout (b.occupied + 1) (b.produced ++ (get_or item i 0 ∷ []))
      b.consumed
    × (i < numitems)
InProducer i (Producer.wrapped n) b =
    Ring b.buf (n % bsize) b.nextout (b.occupied + 1) (b.produced ++ (get_or item i 0 ∷ []))
      b.consumed
    × (i < numitems)
InProducer i Producer.count b =
    Ring b.buf b.nextin b.nextout (b.occupied + 1) (b.produced ++ (get_or item i 0 ∷ [])) b.consumed
    × (i < numitems)
InProducer i (Producer.counted n) b =
    Ring b.buf b.nextin b.nextout (n + 1) (b.produced ++ (get_or item i 0 ∷ [])) b.consumed
    × (i < numitems)
InProducer i Producer.print b =
    Ring b.buf b.nextin b.nextout b.occupied (b.produced ++ (get_or item i 0 ∷ [])) b.consumed
    × (i < numitems)
InProducer i Producer.notify b = Whole b
InProducer i Producer.leave b = Whole b

abbrev pub made_by : ℕ → Producer → ℕ
made_by i Producer.notify = i + 1
made_by i Producer.leave = i + 1
made_by i _ = i

abbrev pub InConsumer : ℕ → Consumer → Buffer → Type 0
InConsumer i Consumer.head b = Unit
InConsumer i Consumer.test b = Whole b
InConsumer i Consumer.rest b = Whole b
InConsumer i Consumer.slot b = Whole b × (0 < b.occupied)
InConsumer i (Consumer.bump n) b = Whole b × (0 < b.occupied) × (n ≡ b.nextout)
InConsumer i (Consumer.load n) b =
    Ring b.buf b.nextin n b.occupied b.produced b.consumed × (0 < b.occupied) × (b.nextout ≡ n + 1)
InConsumer i (Consumer.wrap c) b =
    Ring b.buf b.nextin (b.nextout % bsize) (b.occupied - 1) b.produced (b.consumed ++ (c ∷ []))
InConsumer i (Consumer.wrapped c n) b =
    Ring b.buf b.nextin (n % bsize) (b.occupied - 1) b.produced (b.consumed ++ (c ∷ []))
InConsumer i (Consumer.count c) b =
    Ring b.buf b.nextin b.nextout (b.occupied - 1) b.produced (b.consumed ++ (c ∷ []))
InConsumer i (Consumer.counted c n) b =
    Ring b.buf b.nextin b.nextout (n - 1) b.produced (b.consumed ++ (c ∷ []))
InConsumer i (Consumer.print c) b =
    Ring b.buf b.nextin b.nextout b.occupied b.produced (b.consumed ++ (c ∷ []))
InConsumer i Consumer.notify b = Whole b
InConsumer i Consumer.leave b = Whole b

abbrev pub taken_by : ℕ → Consumer → ℕ
taken_by i Consumer.notify = i + 1
taken_by i Consumer.leave = i + 1
taken_by i _ = i

-- `main` sets the counters to zero before the threads run.
abbrev pub InMain : Main → Buffer → Type 0
InMain Main.set_occupied b =
    (b.occupied ≡ 0) × (b.nextin ≡ 0) × (b.nextout ≡ 0) × (b.produced ≡ []) × (b.consumed ≡ [])
InMain Main.set_nextin b =
    (b.occupied ≡ 0) × (b.nextin ≡ 0) × (b.nextout ≡ 0) × (b.produced ≡ []) × (b.consumed ≡ [])
InMain Main.set_nextout b =
    (b.occupied ≡ 0) × (b.nextin ≡ 0) × (b.nextout ≡ 0) × (b.produced ≡ []) × (b.consumed ≡ [])
InMain Main.finish b = b.consumed ≡ item
InMain _ b = Unit

abbrev pub At : ℕ → Status Local → Buffer → Type 0
At t unborn b = (t ≡ 1 → b.produced ≡ []) × (t ≡ 2 → b.consumed ≡ [])
At t (running (main p)) b = InMain p b
At t (running (producer i p)) b = Made (made_by i p) b × InProducer i p b
At t (running (consumer i p)) b = Taken (taken_by i p) b × InConsumer i p b
At t (sleeping c m (producer i p)) b = Made i b × (p ≡ Producer.test) × (i < numitems) × (m ≡ mutex)
At t (relocking m (producer i p)) b = Made i b × (p ≡ Producer.test) × (i < numitems) × (m ≡ mutex)
At t (sleeping c m (consumer i p)) b = Taken i b × (p ≡ Consumer.test) × (m ≡ mutex)
At t (relocking m (consumer i p)) b = Taken i b × (p ≡ Consumer.test) × (m ≡ mutex)
At t (sleeping c m (main p)) b = ⊥
At t (relocking m (main p)) b = ⊥
At t done b = t ≡ 2 → b.consumed ≡ item

abbrev pub Inv : ℕ → Buffer → Type 0
Inv m b = m ≡ mutex → Whole b
