-- ===== src/BoundedBuffer/Fifo.antt =====
-- The order of the items in 05bounded.c: the consumer gets the text in order and whole.
use pthread_benchmark.Prelude.{
  ℕ, ◌≡◌, refl, sym, ap, ◌∙◌, true, List, none, inl, inr, Bool-cases, ◌==◌, ltb, get_or, length,
  arith, take-length, eq_of_==,
}
use pthread_benchmark.Prelude.Cyclic.{window}
use pthread_benchmark.Pthread.Races.{DataRace, race_free}
use pthread_benchmark.Pthread.Model.{running, sleeping, relocking, done, Event, run, boot, Act}
use pthread_benchmark.Pthread.Outline.{Checks, Outline}
use pthread_benchmark.Pthread.Outline.Runs.{run-Holds, Starts}
use pthread_benchmark.BoundedBuffer.{
  Buffer, numitems, item, Main, Producer, Consumer, Local, main, producer, consumer, main_code,
  producer_code, consumer_code, code, begin, zeroed, mutex,
}
use pthread_benchmark.BoundedBuffer.Discipline.{fits, held, absent, discipline}
use pthread_benchmark.BoundedBuffer.Ring.{
  Whole, Ring-store, Ring-load, Taken-next, Made-next, length-item,
}
use pthread_benchmark.BoundedBuffer.Assertions.{At, Inv}
use pthread_benchmark.BoundedBuffer.Frames.{producer_frame, consumer_frame, main_frame}

Checked : ℕ → Local → Buffer → Act Buffer Local → Type 0
Checked t l b = Checks fits held absent Inv At t l b

producer_checks :
    (i : ℕ) (p : Producer) (b : Buffer)
    → At 1 (running (producer i p)) b
    → Checked 1 (producer i p) b (producer_code i p)
unfolding producer_code Checked
producer_checks i Producer.head b h = elim (Bool-cases (ltb i numitems)) [
  | inl go ↦ rw go (elim (Bool-cases (get_or item i 0 == 0)) [
    | inl stop ↦ rw stop (λ e. absurd (omega arith))
    | inr char ↦ rw char (λ w. (h.0, (w refl, ground arith)))
  ])
  | inr over ↦ rw over (λ e. absurd (omega arith))
]
producer_checks i Producer.test b h = ground arith
producer_checks i Producer.rest b h = ground arith
producer_checks i Producer.slot b h = ground arith
producer_checks i (Producer.bump n) b h =
    (ground arith, producer_frame i (Producer.bump n) b _ refl refl, λ m e w q. ground arith)
producer_checks i (Producer.store n) b h = (
  (h.0, (rw h.1.3 (Ring-store i h.1.0 h.1.1 h.1.2 h.0.0), h.1.2)),
  producer_frame i (Producer.store n) b _ refl refl,
  λ m e w q. ground arith,
)
producer_checks i Producer.wrap b h = ground arith
producer_checks i (Producer.wrapped n) b h =
    (ground arith, producer_frame i (Producer.wrapped n) b _ refl refl, λ m e w q. ground arith)
producer_checks i Producer.count b h = ground arith
producer_checks i (Producer.counted n) b h =
    (ground arith, producer_frame i (Producer.counted n) b _ refl refl, λ m e w q. ground arith)
producer_checks i Producer.print b h = (
  ((Made-next h.1.1 h.0.0, omega arith), h.1.0),
  producer_frame i Producer.print b _ refl refl,
  λ m e w q. ground arith,
)
producer_checks i Producer.notify b h = ground arith
producer_checks i Producer.leave b h = ground arith

consumer_checks :
    (i : ℕ) (p : Consumer) (b : Buffer)
    → At 2 (running (consumer i p)) b
    → Checked 2 (consumer i p) b (consumer_code i p)
unfolding consumer_code Checked
consumer_checks i Consumer.head b h = elim (Bool-cases (ltb i numitems)) [
  | inl go ↦ rw go (λ w. (h.0, w refl))
  | inr over ↦ rw over (λ e. h.0.0 ∙ take-length item i (ground (arith, length-item)))
]
consumer_checks i Consumer.test b h = ground arith
consumer_checks i Consumer.rest b h = ground arith
consumer_checks i Consumer.slot b h = ground arith
consumer_checks i (Consumer.bump n) b h =
    (ground arith, consumer_frame i (Consumer.bump n) b _ refl refl, λ m e w q. ground arith)
consumer_checks i (Consumer.load n) b h = (h.0, rw h.1.2 (Ring-load h.1.0 h.1.1))
consumer_checks i (Consumer.wrap c) b h = ground arith
consumer_checks i (Consumer.wrapped c n) b h =
    (ground arith, consumer_frame i (Consumer.wrapped c n) b _ refl refl, λ m e w q. ground arith)
consumer_checks i (Consumer.count c) b h = ground arith
consumer_checks i (Consumer.counted c n) b h =
    (ground arith, consumer_frame i (Consumer.counted c n) b _ refl refl, λ m e w q. ground arith)
consumer_checks i (Consumer.print c) b h = (
  (Taken-next c h.1 h.0.0 h.0.1, h.1),
  consumer_frame i (Consumer.print c) b _ refl refl,
  λ m e w q. ground arith,
)
consumer_checks i Consumer.notify b h = ground arith
consumer_checks i Consumer.leave b h = ground arith

main_checks :
    (p : Main) (b : Buffer) → At 0 (running (main p)) b → Checked 0 (main p) b (main_code p)
unfolding main_code Checked
main_checks Main.set_occupied b h = (
  ground arith,
  main_frame Main.set_occupied b _ (λ k ne. ground arith) refl refl,
  λ m e w q. ground (arith, w q),
)
main_checks Main.set_nextin b h = (
  ground arith,
  main_frame Main.set_nextin b _ (λ k ne. ground arith) refl refl,
  λ m e w q. ground (arith, w q),
)
main_checks Main.set_nextout b h = (
  ground arith,
  main_frame Main.set_nextout b _ (λ k ne. ground arith) refl refl,
  λ m e w q. ground (arith, w q),
)
main_checks Main.create_producer b h = (tt, λ u. ((u.0 refl, omega arith), tt))
main_checks Main.create_consumer b h = (tt, λ u. ((u.1 refl, ap length (sym (u.1 refl))), tt))
main_checks Main.join_producer b h = λ u. tt
main_checks Main.join_consumer b h = λ u. u refl
main_checks Main.finish b h = λ e. absurd (omega arith)

all_checks :
    (t : ℕ) (l : Local) (b : Buffer)
    → fits t l ≡ true
    → At t (running l) b
    → Checked t l b (code t l)
unfolding code
all_checks t (main p) b f h = rw (eq_of_== t 0 f) (main_checks p b h)
all_checks t (producer i p) b f h = rw (eq_of_== t 1 f) (producer_checks i p b h)
all_checks t (consumer i p) b f h = rw (eq_of_== t 2 f) (consumer_checks i p b h)

outline : Outline code begin discipline
unfolding Checked discipline
outline = record { inv = Inv; at = At; checks = all_checks; wakes = wakes; returns = returns }
  where
    wakes : (t c m : ℕ) (l : Local) (b : Buffer) → At t (sleeping c m l) b → At t (relocking m l) b
    wakes t c m (main p) b h = h
    wakes t c m (producer i p) b h = h
    wakes t c m (consumer i p) b h = h

    returns :
        (t m : ℕ) (l : Local) (b : Buffer) → At t (relocking m l) b → Inv m b → At t (running l) b
    returns t m (main p) b h w = absurd h
    returns t m (producer i Producer.test) b h w = (h.0, (w h.3, h.2))
    returns t m (producer i _) b h w = ground arith
    returns t m (consumer i Consumer.test) b h w = (h.0, w h.2)
    returns t m (consumer i _) b h w = ground arith

starts : Starts code begin discipline outline zeroed
unfolding outline window
starts = record {
  unowned = λ m e. record {
    in_range = omega arith;
    out_range = omega arith;
    fits_in = omega arith;
    meets = refl;
    queue = refl;
    text = refl;
  };
  main = ground arith;
  others = λ t ne. (λ e. refl, λ e. refl);
}

-- While the mutex is free, the buffer holds in order exactly the items that were produced and not
-- yet consumed, at most four, with both indices in range, and what was produced is a beginning of
-- the text; and there is no data race on the buffer then.
pub buffer_is_queue :
    (es : List Event)
    → (run code es (boot zeroed (λ _. 0) begin)).owner mutex ≡ none
    → Whole (run code es (boot zeroed (λ _. 0) begin)).mem
      × (¬ DataRace code (run code es (boot zeroed (λ _. 0) begin)))
unfolding outline
buffer_is_queue es free = (
  (run-Holds code begin discipline outline zeroed (λ _. 0) es starts).unowned mutex free refl,
  race_free code begin discipline zeroed (λ _. 0) es,
)

-- When the consumer has finished, it has printed the whole text in order, whatever the schedule.
pub consumer_gets_text :
    (es : List Event)
    → (run code es (boot zeroed (λ _. 0) begin)).thread 2 ≡ done
    → (run code es (boot zeroed (λ _. 0) begin)).mem.consumed ≡ item
unfolding outline
consumer_gets_text es e =
    (rw e at ((run-Holds code begin discipline outline zeroed (λ _. 0) es starts).each 2)) refl
