-- ===== src/NodeStack/Story.antt =====
-- Runs of the producers and consumers.
use pthread_benchmark.Prelude.{
  ℕ, ◌≡◌, ◌≢◌, ◌⊎◌, refl, sym, subst, ◌∙◌, none, List, [], ◌∷◌, arith, true,
}
use pthread_benchmark.Pthread.Model.{Act, running, relocking, World, Event, run, boot}
use pthread_benchmark.Pthread.Races.{DataRace, race_free}
use pthread_benchmark.Pthread.OneLock.{held, absent, entrusted, unless_owned}
use pthread_benchmark.Pthread.Outline.{Checks, Outline, Holds}
use pthread_benchmark.Pthread.Outline.Runs.{Starts, run-Holds}
use pthread_benchmark.NodeStack.{
  Shared, Consumer, test, fetch, null, unlink, fetched, looked, Producer, prepare, link, announce,
  spawn, await, over, Local, main, consumer, producer, code, begin, opened,
}
use pthread_benchmark.NodeStack.Discipline.{inside, fits, discipline}
use pthread_benchmark.NodeStack.Assertions.{
  Stacked, empty, pushed, popped, Sound, Inv, AtConsumer, AtProducer, At, frame,
}

unfoldable Checked : ℕ → Local → Shared → Act Shared Local → Type 0
Checked t l s = Checks fits (held inside) absent Inv At t l s

looked-At : (s : Shared) (xs : List ℕ) → s.head ≡ xs → Sound s → AtConsumer (looked xs) s
looked-At s [] e h = h
looked-At s (x ∷ xs) e h = (h, (x, xs, e))

fetched-At :
    (s : Shared) (ys : List ℕ) → s.head ≡ ys → AtConsumer fetch s → AtConsumer (fetched ys) s
fetched-At s [] e (h, (x, xs, e')) = absurd (nil≢cons (sym e ∙ e'))
  where
    nil≢cons : [] ≢ x ∷ xs
    nil≢cons q = cc
fetched-At s (y ∷ ys) e (h, (x, xs, e')) = subst (Stacked s.out) e h

checks_consumer :
    (t : ℕ) (c : Consumer) (s : Shared)
    → AtConsumer c s
    → Checked t (consumer c) s (code t (consumer c))
unfolding code Checked
checks_consumer t Consumer.enter s h = λ v. v refl
checks_consumer t test s h = looked-At s s.head refl h
checks_consumer t Consumer.wait s h = (λ z. h, refl)
checks_consumer t fetch s h = fetched-At s s.head refl h
checks_consumer t null s h = h
checks_consumer t (unlink x xs) s h =
    (h, frame t (consumer (unlink x xs)) s _ refl, entrusted inside t (consumer (unlink x xs)) refl)
checks_consumer t (Consumer.say x) s h = (
  popped _ x h,
  frame t (consumer (Consumer.say x)) s _ refl,
  entrusted inside t (consumer (Consumer.say x)) refl,
)
checks_consumer t Consumer.leave s h = (λ z. h, tt)

checks_producer :
    (t : ℕ) (p : Producer) (s : Shared)
    → AtProducer p s
    → Checked t (producer p) s (code t (producer p))
unfolding code Checked
checks_producer t (Producer.enter i) s h = λ v. v refl
checks_producer t (prepare i) s h = h
checks_producer t (link i xs) s h = (
  (xs, h, refl),
  frame t (producer (link i xs)) s _ refl,
  entrusted inside t (producer (link i xs)) refl,
)
checks_producer t (Producer.say i) s (xs, h, e) = (
  subst (Stacked _) (sym e) (pushed _ i h),
  frame t (producer (Producer.say i)) s _ refl,
  entrusted inside t (producer (Producer.say i)) refl,
)
checks_producer t (announce i) s h = h
checks_producer t (Producer.leave i) s h = (λ z. h, tt)

checks :
    (t : ℕ) (l : Local) (s : Shared)
    → fits t l ≡ true
    → At t (running l) s
    → Checked t l s (code t l)
unfolding code Checked
checks t (main (spawn i)) s f h = ground arith
checks t (main (await i)) s f h = ground arith
checks t (main over) s f h = tt
checks t (consumer c) s f h = checks_consumer t c s h
checks t (producer p) s f h = checks_producer t p s h

returns : (t m : ℕ) (l : Local) (s : Shared) → At t (relocking m l) s → Inv m s → At t (running l) s
returns t m (consumer test) s z v = v z
returns t m _ s h v = absurd h

outline : Outline code begin discipline
unfolding Checked discipline
outline = record {
  inv = Inv;
  at = At;
  checks = checks;
  wakes = λ t c m l s h. h;
  returns = returns;
}

starts : Starts code begin discipline outline opened
unfolding outline
starts = record { unowned = λ m z. empty; main = tt; others = λ t ne. tt }

module _ (es : List Event) where
  abbrev after : World Shared Local
  after = run code es (boot opened (λ _. 0) begin)

  hold : Holds code begin discipline outline after
  hold = run-Holds code begin discipline outline opened (λ _. 0) es starts

  -- For every schedule: while the mutex is free, the printed lines are those of a stack that holds
  -- the list, so that each consumer takes the newest node that is left; no consumer ever reads
  -- through NULL; and no run has a data race.
  pub newest_first :
      ((after.owner 0 ≢ none) ⊎ Stacked after.mem.out after.mem.head)
      × ((t : ℕ) → after.thread t ≢ running (consumer null))
      × (¬ DataRace code after)
  unfolding outline
  newest_first = (
    unless_owned after 0 (λ free. hold.unowned 0 free refl),
    λ t e. rw e at (hold.each t),
    race_free code begin discipline opened (λ _. 0) es,
  )
