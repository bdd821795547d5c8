-- ===== src/NodeStack.antt =====
-- Fixed/NoBug1/02.c: two producers push numbered nodes on a list, two consumers take the first node.
-- The chain of nodes from `head` is the list of their numbers.
mod Discipline
mod Assertions
mod Story
mod Tests
use pthread_benchmark.Prelude.{ℕ, suc, ◌+◌, ◌-◌, List, [], ◌∷◌, ◌++◌, ltb, if◌then◌else◌}
use pthread_benchmark.Pthread.Model.{
  Act, exit, tau, lock, unlock, read, write, cond_wait, signal, create, join,
}

abbrev pub consumer_count : ℕ
consumer_count = 2

abbrev pub producer_count : ℕ
producer_count = 2

-- A printed line: who, and the number of the node.
pub data Line : Type 0 where
  consumed produced : ℕ → ℕ → Line

pub record Shared : Type 0 where
  pub head : List ℕ
  pub out : List Line

abbrev pub head_var : ℕ
head_var = 0

abbrev pub out_var : ℕ
out_var = 1

abbrev pub mutex : ℕ
mutex = 0

abbrev pub cond : ℕ
cond = 0

-- At `null` the consumer has read through NULL.
pub data Consumer : Type 0 where
  enter test wait fetch null : Consumer
  unlink : ℕ → List ℕ → Consumer
  say : ℕ → Consumer
  leave : Consumer

-- The first number is `i`.
pub data Producer : Type 0 where
  enter prepare : ℕ → Producer
  link : ℕ → List ℕ → Producer
  say announce leave : ℕ → Producer

pub data Main : Type 0 where
  spawn await : ℕ → Main
  over : Main

pub data Local : Type 0 where
  main : Main → Local
  consumer : Consumer → Local
  producer : Producer → Local

abbrev pub fetched : List ℕ → Consumer
fetched [] = null
fetched (x ∷ xs) = unlink x xs

abbrev pub looked : List ℕ → Consumer
looked [] = Consumer.wait
looked (x ∷ xs) = fetch

-- Threads 1 and 2 are the consumers 0 and 1, threads 3 and 4 the producers 0 and 1.
pub consume : ℕ → Consumer → Act Shared Local
consume t enter = lock mutex (consumer test)
consume t test = read head_var (λ s. consumer (looked s.head))
consume t wait = cond_wait cond mutex (consumer test)
consume t fetch = read head_var (λ s. consumer (fetched s.head))
consume t null = tau (consumer null)
consume t (unlink x xs) = write head_var (λ s. record s { head = xs }) (consumer (Consumer.say x))
consume t (say x) =
    write out_var (λ s. record s { out = s.out ++ (consumed (t - 1) x ∷ []) })
      (consumer Consumer.leave)
consume t leave = unlock mutex (consumer Consumer.enter)

pub produce : ℕ → Producer → Act Shared Local
produce t (enter i) = lock mutex (producer (prepare i))
produce t (prepare i) = read head_var (λ s. producer (link i s.head))
produce t (link i xs) = write head_var (λ s. record s { head = i ∷ xs }) (producer (Producer.say i))
produce t (say i) =
    write out_var (λ s. record s { out = s.out ++ (produced (t - 3) i ∷ []) })
      (producer (announce i))
produce t (announce i) = signal cond (producer (Producer.leave i))
produce t (leave i) = unlock mutex (producer (Producer.enter (i + 1)))

pub main_code : Main → Act Shared Local
main_code (spawn i) =
    if ltb i consumer_count
    then create (suc i) (consumer Consumer.enter) (main (spawn (suc i)))
    else if ltb i (consumer_count + producer_count)
    then create (suc i) (producer (Producer.enter 0)) (main (spawn (suc i)))
    else tau (main (await 0))
main_code (await i) =
    if ltb i (consumer_count + producer_count)
    then join (suc i) (main (await (suc i)))
    else tau (main over)
main_code over = exit

pub code : ℕ → Local → Act Shared Local
unfolding consume produce main_code
code t (main p) = main_code p
code t (consumer p) = consume t p
code t (producer p) = produce t p

abbrev pub begin : Local
begin = main (spawn 0)

abbrev pub opened : Shared
opened = record { head = []; out = [] }
