-- ===== src/BoundedBuffer.antt =====
-- Fixed/NoBug1/05bounded.c: one producer writes the characters of a text into a buffer of four
-- places, and one consumer takes them out.
pub mod Discipline
pub mod Ring
pub mod Assertions
pub mod Frames
pub mod Fifo
mod Tests
use pthread_benchmark.Prelude.{
  ℕ, suc, ◌+◌, ◌-◌, ◌%◌, List, [], ◌∷◌, ◌++◌, ◌==◌, leb, ltb, if◌then◌else◌, get_or, update, codes,
}
use pthread_benchmark.Pthread.Model.{
  Act, exit, tau, lock, unlock, read, write, cond_wait, signal, create, join,
}

abbrev pub bsize : ℕ
bsize = 4

abbrev pub numitems : ℕ
numitems = 30

pub item : List ℕ
item = codes "IT'S A SMALL WORLD, AFTER ALL."

-- `buffer_t`, and what the two threads print of the items, in order.
pub record Buffer : Type 0 where
  pub buf : ℕ → ℕ
  pub occupied : ℕ
  pub nextin : ℕ
  pub nextout : ℕ
  pub produced : List ℕ
  pub consumed : List ℕ

-- The variables, the mutex and the condition variables.
abbrev pub buf_var : ℕ
buf_var = 0

abbrev pub occupied_var : ℕ
occupied_var = 1

abbrev pub nextin_var : ℕ
nextin_var = 2

abbrev pub nextout_var : ℕ
nextout_var = 3

abbrev pub produced_var : ℕ
produced_var = 4

abbrev pub consumed_var : ℕ
consumed_var = 5

abbrev pub mutex : ℕ
mutex = 0

abbrev pub more : ℕ
more = 0

abbrev pub less : ℕ
less = 1

pub data Main : Type 0 where
  set_occupied set_nextin set_nextout create_producer create_consumer join_producer : Main
  join_consumer finish : Main

-- Where `producer` stands; the number is a value that it has read.
pub data Producer : Type 0 where
  head test rest slot : Producer
  bump store : ℕ → Producer
  wrap : Producer
  wrapped : ℕ → Producer
  count : Producer
  counted : ℕ → Producer
  print notify leave : Producer

-- Where `consumer` stands; `c` is the item that it has read.
pub data Consumer : Type 0 where
  head test rest slot : Consumer
  bump load : ℕ → Consumer
  wrap : (c : ℕ) → Consumer
  wrapped : (c n : ℕ) → Consumer
  count : (c : ℕ) → Consumer
  counted : (c n : ℕ) → Consumer
  print : (c : ℕ) → Consumer
  notify leave : Consumer

-- Both threads carry their loop counter `i`.
pub data Local : Type 0 where
  main : Main → Local
  producer : ℕ → Producer → Local
  consumer : ℕ → Consumer → Local

pub main_code : Main → Act Buffer Local
main_code set_occupied = write occupied_var (λ b. record b { occupied = 0 }) (main set_nextin)
main_code set_nextin = write nextin_var (λ b. record b { nextin = 0 }) (main set_nextout)
main_code set_nextout = write nextout_var (λ b. record b { nextout = 0 }) (main create_producer)
main_code create_producer = create 1 (producer 0 Producer.head) (main create_consumer)
main_code create_consumer = create 2 (consumer 0 Consumer.head) (main join_producer)
main_code join_producer = join 1 (main join_consumer)
main_code join_consumer = join 2 (main finish)
main_code finish = exit

pub producer_code : ℕ → Producer → Act Buffer Local
producer_code i head =
    if ltb i numitems
    then (if get_or item i 0 == 0 then exit else lock mutex (producer i test))
    else exit
producer_code i test =
    read occupied_var (λ b. if leb bsize b.occupied then producer i rest else producer i slot)
producer_code i rest = cond_wait less mutex (producer i test)
producer_code i slot = read nextin_var (λ b. producer i (bump b.nextin))
producer_code i (bump n) =
    write nextin_var (λ b. record b { nextin = n + 1 }) (producer i (store n))
producer_code i (store n) =
    write buf_var (λ b. record b { buf = update b.buf n (get_or item i 0) }) (producer i wrap)
producer_code i wrap = read nextin_var (λ b. producer i (wrapped b.nextin))
producer_code i (wrapped n) =
    write nextin_var (λ b. record b { nextin = n % bsize }) (producer i count)
producer_code i count = read occupied_var (λ b. producer i (counted b.occupied))
producer_code i (counted n) =
    write occupied_var (λ b. record b { occupied = n + 1 }) (producer i print)
producer_code i print =
    write produced_var (λ b. record b { produced = b.produced ++ (get_or item i 0 ∷ []) })
      (producer i notify)
producer_code i notify = signal more (producer i leave)
producer_code i leave = unlock mutex (producer (i + 1) head)

-- The test `occupied <= 0` is `occupied == 0` on a count that is never negative, and `occupied--`
-- runs only where it is positive.
pub consumer_code : ℕ → Consumer → Act Buffer Local
consumer_code i head = if ltb i numitems then lock mutex (consumer i test) else exit
consumer_code i test =
    read occupied_var (λ b. if leb b.occupied 0 then consumer i rest else consumer i slot)
consumer_code i rest = cond_wait more mutex (consumer i test)
consumer_code i slot = read nextout_var (λ b. consumer i (bump b.nextout))
consumer_code i (bump n) =
    write nextout_var (λ b. record b { nextout = n + 1 }) (consumer i (load n))
consumer_code i (load n) = read buf_var (λ b. consumer i (wrap (b.buf n)))
consumer_code i (wrap c) = read nextout_var (λ b. consumer i (wrapped c b.nextout))
consumer_code i (wrapped c n) =
    write nextout_var (λ b. record b { nextout = n % bsize }) (consumer i (count c))
consumer_code i (count c) = read occupied_var (λ b. consumer i (counted c b.occupied))
consumer_code i (counted c n) =
    write occupied_var (λ b. record b { occupied = n - 1 }) (consumer i (print c))
consumer_code i (print c) =
    write consumed_var (λ b. record b { consumed = b.consumed ++ (c ∷ []) }) (consumer i notify)
consumer_code i notify = signal less (consumer i leave)
consumer_code i leave = unlock mutex (consumer (i + 1) head)

pub code : ℕ → Local → Act Buffer Local
unfolding main_code producer_code consumer_code
code t (main p) = main_code p
code t (producer i p) = producer_code i p
code t (consumer i p) = consumer_code i p

abbrev pub begin : Local
begin = main set_occupied

-- A global object starts at zero.
abbrev pub zeroed : Buffer
zeroed = record {
  buf = λ _. 0;
  occupied = 0;
  nextin = 0;
  nextout = 0;
  produced = [];
  consumed = [];
}
