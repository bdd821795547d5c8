-- ===== src/HashTable.antt =====
-- The hash table of Faulty/OneBug/parallel_mutex.c and its threads. An entry does not change when it
-- is in the table, so that the chain of a bucket is a list. Keys are not negative.
mod Log
mod Discipline
mod Kept
mod Filling
mod Tests
use pthread_benchmark.Prelude.{
  ℕ, zero, suc, ◌+◌, ltb, ◌%◌, Option, none, some, List, [], ◌∷◌, ◌==◌, if◌then◌else◌, update,
}
use pthread_benchmark.Pthread.Model.{Act, exit, tau, lock, unlock, read, write, create, join}

abbrev pub num_buckets : ℕ
num_buckets = 5

pub record BucketEntry : Type 0 where
  pub key : ℕ
  pub val : ℕ

abbrev pub Table : Type 0
Table = ℕ → List BucketEntry

-- A global array starts with NULL everywhere.
abbrev pub empty_table : Table
empty_table i = []

-- The critical section of `insert`.
unfoldable pub insert : ℕ → ℕ → Table → Table
insert key val table =
    update table (key % num_buckets) (record { key = key; val = val } ∷ table (key % num_buckets))

-- The loop of `retrieve`.
unfoldable pub search_bucket : ℕ → List BucketEntry → Option BucketEntry
search_bucket key [] = none
search_bucket key (b ∷ bs) =
    let rest = search_bucket key bs in if b.key == key then some b else rest

unfoldable pub retrieve : ℕ → Table → Option BucketEntry
retrieve key table = search_bucket key (table (key % num_buckets))

-- The count of lost keys after a look.
abbrev pub if_missing : Option BucketEntry → ℕ → ℕ
if_missing none lost = lost + 1
if_missing (some e) lost = lost

-- Where `put_phase` stands in `insert` of its key; `store` has the chain that it has read.
pub data Put : Type 0 where
  head load : Put
  store : List BucketEntry → Put
  leave : Put

-- `main` from the creation of the threads that insert to the end of their joins.
pub data Main : Type 0 where
  spawn await : ℕ → Main
  inserted : Main

-- The numbers of `put` are tid and key.
pub data Local : Type 0 where
  main : Main → Local
  put : ℕ → ℕ → Put → Local

-- The lock and the place of a key in the table.
abbrev pub bucket_of : ℕ → ℕ
bucket_of key = key % num_buckets

module _ (num_threads num_keys : ℕ) (keys : ℕ → ℕ) where
  pub main_code : Main → Act Table Local
  main_code (spawn i) =
      if ltb i num_threads
      then create (suc i) (put i i head) (main (spawn (suc i)))
      else tau (main (await 0))
  main_code (await i) =
      if ltb i num_threads then join (suc i) (main (await (suc i))) else tau (main inserted)
  main_code inserted = exit

  pub put_code : ℕ → ℕ → Put → Act Table Local
  put_code tid key head =
      if ltb key num_keys then lock (bucket_of (keys key)) (put tid key load) else exit
  put_code tid key load =
      read (bucket_of (keys key)) (λ table. put tid key (store (table (bucket_of (keys key)))))
  put_code tid key (store chain) =
      write (bucket_of (keys key))
        (λ table.
          update table (bucket_of (keys key)) (record { key = keys key; val = tid } ∷ chain))
        (put tid key leave)
  put_code tid key leave = unlock (bucket_of (keys key)) (put tid (key + num_threads) head)

  pub code : ℕ → Local → Act Table Local
  unfolding main_code put_code
  code t (main p) = main_code p
  code t (put tid key p) = put_code tid key p

  -- The loop of `get_phase` over a table that no thread changes any more, with fuel: `none` means
  -- that the fuel ran out.
  pub get_phase : ℕ → ℕ → ℕ → Table → Option ℕ
  get_phase zero key lost table = none
  get_phase (suc fuel) key lost table =
      let miss = if_missing (retrieve (keys key) table) lost in
      let rest = get_phase fuel (key + num_threads) miss table in
      if ltb key num_keys then rest else some lost

abbrev pub begin : Local
begin = main (spawn 0)
