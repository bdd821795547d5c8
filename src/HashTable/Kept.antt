-- ===== src/HashTable/Kept.antt =====
-- What stays in the table while others insert.
use native.Mathlib.Nat.{mul-le-mul_right}
use pthread_benchmark.Prelude.{
  ℕ, suc, ◌+◌, ◌-◌, ◌*◌, ◌<◌, ◌≤◌, ◌≡◌, ◌≢◌, refl, ap, ◌∙◌, sym, none, List, ◌∷◌, ◌==◌, ltb, update,
  arith, Bool-cases, inl, inr, eq_of_==, ne_of_==, subst,
}
use pthread_benchmark.Pthread.Model.{Status, unborn, running, sleeping, relocking, done}
use pthread_benchmark.Pthread.Outline.{Apart}
use pthread_benchmark.HashTable.{
  BucketEntry, Table, search_bucket, retrieve, insert, Put, head, load, store, leave, Main, spawn,
  await, inserted, Local, main, put, bucket_of,
}
use pthread_benchmark.HashTable.Log.{retrieve-insert_other}
use pthread_benchmark.HashTable.Discipline.{held, fits, absent}

-- `retrieve` finds the key.
abbrev pub Has : ℕ → Table → Type 0
Has key table = retrieve key table ≢ none

-- The write of `insert`.
abbrev pub linked : ℕ → ℕ → List BucketEntry → Table → Table
linked key val chain table = update table (bucket_of key) (record { key = key; val = val } ∷ chain)

linked-Has_same : (key val : ℕ) (table : Table) → Has key (insert key val table)
unfolding retrieve insert search_bucket
linked-Has_same key val table h = ground arith

linked-Has_other : (k key val : ℕ) (table : Table) → Has k table → Has k (insert key val table)
linked-Has_other k key val table h = elim (Bool-cases (key == k)) [
  | inl same ↦ rw (eq_of_== key k same) (linked-Has_same k val table)
  | inr other ↦ λ e. h (sym (retrieve-insert_other k key val table (ne_of_== key k other)) ∙ e)
]

linked-insert :
    (key val : ℕ) (chain : List BucketEntry) (table : Table)
    → chain ≡ table (bucket_of key)
    → linked key val chain table ≡ insert key val table
unfolding insert
linked-insert key val chain table e = rw e refl

module _ (n size : ℕ) (keys : ℕ → ℕ) where
  -- The keys from `tid` in steps of `n`, the first `c` of them.
  pub record PutBy (tid c : ℕ) (table : Table) : Type 0 where
    pub each : (i : ℕ) → i < c → Has (keys (tid + i * n)) table

  -- All keys of thread `tid`.
  pub record Finished (tid : ℕ) (table : Table) : Type 0 where
    pub each : (i : ℕ) → tid + i * n < size → Has (keys (tid + i * n)) table

  abbrev pub AtPut : ℕ → ℕ → Put → Table → Type 0
  AtPut tid key head table = (c : ℕ) × (key ≡ tid + c * n) × PutBy tid c table
  AtPut tid key load table = (c : ℕ) × (key ≡ tid + c * n) × PutBy tid c table
  AtPut tid key (store chain) table =
      (c : ℕ) × (key ≡ tid + c * n) × PutBy tid c table × (chain ≡ table (bucket_of (keys key)))
  AtPut tid key leave table = (c : ℕ) × (key ≡ tid + c * n) × PutBy tid (suc c) table

  pub record Joined (i : ℕ) (table : Table) : Type 0 where
    pub each : (tid : ℕ) → tid < i → Finished tid table

  abbrev pub AtMain : Main → Table → Type 0
  AtMain (spawn i) table = Unit
  AtMain (await i) table = Joined i table
  AtMain inserted table = Joined n table

  abbrev pub At : ℕ → Status Local → Table → Type 0
  At t (running (main p)) table = AtMain p table
  At t (running (put tid key p)) table = AtPut tid key p table
  At t (sleeping c m l) table = ⊥
  At t (relocking m l) table = ⊥
  At t unborn table = Unit
  At t done table = 0 < t → Finished (t - 1) table

  abbrev pub Inv : ℕ → Table → Type 0
  Inv m table = Unit

  -- An insertion keeps what is in the table.
  module _ (table : Table) (key val : ℕ) (chain : List BucketEntry)
      (fresh : chain ≡ table (bucket_of key)) where
    keeps : (k : ℕ) → Has k table → Has k (linked key val chain table)
    keeps k h = rw (linked-insert key val chain table fresh) (linked-Has_other k key val table h)

    holds_key : Has key (linked key val chain table)
    holds_key = rw (linked-insert key val chain table fresh) (linked-Has_same key val table)

    keeps_put : (tid c : ℕ) → PutBy tid c table → PutBy tid c (linked key val chain table)
    keeps_put tid c h = record { each = λ i lt. keeps (keys (tid + i * n)) (h.each i lt) }

    keeps_Finished : (tid : ℕ) → Finished tid table → Finished tid (linked key val chain table)
    keeps_Finished tid h = record { each = λ i lt. keeps (keys (tid + i * n)) (h.each i lt) }

    keeps_Joined : (i : ℕ) → Joined i table → Joined i (linked key val chain table)
    keeps_Joined i h = record { each = λ tid lt. keeps_Finished tid (h.each tid lt) }

  pub put_more :
      (table : Table) (key val : ℕ) (chain : List BucketEntry)
      → chain ≡ table (bucket_of (keys key))
      → (tid c : ℕ) → key ≡ tid + c * n
      → PutBy tid c table
      → PutBy tid (suc c) (linked (keys key) val chain table)
  put_more table key val chain fresh tid c e h = record {
    each = λ i lt. elim (Bool-cases (i == c)) [
      | inl here ↦
          subst (λ k. Has (keys k) (linked (keys key) val chain table))
            (e ∙ ap (λ (x : ℕ). tid + x * n) (sym (eq_of_== i c here)))
            (holds_key table (keys key) val chain fresh)
      | inr away ↦
          keeps table (keys key) val chain fresh (keys (tid + i * n)) (h.each i (ground arith))
    ];
  }

  pub finished :
      (tid c : ℕ) (table : Table) → size ≤ tid + c * n → PutBy tid c table → Finished tid table
  finished tid c table le h = record {
    each = λ i lt. elim (Bool-cases (ltb i c)) [
      | inl less ↦ h.each i (ground arith)
      | inr more ↦
          let over : c * n ≤ i * n = mul-le-mul_right n (ground arith) in absurd (omega arith)
    ];
  }

  pub frame :
      (t tid key : ℕ) (chain : List BucketEntry) (table : Table)
      → chain ≡ table (bucket_of (keys key))
      → (j : ℕ) (s : Status Local) → j ≢ t
      → Apart
          (fits n size keys)
          (held n size keys)
          (absent n size keys)
          t
          (put tid key (store chain))
          j
          s
      → At j s table
      → At j s (linked (keys key) tid chain table)
  frame t tid key chain table e j unborn ne a h = tt
  frame t tid key chain table e j done ne a h =
      λ gt. keeps_Finished table (keys key) tid chain e (j - 1) (h gt)
  frame t tid key chain table e j (sleeping c m l) ne a h = h
  frame t tid key chain table e j (relocking m l) ne a h = h
  frame t tid key chain table e j (running (main (spawn i))) ne a h = tt
  frame t tid key chain table e j (running (main (await i))) ne a h =
      keeps_Joined table (keys key) tid chain e i h
  frame t tid key chain table e j (running (main inserted)) ne a h =
      keeps_Joined table (keys key) tid chain e n h
  frame t tid key chain table e j (running (put tid' key' head)) ne a (c, e', h) =
      (c, e', keeps_put table (keys key) tid chain e tid' c h)
  frame t tid key chain table e j (running (put tid' key' load)) ne a (c, e', h) =
      (c, e', keeps_put table (keys key) tid chain e tid' c h)
  frame t tid key chain table e j (running (put tid' key' (store chain'))) ne a (c, e', h, f) = (
    c,
    e',
    keeps_put table (keys key) tid chain e tid' c h,
    ground (arith, f, a.disjoint (bucket_of (keys key))),
  )
  frame t tid key chain table e j (running (put tid' key' leave)) ne a (c, e', h) =
      (c, e', keeps_put table (keys key) tid chain e tid' (suc c) h)
