-- ===== src/HashTable/Log.antt =====
-- The hash table as the log of its insertions.
use pthread_benchmark.Prelude.{
  ℕ, ◌≡◌, ◌≢◌, refl, inl, inr, Option, none, some, List, [], ◌∷◌, ◌==◌, if◌then◌else◌, arith,
  Bool-cases, eq_of_==, ne_of_==, ◌∙◌,
}
use pthread_benchmark.HashTable.{BucketEntry, Table, empty_table, insert, search_bucket, retrieve}

-- Insertions, the last one first.
abbrev pub Log : Type 0
Log = List BucketEntry

abbrev pub built : Log → Table
built [] = empty_table
built (e ∷ es) = insert e.key e.val (built es)

-- The last insertion of a key.
abbrev pub last_of : ℕ → Log → Option BucketEntry
last_of key [] = none
last_of key (e ∷ es) = if e.key == key then some e else last_of key es

retrieve-insert_same :
    (key val : ℕ) (t : Table)
    → retrieve key (insert key val t) ≡ some (record { key = key; val = val })
unfolding retrieve insert search_bucket
retrieve-insert_same key val t = ground arith

pub retrieve-insert_other :
    (key k val : ℕ) (t : Table) → k ≢ key → retrieve key (insert k val t) ≡ retrieve key t
unfolding retrieve insert search_bucket
retrieve-insert_other key k val t ne = ground arith

-- After any insertions retrieve gives the last entry that was inserted with the key, and NULL where
-- there is none.
pub retrieve-last : (es : Log) (key : ℕ) → retrieve key (built es) ≡ last_of key es
unfolding retrieve search_bucket
retrieve-last [] key = refl
retrieve-last (e ∷ es) key = elim (Bool-cases (e.key == key)) [
  | inl same ↦
      rw same (rw (← eq_of_== e.key key same) (retrieve-insert_same e.key e.val (built es)))
  | inr other ↦ rw other (
      retrieve-insert_other key e.key e.val (built es) (ne_of_== e.key key other)
      ∙ retrieve-last es key)
]
