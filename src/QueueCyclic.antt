-- ===== src/QueueCyclic.antt =====
-- The cyclic queue and the vector of Fixed/NoBug1/queue_cyclic.c. A pointer to a message is
-- `some` of the message, and NULL is `none`; the tables are functions from indices.
mod Order
mod Drain
mod Tally
mod Tests
use pthread_benchmark.Prelude.{
  ℕ, zero, suc, ◌+◌, ◌-◌, ◌%◌, Bool, true, false, Option, none, some, ◌==◌, ltb, leb, if◌then◌else◌,
  update,
}

abbrev pub queue_buf_size : ℕ
queue_buf_size = 100000

pub record Vector (A : Type 0) : Type 0 where
  pub size : ℕ
  pub tail : ℕ
  pub buf : ℕ → Option A

pub record Queue (A : Type 0) : Type 0 where
  pub front : ℕ
  pub tail : ℕ
  pub max_size : ℕ
  pub cyclic_buf : ℕ → Option A

-- How `queue_dequeueall` ends: it returns, it calls exit(1), or the fuel of its loop is used up.
pub data Outcome (A : Type 0) : Type 0 where
  returned : Queue A → Vector A → Outcome A
  exited : Outcome A
  unfinished : Outcome A

module _ {A : Type 0} where
  unfoldable pub vector_init : ℕ → Vector A
  vector_init size = record { size = size; tail = 0; buf = λ _. none }

  unfoldable pub vector_push_back : Vector A → Option A → Vector A × Bool
  vector_push_back v data_ =
      if v.tail == v.size
      then (v, false)
      else (record v { buf = update v.buf v.tail data_; tail = v.tail + 1 }, true)

  unfoldable pub vector_pop_back : Vector A → Vector A × Option A
  vector_pop_back v =
      if v.tail == 0 then (v, none) else (record v { tail = v.tail - 1 }, v.buf (v.tail - 1))

  unfoldable pub queue_init : Queue A
  queue_init = record { front = 0; tail = 0; max_size = queue_buf_size + 1; cyclic_buf = λ _. none }

  unfoldable pub queue_size : Queue A → ℕ
  queue_size q = if leb q.front q.tail then q.tail - q.front else q.max_size - q.front + q.tail

  unfoldable pub queue_is_full : Queue A → Bool
  queue_is_full q = ((q.tail + 1) % q.max_size) == q.front

  unfoldable pub queue_is_empty : Queue A → Bool
  queue_is_empty q = q.front == q.tail

  unfoldable pub queue_enqueue : Queue A → Option A → Queue A × Bool
  queue_enqueue q data_ = if queue_is_full q then (q, false) else (
    record q { cyclic_buf = update q.cyclic_buf q.tail data_; tail = (q.tail + 1) % q.max_size },
    true,
  )

  unfoldable pub queue_dequeue : Queue A → Queue A × Option A
  queue_dequeue q = if queue_is_empty q then (q, none) else (
    record q { cyclic_buf = update q.cyclic_buf q.front none; front = (q.front + 1) % q.max_size },
    q.cyclic_buf q.front,
  )

  -- The loop of `queue_dequeueall`: the first argument is fuel.
  unfoldable pub drain : ℕ → Queue A → Vector A → Outcome A
  drain zero q tmp = unfinished
  drain (suc fuel) q tmp = elim (queue_dequeue q).1 [
    | none ↦ returned (queue_dequeue q).0 tmp
    | some d ↦ elim (vector_push_back tmp (some d)).1 [
      | true ↦ drain fuel (queue_dequeue q).0 (vector_push_back tmp (some d)).0
      | false ↦ exited
    ]
  ]

  unfoldable pub queue_dequeueall : ℕ → Queue A → Outcome A
  queue_dequeueall fuel q = drain fuel q (vector_init (queue_size q))

-- What the pointers of the actor point to: -1, or the index of an entry of `buf`.
pub data Message : Type 0 where
  last_one : Message
  index : ℕ → Message

-- `buf` and `exit_flag` of `actor_runner`.
pub record Actor : Type 0 where
  pub buf : ℕ → ℕ
  pub exit_flag : Bool

-- The length of `buf`.
abbrev pub buf_size : ℕ
buf_size = 50

-- `none` is an access out of bounds.
unfoldable pub receive : Message → Actor → Option Actor
receive last_one a = some (record a { exit_flag = true })
receive (index i) a =
    if ltb i buf_size then some (record a { buf = update a.buf i (a.buf i + 1) }) else none

-- How the loop over a batch ends; `unfinished` is where the fuel runs out.
pub data Batch : Type 0 where
  unfinished out_of_bounds : Batch
  received : Actor → Batch

-- The loop of `actor_runner` over a batch: the first argument is fuel.
unfoldable pub receive_all : ℕ → Vector Message → Actor → Batch
receive_all zero v a = unfinished
receive_all (suc fuel) v a = elim (vector_pop_back v).1 [
  | none ↦ received a
  | some d ↦ elim (receive d a) [
    | none ↦ out_of_bounds
    | some a' ↦ receive_all fuel (vector_pop_back v).0 a'
  ]
]
