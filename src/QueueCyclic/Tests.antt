-- ===== src/QueueCyclic/Tests.antt =====
-- Runs of the queue of queue_cyclic.c.
use pthread_benchmark.Prelude.Cyclic.{window}
use pthread_benchmark.Prelude.{
  false, update, ℕ, zero, suc, ◌-◌, ◌<◌, ◌≡◌, ◌≢◌, refl, none, some, [], ◌∷◌, arith,
}
use pthread_benchmark.QueueCyclic.{
  Queue, Vector, queue_enqueue, queue_dequeue, queue_size, queue_dequeueall, Message, last_one,
  index, Actor, receive_all,
}
use pthread_benchmark.QueueCyclic.Order.{IsValid, contents, put, get, queue-fifo}
use pthread_benchmark.QueueCyclic.Drain.{Emptied, queue_dequeueall-Emptied}
use pthread_benchmark.QueueCyclic.Tally.{Tallied, receive_all-Tallied}

-- A queue of four places, whose two messages go round the end.
abbrev around : Queue Message
around = record {
  front = 3;
  tail = 1;
  max_size = 4;
  cyclic_buf = update (update (λ _. none) 3 (some (index 7))) 0 (some last_one);
}

around-IsValid : IsValid around
around-IsValid = record { front_in = omega arith; tail_in = omega arith }

queue-fifo_example :
    (IsValid (queue_enqueue around (some (index 2))).0
      × ((
        contents (queue_enqueue around (some (index 2))).0,
        (queue_enqueue around (some (index 2))).1,
      )
          ≡ put (around.max_size - 1) (some (index 2)) (contents around)))
    × (IsValid (queue_dequeue around).0
        × ((contents (queue_dequeue around).0, (queue_dequeue around).1) ≡ get (contents around)))
queue-fifo_example = queue-fifo around (some (index 2)) around-IsValid

queue_dequeueall-Emptied_example : Emptied around [] (queue_dequeueall 3 around)
unfolding window queue_size
queue_dequeueall-Emptied_example =
    queue_dequeueall-Emptied (index 7 ∷ last_one ∷ []) 3 around around-IsValid refl (omega arith)

abbrev batch : Vector Message
batch = record {
  size = 2;
  tail = 2;
  buf = update (update (λ _. none) 0 (some (index 7))) 1 (some last_one);
}

abbrev fresh : Actor
fresh = record { buf = λ _. 0; exit_flag = false }

batch_full : (j : ℕ) → j < batch.tail → batch.buf j ≢ none
batch_full zero lt e = cc
batch_full (suc zero) lt e = cc
batch_full (suc (suc j)) lt e = absurd (omega arith)

receive_all-Tallied_example : Tallied batch fresh (receive_all 3 batch fresh)
receive_all-Tallied_example = receive_all-Tallied 3 batch fresh batch_full (omega arith)
