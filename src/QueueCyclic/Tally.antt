-- ===== src/QueueCyclic/Tally.antt =====
-- What `actor_runner` of queue_cyclic.c makes of a batch of messages.
use pthread_benchmark.Prelude.{
  ℕ, zero, suc, ◌+◌, ◌<◌, ◌≡◌, ◌≢◌, inl, inr, refl, Bool, true, false, Option, none, some, List, [],
  ◌∷◌, ◌++◌, ◌==◌, ◌||◌, if◌then◌else◌, arith, Option-cases, Bool-cases, ltb, update, ◌&&◌, subst,
  sym, ap, ◌∙◌,
}
use pthread_benchmark.QueueCyclic.{
  Vector, vector_pop_back, Message, last_one, index, Actor, receive, receive_all, Batch,
  out_of_bounds, received, buf_size,
}
use pthread_benchmark.QueueCyclic.Drain.{entries}

-- How often a batch names an index, and whether it holds the message -1.
abbrev pub times : ℕ → List (Option Message) → ℕ
times i [] = 0
times i (some (index j) ∷ xs) = (if j == i then 1 else 0) + times i xs
times i (_ ∷ xs) = times i xs

abbrev pub stops : List (Option Message) → Bool
stops [] = false
stops (some last_one ∷ xs) = true
stops (_ ∷ xs) = stops xs

times-snoc :
    (i : ℕ) (xs : List (Option Message)) (x : Option Message)
    → times i (xs ++ (x ∷ [])) ≡ times i xs + times i (x ∷ [])
times-snoc i [] x = omega arith
times-snoc i (some (index j) ∷ xs) x = omega (arith, times-snoc i xs x)
times-snoc i (some last_one ∷ xs) x = times-snoc i xs x
times-snoc i (none ∷ xs) x = times-snoc i xs x

stops-snoc :
    (xs : List (Option Message)) (x : Option Message)
    → stops (xs ++ (x ∷ [])) ≡ stops xs || stops (x ∷ [])
stops-snoc [] x = refl
stops-snoc (some (index j) ∷ xs) x = stops-snoc xs x
stops-snoc (some last_one ∷ xs) x = refl
stops-snoc (none ∷ xs) x = stops-snoc xs x

-- Whether all indices of a batch are in bounds.
abbrev pub fits : Option Message → Bool
fits (some (index i)) = ltb i buf_size
fits _ = true

abbrev pub all_fit : List (Option Message) → Bool
all_fit [] = true
all_fit (x ∷ xs) = fits x && all_fit xs

all_fit-snoc :
    (xs : List (Option Message)) (x : Option Message)
    → all_fit (xs ++ (x ∷ [])) ≡ all_fit xs && fits x
all_fit-snoc [] x = ground arith
all_fit-snoc (y ∷ ys) x = ground (arith, all_fit-snoc ys x)

-- Each index is counted as often as the batch names it, and the flag is set by a message -1; with an
-- index out of bounds the loop faults instead.
pub record Tallied (v : Vector Message) (a : Actor) (r : Batch) : Type 0 where
  pub actor : Actor
  pub ends : r ≡ (if all_fit (entries v.buf v.tail) then received actor else out_of_bounds)
  pub counts : (i : ℕ) → actor.buf i ≡ a.buf i + times i (entries v.buf v.tail)
  pub flags : actor.exit_flag ≡ a.exit_flag || stops (entries v.buf v.tail)

-- What a message in bounds does.
abbrev noted : Message → Actor → Actor
noted last_one a = record a { exit_flag = true }
noted (index i) a = record a { buf = update a.buf i (a.buf i + 1) }

receive_lem :
    (d : Message) (a : Actor) → receive d a ≡ (if fits (some d) then some (noted d a) else none)
unfolding receive
receive_lem last_one a = refl
receive_lem (index j) a = refl

noted-counts :
    (d : Message) (a : Actor) (i : ℕ) → (noted d a).buf i ≡ a.buf i + times i (some d ∷ [])
noted-counts last_one a i = omega arith
noted-counts (index j) a i = ground arith

noted-flags : (d : Message) (a : Actor) → (noted d a).exit_flag ≡ a.exit_flag || stops (some d ∷ [])
noted-flags last_one a = ground arith
noted-flags (index j) a = ground arith

-- A vector of `n` entries.
abbrev holding : ℕ → (ℕ → Option Message) → ℕ → Vector Message
holding size buf n = record { size = size; tail = n; buf = buf }

pop-empty :
    (size : ℕ) (buf : ℕ → Option Message)
    → vector_pop_back (holding size buf 0) ≡ (holding size buf 0, none)
unfolding vector_pop_back
pop-empty size buf = refl

pop-holding :
    (size : ℕ) (buf : ℕ → Option Message) (n : ℕ)
    → vector_pop_back (holding size buf (suc n)) ≡ (holding size buf n, buf n)
unfolding vector_pop_back
pop-holding size buf n = ground arith

or_rotate : (a d s : Bool) {x y all : Bool} → x ≡ y || s → y ≡ a || d → all ≡ s || d → x ≡ a || all
or_rotate a d s h k l = ground arith

ends_together :
    (b f x : Bool) (r : Batch) (a : Actor)
    → r ≡ (if b then received a else out_of_bounds)
    → x ≡ b && f
    → (if f then r else out_of_bounds) ≡ (if x then received a else out_of_bounds)
ends_together b true x r a e h = ground arith
ends_together b false x r a e h = ground arith

after_last :
    (size n : ℕ) (buf : ℕ → Option Message) (d : Message) (a : Actor) (r : Batch)
    → buf n ≡ some d
    → Tallied (holding size buf n) (noted d a) r
    → Tallied (holding size buf (suc n)) a (if fits (some d) then r else out_of_bounds)
unfolding entries
after_last size n buf d a r e t = record {
  actor = t.actor;
  ends = rw e (
      ends_together (all_fit (entries buf n)) (fits (some d))
        (all_fit (entries buf n ++ (some d ∷ []))) r t.actor t.ends
        (all_fit-snoc (entries buf n) (some d)));
  counts = λ i.
      rw e (omega (arith, t.counts i, noted-counts d a i, times-snoc i (entries buf n) (some d)));
  flags = rw e (
      or_rotate a.exit_flag (stops (some d ∷ [])) (stops (entries buf n)) t.flags (noted-flags d a)
        (stops-snoc (entries buf n) (some d)));
}

-- A turn of the loop.
turn_lem :
    (fuel : ℕ) (v v' : Vector Message) (d : Message) (a : Actor)
    → vector_pop_back v ≡ (v', some d)
    → receive_all (suc fuel) v a
      ≡ (if fits (some d) then receive_all fuel v' (noted d a) else out_of_bounds)
unfolding receive_all
turn_lem fuel v v' d a e = elim (Bool-cases (fits (some d))) [
  | inl in_ ↦
      rw (e, receive_all)
        (rw (receive_lem d a, receive_all)
          (rw in_ (ap (λ w. receive_all fuel w (noted d a)) (ap (λ q. q.0) e))))
  | inr out ↦ rw (e, receive_all) (rw (receive_lem d a, receive_all) (rw out refl))
]

receive-holding :
    (n fuel size : ℕ) (buf : ℕ → Option Message) (a : Actor)
    → ((j : ℕ) → j < n → buf j ≢ none)
    → n < fuel
    → Tallied (holding size buf n) a (receive_all fuel (holding size buf n) a)
unfolding receive_all entries
receive-holding n zero size buf a full enough = absurd (omega arith)
receive-holding zero (suc fuel) size buf a full enough =
    rw (pop-empty size buf, receive_all)
      record { actor = a; ends = refl; counts = λ i. omega arith; flags = ground arith }
receive-holding (suc n) (suc fuel) size buf a full enough = elim (Option-cases (buf n)) [
  | inl null ↦ absurd (full n (omega arith) null)
  | inr (d, e) ↦
      subst (Tallied (holding size buf (suc n)) a)
        (sym (
          turn_lem fuel (holding size buf (suc n)) (holding size buf n) d a
            (pop-holding size buf n ∙ ap (λ x. (holding size buf n, x)) e)))
        (after_last size n buf d a (receive_all fuel (holding size buf n) (noted d a)) e (
          receive-holding n fuel size buf (noted d a) (λ j lt. full j (omega arith)) (omega arith)))
]

-- With no NULL among the vector's entries and more fuel than entries, the loop of actor_runner
-- ends. Where all indices are below 50 it has counted each index as often as the batch names it,
-- and its flag is set when it was or when -1 is in the batch; where one is not, it runs out of the
-- bounds of buf.
pub receive_all-Tallied :
    (fuel : ℕ) (v : Vector Message) (a : Actor)
    → ((j : ℕ) → j < v.tail → v.buf j ≢ none)
    → v.tail < fuel
    → Tallied v a (receive_all fuel v a)
receive_all-Tallied fuel v a full enough = receive-holding v.tail fuel v.size v.buf a full enough
