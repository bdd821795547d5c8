-- ===== src/TaskPool/Steps.antt =====
-- What the steps of getTask and submitTask do to the queue.
use pthread_benchmark.Prelude.{
  ℕ, zero, suc, ◌+◌, ◌-◌, ◌<◌, ◌≡◌, refl, sym, ap, ◌∙◌, false, List, [], ◌∷◌, ◌++◌, length,
  append_assoc, length-append, arith, update, ◌==◌, Bool-cases, inl, inr, eq_of_==,
}
use pthread_benchmark.TaskPool.{Task, Pool, is_final, buffer_size}
use pthread_benchmark.TaskPool.Assertions.{nth, Ordinary, Stored, Taking, Placed}

nth-append : (xs : List Task) (t : Task) (j : ℕ) → j < length xs → nth (xs ++ (t ∷ [])) j ≡ nth xs j
nth-append [] t j lt = absurd (omega (arith, lt))
nth-append (x ∷ xs) t zero lt = refl
nth-append (x ∷ xs) t (suc j) lt = nth-append xs t j (omega (arith, lt))

nth-last : (xs : List Task) (t : Task) → nth (xs ++ (t ∷ [])) (length xs) ≡ t
nth-last [] t = refl
nth-last (x ∷ xs) t = nth-last xs t

Ordinary-append :
    (xs : List Task) (t : Task) → Ordinary xs → is_final t ≡ false → Ordinary (xs ++ (t ∷ []))
Ordinary-append [] t o f = (f, tt)
Ordinary-append (x ∷ xs) t (g, o) f = (g, Ordinary-append xs t o f)

pub taken_first :
    (x : Task) (xs : List Task) (p : Pool) → Stored (x ∷ xs) p → Taking (p.task_queue 0) 0 xs p
taken_first x xs p s =
    let same : p.task_queue 0 ≡ x = s.entries 0 (omega arith) in
    record {
      size = s.size;
      room = s.room;
      front = λ j lt lt'. absurd (omega (arith, lt));
      back = λ j le lt. ground (arith, s.entries (suc j) (omega (arith, lt)));
      log = ap (λ t. p.taken ++ (t ∷ xs)) same ∙ s.log;
      final = ap is_final same ∙ s.ordinary.0;
      ordinary = s.ordinary.1;
    }

pub shifted :
    (t : Task) (i : ℕ) (xs : List Task) (x : Task) (p : Pool)
    → Taking t i xs p
    → i < length xs
    → x ≡ nth xs i
    → Taking t (i + 1) xs (record p { task_queue = update p.task_queue i x })
shifted t i xs x p k lt e = record {
  size = k.size;
  room = k.room;
  front = λ j lt' le. elim (Bool-cases (i == j)) [
    | inl here ↦ rw here (e ∙ ap (nth xs) (eq_of_== i j here))
    | inr away ↦ rw away (k.front j (ground arith) le)
  ];
  back = λ j le lt'. ground (arith, k.back j (omega (arith, le)) lt');
  log = k.log;
  final = k.final;
  ordinary = k.ordinary;
}

pub lowered :
    (t : Task) (n : ℕ) (xs : List Task) (p : Pool)
    → Taking t (length xs) xs p
    → n ≡ p.task_count
    → Stored xs (record p { task_count = n - 1; taken = p.taken ++ (t ∷ []) })
lowered t n xs p k e = record {
  size = omega (arith, k.size, e);
  room = omega (arith, k.room);
  entries = λ j lt. k.front j lt lt;
  log = append_assoc p.taken (t ∷ []) xs ∙ k.log;
  ordinary = k.ordinary;
}

pub put_behind :
    (t : Task) (c : ℕ) (xs : List Task) (p : Pool)
    → Stored xs p
    → length xs < buffer_size
    → c ≡ p.task_count
    → Placed t xs (record p { task_queue = update p.task_queue c t })
put_behind t c xs p s lt e = record {
  size = s.size;
  room = lt;
  entries = λ j lt'. ground (arith, s.entries j lt', s.size);
  entry = ground (arith, s.size);
  log = s.log;
  ordinary = s.ordinary;
}

pub raised :
    (t : Task) (c : ℕ) (xs : List Task) (p : Pool)
    → Placed t xs p
    → c ≡ p.task_count
    → is_final t ≡ false
    → Stored (xs ++ (t ∷ [])) (record p { task_count = c + 1; submitted = p.submitted ++ (t ∷ []) })
raised t c xs p k e f = record {
  size = omega (arith, k.size, e, length-append xs (t ∷ []));
  room = omega (arith, k.room, length-append xs (t ∷ []));
  entries = λ j lt. elim (Bool-cases (j == length xs)) [
    | inl last ↦ rw (eq_of_== j (length xs) last) (k.entry ∙ sym (nth-last xs t))
    | inr early ↦
        let below : j < length xs = ground (arith, length-append xs (t ∷ [])) in
        k.entries j below ∙ sym (nth-append xs t j below)
  ];
  log = sym (append_assoc p.taken xs (t ∷ [])) ∙ ap (λ l. l ++ (t ∷ [])) k.log;
  ordinary = Ordinary-append xs t k.ordinary f;
}
