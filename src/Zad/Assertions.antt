-- ===== src/Zad/Assertions.antt =====
-- What the threads know of the list.
use pthread_benchmark.Prelude.{ℕ, ◌≡◌, ◌≢◌, refl, sym, subst, true, false, [], arith}
use pthread_benchmark.Prelude.Int.{is_negative_one}
use pthread_benchmark.Pthread.Model.{Act, Status, unborn, running, sleeping, relocking, done}
use pthread_benchmark.Pthread.OneLock.{held, absent, entrusted}
use pthread_benchmark.Pthread.Outline.{Apart, Checks, Outline}
use pthread_benchmark.Pthread.Outline.Runs.{Starts}
use pthread_benchmark.Zad.{
  Shared, Popper, rest, enter, walk, unlink, tell, look, leave, show, Pusher, draw, wait_for,
  walk_with, tell_of, link, post, create_push, create_pop_1, create_pop_2, join_push, join_pop_1,
  join_pop_2, over, Local, main, pop, push, code, begin, opened,
}
use pthread_benchmark.Zad.Ends.{Proper, push_f-Proper, pop_f-Proper}
use pthread_benchmark.Zad.Discipline.{inside, fits, discipline}

abbrev pub Inv : ℕ → Shared → Type 0
Inv m s = m ≡ 0 → Proper s.lista

abbrev pub AtPop : Popper → Shared → Type 0
AtPop rest s = Unit
AtPop enter s = Unit
AtPop (unlink xs) s = Proper s.lista × (xs ≡ s.lista)
AtPop (tell v) s = Proper s.lista × (is_negative_one v ≡ true → s.lista ≡ [])
AtPop _ s = Proper s.lista

abbrev pub AtPush : Pusher → Shared → Type 0
AtPush draw s = Unit
AtPush (wait_for v) s = is_negative_one v ≡ false
AtPush (walk_with v) s = Proper s.lista × (is_negative_one v ≡ false)
AtPush (link v xs) s = Proper s.lista × (is_negative_one v ≡ false) × (xs ≡ s.lista)
AtPush post s = Unit
AtPush _ s = Proper s.lista

abbrev pub At : ℕ → Status Local → Shared → Type 0
At t (running (main p)) s = Unit
At t (running (pop p)) s = AtPop p s
At t (running (push p)) s = AtPush p s
At t (sleeping q m l) s = ⊥
At t (relocking m l) s = ⊥
At t unborn s = Unit
At t done s = Unit

-- A thread that holds the mutex disturbs nobody.
frame :
    (t : ℕ) (l : Local) (s s' : Shared)
    → inside l ≡ true
    → (j : ℕ) (q : Status Local) → j ≢ t
    → Apart fits (held inside) absent t l j q
    → At j q s
    → At j q s'
frame t l s s' own j unborn ne a h = tt
frame t l s s' own j done ne a h = tt
frame t l s s' own j (sleeping q m k) ne a h = h
frame t l s s' own j (relocking m k) ne a h = h
frame t l s s' own j (running (main q)) ne a h = tt
frame t l s s' own j (running (pop rest)) ne a h = tt
frame t l s s' own j (running (pop enter)) ne a h = tt
frame t l s s' own j (running (pop _)) ne a h = ground (arith, a.disjoint 0)
frame t l s s' own j (running (push draw)) ne a h = tt
frame t l s s' own j (running (push (wait_for v))) ne a h = h
frame t l s s' own j (running (push post)) ne a h = tt
frame t l s s' own j (running (push _)) ne a h = ground (arith, a.disjoint 0)

unfoldable pub Checked : ℕ → Local → Shared → Act Shared Local → Type 0
Checked t l s = Checks fits (held inside) absent Inv At t l s

checks_pop : (t : ℕ) (p : Popper) (s : Shared) → AtPop p s → Checked t (pop p) s (code t (pop p))
unfolding code Checked
checks_pop t rest s h = tt
checks_pop t enter s h = λ v. v refl
checks_pop t walk s h = (h, refl)
checks_pop t (unlink xs) s (p, e) =
    let ok = pop_f-Proper xs (subst Proper (sym e) p) in
    ((ok.0, ok.1), frame t (pop (unlink xs)) s _ refl, entrusted inside t (pop (unlink xs)) refl)
checks_pop t (tell v) s h =
    (h.0, frame t (pop (tell v)) s _ refl, entrusted inside t (pop (tell v)) refl)
checks_pop t look s h = h
checks_pop t (show xs) s h =
    (h, frame t (pop (show xs)) s _ refl, entrusted inside t (pop (show xs)) refl)
checks_pop t leave s h = (λ m. h, tt)

checks_push :
    (t : ℕ) (p : Pusher) (s : Shared) → AtPush p s → Checked t (push p) s (code t (push p))
unfolding code Checked
checks_push t draw s h = λ v. refl
checks_push t (wait_for v) s h = λ i. (i refl, h)
checks_push t (walk_with v) s h = (h.0, h.1, refl)
checks_push t (link v xs) s (p, n, e) = (
  push_f-Proper v xs n (subst Proper (sym e) p),
  frame t (push (link v xs)) s _ refl,
  entrusted inside t (push (link v xs)) refl,
)
checks_push t (tell_of v) s h =
    (h, frame t (push (tell_of v)) s _ refl, entrusted inside t (push (tell_of v)) refl)
checks_push t look s h = h
checks_push t (show xs) s h =
    (h, frame t (push (show xs)) s _ refl, entrusted inside t (push (show xs)) refl)
checks_push t leave s h = (λ m. h, tt)
checks_push t post s h = tt

pub checks :
    (t : ℕ) (l : Local) (s : Shared)
    → fits t l ≡ true
    → At t (running l) s
    → Checked t l s (code t l)
unfolding code Checked
checks t (main create_push) s f h = (tt, λ u. tt)
checks t (main create_pop_1) s f h = (tt, λ u. tt)
checks t (main create_pop_2) s f h = (tt, λ u. tt)
checks t (main join_push) s f h = λ u. tt
checks t (main join_pop_1) s f h = λ u. tt
checks t (main join_pop_2) s f h = λ u. tt
checks t (main over) s f h = tt
checks t (pop p) s f h = checks_pop t p s h
checks t (push p) s f h = checks_push t p s h

unfoldable pub outline : Outline code begin discipline
unfolding Checked discipline
outline = record {
  inv = Inv;
  at = At;
  checks = checks;
  wakes = λ t c m l s h. h;
  returns = λ t m l s h v. absurd h;
}

pub starts : Starts code begin discipline outline opened
unfolding outline
starts = record { unowned = λ m z. tt; main = tt; others = λ t ne. tt }
