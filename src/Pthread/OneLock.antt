-- ===== src/Pthread/OneLock.antt =====
-- Programs with one mutex, number 0, that guards all shared variables; only `main` creates threads.
-- One check for each program point gives the whole discipline.
use pthread_benchmark.Prelude.{
  ◌⊎◌, some, ℕ, ◌≡◌, ◌≢◌, refl, sym, ◌∙◌, inl, Bool, true, false, ◌==◌, ◌&&◌, arith, none,
  Option-cases, inr, false≢true, Bool-cases, eq_of_==, ne_of_==,
}
use pthread_benchmark.Pthread.Model.{
  Act, exit, tau, input, lock, unlock, read, write, cond_wait, signal, broadcast, sem_wait,
  sem_post, create, join, World, Status, unborn, running, sleeping, relocking, done,
}
use pthread_benchmark.Pthread.Roles.{Stays}
use pthread_benchmark.Pthread.Ownership.{Locks, Owned, holds}
use pthread_benchmark.Pthread.Absence.{Tracks, Tracked, quiet}
use pthread_benchmark.Pthread.Races.{Policy, guarded, Respects, Discipline}

-- Nobody relies on the absence of another thread.
abbrev pub absent : {L : Type 0} → ℕ → L → ℕ → Bool
absent t l j = false

abbrev pub policy : ℕ → Policy
policy x = guarded 0

abbrev pub held : {L : Type 0} → (L → Bool) → ℕ → L → ℕ → Bool
held inside t l m = 0 == m && inside l

-- Thread `t` goes on from `l` to `l'` outside of lock and unlock.
abbrev pub Goes : {L : Type 0} → (ℕ → L → Bool) → (L → Bool) → ℕ → L → L → Type 0
Goes fits inside t l l' = (fits t l' ≡ true) × (inside l' ≡ inside l)

module _ {D L : Type 0} (fits : ℕ → L → Bool) (inside : L → Bool) where
  -- The check of action `a` of thread `t` at `l`; `inside` says where a thread has the mutex.
  abbrev pub Guards : ℕ → L → Act D L → Type 0
  Guards t l exit = inside l ≡ false
  Guards t l (tau l') = Goes fits inside t l l'
  Guards t l (input k) = (v : ℕ) → Goes fits inside t l (k v)
  Guards t l (lock m l') = (m ≡ 0) × (fits t l' ≡ true) × (inside l ≡ false) × (inside l' ≡ true)
  Guards t l (unlock m l') = (m ≡ 0) × (fits t l' ≡ true) × (inside l ≡ true) × (inside l' ≡ false)
  Guards t l (read x k) = (inside l ≡ true) × ((d : D) → Goes fits inside t l (k d))
  Guards t l (write x f l') = (inside l ≡ true) × Goes fits inside t l l'
  Guards t l (cond_wait c m l') = (m ≡ 0) × (inside l ≡ true) × Goes fits inside t l l'
  Guards t l (signal c l') = Goes fits inside t l l'
  Guards t l (broadcast c l') = Goes fits inside t l l'
  Guards t l (sem_wait s l') = Goes fits inside t l l'
  Guards t l (sem_post s l') = Goes fits inside t l l'
  Guards t l (create j l₀ l') =
      (t ≡ 0) × (fits j l₀ ≡ true) × (inside l₀ ≡ false) × Goes fits inside t l l'
  Guards t l (join j l') = Goes fits inside t l l'

  pub Guards-Stays : (t : ℕ) (l : L) (a : Act D L) → Guards t l a → Stays fits t a
  Guards-Stays t l exit g = tt
  Guards-Stays t l (input k) g = λ v. (g v).0
  Guards-Stays t l (read x k) g = λ d. (g.1 d).0
  Guards-Stays t l (create j l₀ l') g = (g.3.0, g.1)
  Guards-Stays t l _ g = ground arith

  pub Guards-Locks : (t : ℕ) (l : L) (a : Act D L) → Guards t l a → Locks (held inside) t l a
  Guards-Locks t l exit g = ground arith
  Guards-Locks t l (input k) g = λ v m. ground (arith, (g v).1)
  Guards-Locks t l (read x k) g = λ d m. ground (arith, (g.1 d).1)
  Guards-Locks t l _ g = ground arith

  pub Guards-Tracks : (t : ℕ) (l : L) (a : Act D L) → Guards t l a → Tracks absent t l a
  Guards-Tracks t l exit g = tt
  Guards-Tracks t l _ g = ground arith

  pub Guards-Respects :
      (t : ℕ) (l : L) (a : Act D L) → Guards t l a → Respects (held inside) absent policy t l a
  Guards-Respects t l (read x k) g = inl g.0
  Guards-Respects t l (write x f l') g = inl g.0
  Guards-Respects t l _ g = tt

  module _ (code : ℕ → L → Act D L) (begin : L)
      (guards : (t : ℕ) (l : L) → fits t l ≡ true → Guards t l (code t l))
      (starts : fits 0 begin ≡ true) (outside : inside begin ≡ false) where
    pub free : (m : ℕ) → held inside 0 begin m ≡ false
    free m = ground (arith, outside)

    unfoldable pub one_lock : Discipline code begin
    one_lock = record {
      fits = fits;
      held = held inside;
      absent = absent;
      policy = policy;
      stays = λ t l h. Guards-Stays t l (code t l) (guards t l h);
      locks = λ t l h. Guards-Locks t l (code t l) (guards t l h);
      tracks = λ t l h. Guards-Tracks t l (code t l) (guards t l h);
      respects = λ t l h. Guards-Respects t l (code t l) (guards t l h);
      only_main = λ t l k ne. refl;
      starts = starts;
      free = free;
      present = refl;
    }

some≢none : (t : ℕ) → some t ≢ none
some≢none t e = cc

-- A mutex that no thread holds is free.
pub free_of_unheld :
    {D L : Type 0} (h : ℕ → L → ℕ → Bool) (w : World D L) (m : ℕ)
    → Owned h w
    → ((t : ℕ) → holds h t (w.thread t) m ≡ false)
    → w.owner m ≡ none
free_of_unheld h w m o unheld = elim (Option-cases (w.owner m)) [
  | inl free ↦ free
  | inr (t, e) ↦ absurd (false≢true (sym (unheld t) ∙ o.owned t m e))
]

pub unheld-elsewhere :
    {L : Type 0} (inside : L → Bool) (t m : ℕ) (l : L)
    → inside l ≡ true
    → held inside t l m ≡ false
    → m ≢ 0
unheld-elsewhere inside t m l own h e = ground arith

pub running≢done : {L : Type 0} (l : L) → running l ≢ done
running≢done l h = cc

-- What a thread writes under the mutex, it leaves to the next unlock to make good.
pub entrusted :
    {L : Type 0} {P Q : Type 0} (inside : L → Bool) (t : ℕ) (l : L)
    → inside l ≡ true
    → (m : ℕ) → held inside t l m ≡ false
    → (m ≡ 0 → P)
    → m ≡ 0
    → Q
entrusted inside t l own m unheld v z = absurd (unheld-elsewhere inside t m l own unheld z)

-- What holds while the mutex is free.
pub unless_owned :
    {D L : Type 0} {P : Type 0} (w : World D L) (m : ℕ)
    → (w.owner m ≡ none → P)
    → (w.owner m ≢ none) ⊎ P
unless_owned w m p = elim (Option-cases (w.owner m)) [
  | inl free ↦ inr (p free)
  | inr (t, e) ↦ inl (λ n. some≢none t (sym e ∙ n))
]

-- A thread that does not run holds nothing.
pub quiet-holds :
    {L : Type 0} (h : ℕ → L → ℕ → Bool) (t m : ℕ) (s : Status L)
    → quiet s ≡ true
    → holds h t s m ≡ false
quiet-holds h t m unborn q = refl
quiet-holds h t m done q = refl
quiet-holds h t m (running l) q = cc
quiet-holds h t m (sleeping c k l) q = cc
quiet-holds h t m (relocking k l) q = cc

-- Where `main` knows that it is alone and holds nothing, every mutex is free.
pub free_of_alone :
    {D L : Type 0} (h absent : ℕ → L → ℕ → Bool) (w : World D L) (l : L) (m : ℕ)
    → Owned h w
    → Tracked absent w
    → w.thread 0 ≡ running l
    → ((t : ℕ) → t ≢ 0 → absent 0 l t ≡ true)
    → h 0 l m ≡ false
    → w.owner m ≡ none
free_of_alone h absent w l m own track e alone empty = free_of_unheld h w m own (λ t.
    elim (Bool-cases (t == 0)) [
      | inl here ↦ rw (eq_of_== t 0 here, e) empty
      | inr away ↦ quiet-holds h t m (w.thread t) (track 0 t (rw e (alone t (ne_of_== t 0 away))))
    ])
