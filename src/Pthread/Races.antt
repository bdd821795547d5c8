-- ===== src/Pthread/Races.antt =====
-- Data races: two threads whose next actions reach for one variable, one of them to write it. A
-- program that keeps to a locking policy has none in any run.
use pthread_benchmark.Prelude.{
  ℕ, ◌≡◌, ◌≢◌, ◌⊎◌, inl, inr, refl, ◌∙◌, Bool, true, false, List, eq_of_==, sym, arith,
}
use pthread_benchmark.Pthread.Model.{
  Act, read, write, Status, running, World, Event, step, run, run_inv, boot, pending, touches,
  alters,
}
use pthread_benchmark.Pthread.Roles.{Placed, Stays, fitting, step-Placed, boot-Placed}
use pthread_benchmark.Pthread.Ownership.{Locks, Owned, step-Owned, boot-Owned, exclusive}
use pthread_benchmark.Pthread.Absence.{Tracks, Tracked, step-Tracked, boot-Tracked}

-- How a shared variable is protected: by a mutex, by being written only while no other thread
-- runs, or by belonging to one thread.
pub data Policy : Type 0 where
  guarded : ℕ → Policy
  frozen : Policy
  private : ℕ → Policy

pub record DataRace {D L : Type 0} (code : ℕ → L → Act D L) (w : World D L) : Type 0 where
  pub first : ℕ
  pub second : ℕ
  pub variable : ℕ
  pub distinct : first ≢ second
  pub reached : touches (pending code first (w.thread first)) variable ≡ true
  pub altered : alters (pending code second (w.thread second)) variable ≡ true

-- There is no data race after any schedule, so at no time of any run.
abbrev pub NeverRaces : {D L : Type 0} → (ℕ → L → Act D L) → L → D → (ℕ → ℕ) → Type 0
NeverRaces code begin d sems = (es : List Event) → ¬ DataRace code (run code es (boot d sems begin))

module _ {L : Type 0} (held absent : ℕ → L → ℕ → Bool) where
  abbrev pub Alone : ℕ → L → Type 0
  Alone i l = (j : ℕ) → j ≢ i → absent i l j ≡ true

  abbrev pub MayRead : ℕ → L → Policy → Type 0
  MayRead i l (guarded m) = (held i l m ≡ true) ⊎ Alone i l
  MayRead i l frozen = Unit
  MayRead i l (private t) = (i ≡ t) ⊎ Alone i l

  abbrev pub MayWrite : ℕ → L → Policy → Type 0
  MayWrite i l (guarded m) = (held i l m ≡ true) ⊎ Alone i l
  MayWrite i l frozen = Alone i l
  MayWrite i l (private t) = (i ≡ t) ⊎ Alone i l

module _ {D L : Type 0} (held absent : ℕ → L → ℕ → Bool) (policy : ℕ → Policy) where
  abbrev pub Respects : ℕ → L → Act D L → Type 0
  Respects i l (read x k) = MayRead held absent i l (policy x)
  Respects i l (write x f l') = MayWrite held absent i l (policy x)
  Respects i l _ = Unit

-- The annotations of a program, and that its code keeps to them.
pub record Discipline {D L : Type 0} (code : ℕ → L → Act D L) (begin : L) : Type 0 where
  pub fits : ℕ → L → Bool
  pub held : ℕ → L → ℕ → Bool
  pub absent : ℕ → L → ℕ → Bool
  pub policy : ℕ → Policy
  pub stays : (i : ℕ) (l : L) → fits i l ≡ true → Stays fits i (code i l)
  pub locks : (i : ℕ) (l : L) → fits i l ≡ true → Locks held i l (code i l)
  pub tracks : (i : ℕ) (l : L) → fits i l ≡ true → Tracks absent i l (code i l)
  pub respects : (i : ℕ) (l : L) → fits i l ≡ true → Respects held absent policy i l (code i l)
  pub only_main : (i : ℕ) (l : L) (k : ℕ) → i ≢ 0 → absent i l k ≡ false
  pub starts : fits 0 begin ≡ true
  pub free : (m : ℕ) → held 0 begin m ≡ false
  pub present : absent 0 begin 0 ≡ false

module _ {D L : Type 0} (code : ℕ → L → Act D L) (begin : L) (p : Discipline code begin) where
  open p use {fits, stays, held, absent, policy, locks, tracks, respects, only_main, free, present}

  -- What every run keeps.
  pub record Sound (w : World D L) : Type 0 where
    pub placed : Placed fits w
    pub own : Owned held w
    pub track : Tracked absent w

  fits_of_running :
      (w : World D L) → Placed fits w → (i : ℕ) (l : L) → w.thread i ≡ running l → fits i l ≡ true
  fits_of_running w h i l e = rw e at (h i)

  pub step-Sound : (e : Event) (w : World D L) → Sound w → Sound (step code e w)
  step-Sound e w s = record {
    placed = step-Placed fits code stays e w s.placed;
    own = step-Owned held code e w (λ i l h. locks i l (fits_of_running w s.placed i l h)) s.own;
    track =
        step-Tracked absent only_main code e w
          (λ i l h. tracks i l (fits_of_running w s.placed i l h)) s.track;
  }

  pub boot-Sound : (d : D) (sems : ℕ → ℕ) → Sound (boot d sems begin)
  boot-Sound d sems = record {
    placed = boot-Placed fits d sems begin p.starts;
    own = boot-Owned held d sems begin free;
    track = boot-Tracked absent d sems begin present;
  }

  pub run-Sound : (d : D) (sems : ℕ → ℕ) (es : List Event) → Sound (run code es (boot d sems begin))
  run-Sound d sems es = run_inv code Sound step-Sound es (boot d sems begin) (boot-Sound d sems)

  module _ (w : World D L) (sound : Sound w) where
    Alone-clash :
        (i j : ℕ) (l l' : L)
        → i ≢ j
        → w.thread i ≡ running l
        → w.thread j ≡ running l'
        → Alone held absent i l
        → ⊥
    Alone-clash i j l l' ne e e' a = ground (arith, a j (λ h. ne (sym h)), sound.track i j)

    MayRead-clash :
        (i j : ℕ) (l l' : L)
        → i ≢ j
        → w.thread i ≡ running l
        → w.thread j ≡ running l'
        → (q : Policy) → MayRead held absent i l q
        → MayWrite held absent j l' q
        → ⊥
    MayRead-clash i j l l' ne e e' (guarded m) (inl a) (inl b) =
        ne (exclusive held w sound.own i j m (rw e a) (rw e' b))
    MayRead-clash i j l l' ne e e' (private t) (inl a) (inl b) = ne (a ∙ sym b)
    MayRead-clash i j l l' ne e e' (guarded m) (inr a) b = Alone-clash i j l l' ne e e' a
    MayRead-clash i j l l' ne e e' (private t) (inr a) b = Alone-clash i j l l' ne e e' a
    MayRead-clash i j l l' ne e e' (guarded m) (inl a) (inr b) =
        Alone-clash j i l' l (λ h. ne (sym h)) e' e b
    MayRead-clash i j l l' ne e e' (private t) (inl a) (inr b) =
        Alone-clash j i l' l (λ h. ne (sym h)) e' e b
    MayRead-clash i j l l' ne e e' frozen a b = Alone-clash j i l' l (λ h. ne (sym h)) e' e b

  MayRead-of_MayWrite :
      (i : ℕ) (l : L) (q : Policy) → MayWrite held absent i l q → MayRead held absent i l q
  MayRead-of_MayWrite i l (guarded m) h = h
  MayRead-of_MayWrite i l frozen h = tt
  MayRead-of_MayWrite i l (private t) h = h

  MayRead-of_touches :
      (i x : ℕ) (l : L) (a : Act D L)
      → Respects held absent policy i l a
      → touches a x ≡ true
      → MayRead held absent i l (policy x)
  MayRead-of_touches i x l (read y k) h e = rw (← eq_of_== y x e) h
  MayRead-of_touches i x l (write y f l') h e =
      rw (← eq_of_== y x e) (MayRead-of_MayWrite i l (policy y) h)
  MayRead-of_touches i x l _ h e = cc

  MayWrite-of_alters :
      (i x : ℕ) (l : L) (a : Act D L)
      → Respects held absent policy i l a
      → alters a x ≡ true
      → MayWrite held absent i l (policy x)
  MayWrite-of_alters i x l (write y f l') h e = rw (← eq_of_== y x e) h
  MayWrite-of_alters i x l _ h e = cc

  Reader : ℕ → ℕ → Status L → Type 0
  Reader i x s = (l : L) × (s ≡ running l) × MayRead held absent i l (policy x)

  Writer : ℕ → ℕ → Status L → Type 0
  Writer i x s = (l : L) × (s ≡ running l) × MayWrite held absent i l (policy x)

  pending-Reader :
      (i x : ℕ) (s : Status L)
      → fitting fits i s ≡ true
      → touches (pending code i s) x ≡ true
      → Reader i x s
  unfolding Reader
  pending-Reader i x (running l) f h =
      (l, refl, MayRead-of_touches i x l (code i l) (respects i l f) h)
  pending-Reader i x _ f h = cc

  pending-Writer :
      (i x : ℕ) (s : Status L)
      → fitting fits i s ≡ true
      → alters (pending code i s) x ≡ true
      → Writer i x s
  unfolding Writer
  pending-Writer i x (running l) f h =
      (l, refl, MayWrite-of_alters i x l (code i l) (respects i l f) h)
  pending-Writer i x _ f h = cc

  not-DataRace : (w : World D L) → Sound w → ¬ DataRace code w
  unfolding Reader Writer
  not-DataRace w s r =
      let (l, e, a) =
        pending-Reader r.first r.variable (w.thread r.first) (s.placed r.first) r.reached in
      let (l', e', b) =
        pending-Writer r.second r.variable (w.thread r.second) (s.placed r.second) r.altered in
      MayRead-clash w s r.first r.second l l' r.distinct e e' (policy r.variable) a b

  -- A disciplined program has no data race in any run.
  pub race_free :
      (d : D) (sems : ℕ → ℕ) (es : List Event) → ¬ DataRace code (run code es (boot d sems begin))
  race_free d sems es = not-DataRace (run code es (boot d sems begin)) (run-Sound d sems es)
