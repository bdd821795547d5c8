-- ===== src/HotPlate/Loops.antt =====
-- A loop whose turns each concern another entry, seen from one entry.
use pthread_benchmark.Prelude.{
  ℕ, zero, suc, ◌+◌, ◌≡◌, Bool, ◌&&◌, ◌==◌, leb, ltb, if◌then◌else◌, arith,
}
use pthread_benchmark.HotPlate.{for_from}

abbrev pub in_range : ℕ → ℕ → ℕ → Bool
in_range start count t = leb start t && ltb t (start + count)

-- `see` is the entry, `t` the turn that may concern it, `b` whether it does, and `change` what it does
-- then; `R` is what all turns keep.
module _ {ℓ κ} {S : Type ℓ} {A : Type κ} (see : S → A) (t : ℕ) (b : Bool) (change : A → A)
    (R : S → Type 0) (body : ℕ → S → S) (keeps : (k : ℕ) (s : S) → R s → R (body k s))
    (turn : (k : ℕ) (s : S)
      → R s
      → see (body k s) ≡ (if k == t && b then change (see s) else see s)) where
  pub for_from-keeps : (start count : ℕ) (s : S) → R s → R (for_from start count body s)
  unfolding for_from
  for_from-keeps start zero s r = r
  for_from-keeps start (suc count) s r =
      for_from-keeps (start + 1) count (body start s) (keeps start s r)

  pub for_from-once :
      (start count : ℕ) (s : S)
      → R s
      → see (for_from start count body s)
        ≡ (if in_range start count t && b then change (see s) else see s)
  unfolding for_from
  for_from-once start zero s r = ground arith
  for_from-once start (suc count) s r =
      ground
        (arith, for_from-once (start + 1) count (body start s) (keeps start s r), turn start s r)
