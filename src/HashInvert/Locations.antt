-- ===== src/HashInvert/Locations.antt =====
-- setLocation, resetLocation, checkLocation, setM and resetM as operations on a table of bits.
use Prim.Native.Nat.{bit_and, bit_or}
use native.Mathlib.Nat.{mod-lt, mod_def, mul-div-le}
use pthread_benchmark.Prelude.{
  ℕ, zero, suc, ◌-◌, ◌*◌, ◌/◌, ◌%◌, ◌^◌, ◌<◌, ◌≡◌, ◌≢◌, refl, ap, Bool, true, false, not, ◌&&◌,
  ◌||◌, ◌==◌, ltb, if◌then◌else◌, arith, Bool-cases, inl, inr, eq_of_==, ne_of_==,
}
use pthread_benchmark.HashInvert.{
  Words, check_location, set_location, reset_location, set_m, reset_m, inverted,
}
use pthread_benchmark.HashInvert.Bits.{
  bit, bit-lt, bit-zero, bit-bit_and, bit-bit_or, bit-pow, eq_zero_of_bits, bit-inverted,
}

-- One bit of a word, as checkLocation tests it.
test : ℕ → ℕ → Bool
test w o = if bit_and w (2 ^ o) == 0 then false else true

masked : (w o p : ℕ) → bit p (bit_and w (2 ^ o)) ≡ (if p == o then bit o w else 0)
masked w o p = elim (Bool-cases (p == o)) [
  | inl e ↦ ground (arith, bit-bit_and p w (2 ^ o), bit-pow p o, bit-lt p w, bit-lt o w)
  | inr e ↦ ground (arith, bit-bit_and p w (2 ^ o), bit-pow p o)
]

test-bit : (w o : ℕ) → test w o ≡ (bit o w == 1)
unfolding test
test-bit w o = elim (Bool-cases (bit o w == 1)) [
  | inl one ↦ rw one (elim (Bool-cases (bit_and w (2 ^ o) == 0)) [
    | inl gone ↦
        absurd (
          ground
            (arith, masked w o o, ap (bit o) (eq_of_== (bit_and w (2 ^ o)) 0 gone), bit-zero o))
    | inr there ↦ rw there refl
  ])
  | inr none ↦
      rw (none, eq_zero_of_bits (bit_and w (2 ^ o)) (λ p. ground (arith, masked w o p, bit-lt o w)))
        refl
]

-- The words that the three functions write.
bit-set : (w o p : ℕ) → bit p (bit_or w (2 ^ o)) ≡ (if p == o then 1 else bit p w)
bit-set w o p = elim (Bool-cases (p == o)) [
  | inl e ↦ ground (arith, bit-bit_or p w (2 ^ o), bit-pow p o, bit-lt p w)
  | inr e ↦ ground (arith, bit-bit_or p w (2 ^ o), bit-pow p o)
]

pow_pos : (n : ℕ) → 0 < 2 ^ n
pow_pos zero = omega arith
pow_pos (suc n) = omega (arith, pow_pos n)

pow_lt : (o n : ℕ) → o < n → 2 ^ o < 2 ^ n
pow_lt o zero lt = absurd (omega arith)
pow_lt zero (suc n) lt = omega (arith, pow_pos n)
pow_lt (suc o) (suc n) lt = omega (arith, pow_lt o n (omega arith))

bit-reset :
    (n w o p : ℕ)
    → o < n
    → p < n
    → bit p (bit_and w (inverted n (2 ^ o))) ≡ (if p == o then 0 else bit p w)
unfolding inverted
bit-reset n w o p lt lt' =
    let inv = bit-inverted n p (2 ^ o) lt' (pow_lt o n lt) in
    let both = bit-bit_and p w (2 ^ n - 1 - 2 ^ o) in
    elim (Bool-cases (p == o)) [
      | inl e ↦ ground (arith, inv, both, bit-pow p o)
      | inr e ↦ ground (arith, inv, both, bit-pow p o, bit-lt p w)
    ]

-- Every word of a table is a number of `num_bits` digits.
module _ (num_bits : ℕ) (pos_ : 0 < num_bits) where
  same_place : (u v : ℕ) → u / num_bits ≡ v / num_bits → u % num_bits ≡ v % num_bits → u ≡ v
  same_place u v e e' = omega (
    arith,
    mod_def u num_bits,
    mod_def v num_bits,
    mul-div-le u num_bits,
    mul-div-le v num_bits,
    ap (λ (t : ℕ). num_bits * t) e,
  )

  check_bit :
      (u : ℕ) (m : Words)
      → check_location num_bits u m ≡ (bit (u % num_bits) (m (u / num_bits)) == 1)
  unfolding check_location test
  check_bit u m = test-bit (m (u / num_bits)) (u % num_bits)

  -- A write of bit `x` at `v` alone.
  record Puts (v x : ℕ) (m n : Words) : Type 0 where
    away : (i : ℕ) → i ≢ v / num_bits → n i ≡ m i
    here :
        (p : ℕ)
        → p < num_bits
        → bit p (n (v / num_bits)) ≡ (if p == v % num_bits then x else bit p (m (v / num_bits)))

  Puts-check :
      (v x : ℕ) (m n : Words)
      → Puts v x m n
      → (u : ℕ)
      → check_location num_bits u n ≡ (if u == v then x == 1 else check_location num_bits u m)
  Puts-check v x m n w u = elim (Bool-cases (u == v)) [
    | inl same ↦
        let e = eq_of_== u v same in
        rw (same, check_bit u n, e, w.here (v % num_bits) (mod-lt v pos_)) (ground arith)
    | inr differ ↦
        rw (differ, check_bit u n, check_bit u m)
          (ap (λ b. b == 1)
            (elim (Bool-cases (u / num_bits == v / num_bits)) [
              | inl word ↦
                  let e = eq_of_== (u / num_bits) (v / num_bits) word in
                  elim (Bool-cases (u % num_bits == v % num_bits)) [
                    | inl place ↦ absurd (
                        ne_of_== u v differ
                          (same_place u v e (eq_of_== (u % num_bits) (v % num_bits) place)))
                    | inr place ↦ rw (e, w.here (u % num_bits) (mod-lt u pos_), place) refl
                  ]
              | inr word ↦
                  ap (bit (u % num_bits))
                    (w.away (u / num_bits) (ne_of_== (u / num_bits) (v / num_bits) word))
            ]))
  ]

  set-Puts : (v : ℕ) (m : Words) → Puts v 1 m (set_location num_bits v m)
  unfolding set_location
  set-Puts v m = record {
    away = λ i ne. ground arith;
    here = λ p lt. ground (arith, bit-set (m (v / num_bits)) (v % num_bits) p);
  }

  reset-Puts : (v : ℕ) (m : Words) → Puts v 0 m (reset_location num_bits v m)
  unfolding reset_location
  reset-Puts v m = record {
    away = λ i ne. ground arith;
    here = λ p lt.
        ground (arith, bit-reset num_bits (m (v / num_bits)) (v % num_bits) p (mod-lt v pos_) lt);
  }

  set_m-word :
      (size i : ℕ) (m : Words)
      → set_m num_bits size m i ≡ (if ltb i size then bit_or (m i) (inverted num_bits 0) else m i)
  unfolding set_m
  set_m-word zero i m = ground arith
  set_m-word (suc n) i m = ground (arith, set_m-word n i m)

  reset_m-word :
      (size i : ℕ) (m : Words) → reset_m num_bits size m i ≡ (if ltb i size then 0 else m i)
  unfolding reset_m
  reset_m-word zero i m = ground arith
  reset_m-word (suc n) i m = ground (arith, reset_m-word n i m)

  all_ones : (w p : ℕ) → p < num_bits → bit p (bit_or w (inverted num_bits 0)) ≡ 1
  unfolding inverted
  all_ones w p lt = ground (
    arith,
    bit-bit_or p w (2 ^ num_bits - 1 - 0),
    bit-inverted num_bits p 0 lt (pow_pos num_bits),
    bit-zero p,
    bit-lt p w,
  )

  check-set_m :
      (u size : ℕ) (m : Words)
      → check_location num_bits u (set_m num_bits size m)
        ≡ (ltb (u / num_bits) size || check_location num_bits u m)
  check-set_m u size m = elim (Bool-cases (ltb (u / num_bits) size)) [
    | inl in_ ↦
        rw
          (
            check_bit u (set_m num_bits size m),
            set_m-word size (u / num_bits) m,
            in_,
            all_ones (m (u / num_bits)) (u % num_bits) (mod-lt u pos_),
          )
          refl
    | inr out ↦
        rw
          (
            check_bit u (set_m num_bits size m),
            check_bit u m,
            set_m-word size (u / num_bits) m,
            out,
          )
          refl
  ]

  check-reset_m :
      (u size : ℕ) (m : Words)
      → check_location num_bits u (reset_m num_bits size m)
        ≡ (not (ltb (u / num_bits) size) && check_location num_bits u m)
  check-reset_m u size m = elim (Bool-cases (ltb (u / num_bits) size)) [
    | inl in_ ↦
        rw
          (
            check_bit u (reset_m num_bits size m),
            reset_m-word size (u / num_bits) m,
            in_,
            bit-zero (u % num_bits),
          )
          refl
    | inr out ↦
        rw
          (
            check_bit u (reset_m num_bits size m),
            check_bit u m,
            reset_m-word size (u / num_bits) m,
            out,
          )
          refl
  ]

  -- For words of any positive number of bits, any table and locations u and v: checkLocation finds
  -- u after setLocation of v if u is v or was found before, after resetLocation of v if u is not v
  -- and was found before, after setM if its word is among the first ones or it was found before,
  -- and after resetM if its word is not among them and it was found before.
  pub check-writes :
      (u v size : ℕ) (m : Words)
      → (check_location num_bits u (set_location num_bits v m)
          ≡ ((u == v) || check_location num_bits u m))
        × (check_location num_bits u (reset_location num_bits v m)
            ≡ (not (u == v) && check_location num_bits u m))
        × (check_location num_bits u (set_m num_bits size m)
            ≡ (ltb (u / num_bits) size || check_location num_bits u m))
        × (check_location num_bits u (reset_m num_bits size m)
            ≡ (not (ltb (u / num_bits) size) && check_location num_bits u m))
  check-writes u v size m = (
    ground (arith, Puts-check v 1 m (set_location num_bits v m) (set-Puts v m) u),
    ground (arith, Puts-check v 0 m (reset_location num_bits v m) (reset-Puts v m) u),
    check-set_m u size m,
    check-reset_m u size m,
  )
