-- ===== src/Address/Digits.antt =====
-- Numbers and their digits, for the two loops of lib/address.ts.
use mathlib.Core.List.{reverse-cons}
use grc_explorer.Common.{
  ℕ, zero, suc, ◌+◌, ◌*◌, ◌/◌, ◌%◌, ◌≤◌, ◌<◌, ◌≡◌, refl, ap, ◌∙◌, List, [], ◌∷◌, ◌++◌, reverse,
  ◌==◌, All, arith, Bool-cases, inl, inr, false,
}
use grc_explorer.Address.{digits, value_from}

-- What the digits stand for, the lowest first.
unfoldable pub value : ℕ → List ℕ → ℕ
value base [] = 0
value base (d ∷ ds) = d + base * value base ds

value_from-snoc :
    (base n : ℕ) (ds : List ℕ) (d : ℕ)
    → value_from base n (ds ++ d ∷ []) ≡ value_from base n ds * base + d
unfolding value_from
value_from-snoc base n [] d = refl
value_from-snoc base n (e ∷ ds) d = value_from-snoc base (n * base + e) ds d

pub value_from-reverse : (base : ℕ) (ds : List ℕ) → value_from base 0 (reverse ds) ≡ value base ds
unfolding value value_from
value_from-reverse base [] = refl
value_from-reverse base (d ∷ ds) =
    ap (value_from base 0) (reverse-cons d ds)
    ∙ value_from-snoc base 0 (reverse ds) d
    ∙ ap (λ v. v * base + d) (value_from-reverse base ds)
    ∙ grind arith

-- What division by a base does.
pub record IsBase (base : ℕ) : Type 0 where
  pub split : (n : ℕ) → n % base + base * (n / base) ≡ n
  pub below : (n : ℕ) → n % base < base
  pub rem : (d v : ℕ) → d < base → (d + base * v) % base ≡ d
  pub quot : (d v : ℕ) → d < base → (d + base * v) / base ≡ v
  pub less : (n : ℕ) → 0 < n → n / base < n
  pub grow : (v : ℕ) → v ≤ base * v

pub IsBase_58 : IsBase 58
IsBase_58 = record {
  split = λ n. omega arith;
  below = λ n. omega arith;
  rem = λ d v h. omega arith;
  quot = λ d v h. omega arith;
  less = λ n h. omega arith;
  grow = λ v. omega arith;
}

pub IsBase_256 : IsBase 256
IsBase_256 = record {
  split = λ n. omega arith;
  below = λ n. omega arith;
  rem = λ d v h. omega arith;
  quot = λ d v h. omega arith;
  less = λ n h. omega arith;
  grow = λ v. omega arith;
}

module _ (base : ℕ) (b : IsBase base) where
  pub value-digits : (fuel n : ℕ) → n ≤ fuel → value base (digits base fuel n) ≡ n
  unfolding value digits
  value-digits zero n h = omega arith
  value-digits (suc fuel) n h = elim (Bool-cases (n == 0)) [
    | inl z ↦ rw z (ground arith)
    | inr nz ↦
        let pos : 0 < n = ground arith in
        let less = b.less n pos in rw (nz, value-digits fuel (n / base) (omega arith)) (b.split n)
  ]

  pub digits-below : (fuel n : ℕ) → All (λ d. d < base) (digits base fuel n)
  unfolding digits
  digits-below zero n = tt
  digits-below (suc fuel) n = elim (Bool-cases (n == 0)) [
    | inl z ↦ rw z tt
    | inr nz ↦ rw nz (b.below n, digits-below fuel (n / base))
  ]

  pub digits-zero : (fuel : ℕ) → digits base fuel 0 ≡ []
  unfolding digits
  digits-zero zero = refl
  digits-zero (suc fuel) = refl

  -- The highest digit is not 0.
  pub digits-last :
      (fuel n : ℕ)
      → 0 < n
      → n ≤ fuel
      → (ds : List ℕ) × (h : ℕ) × (digits base fuel n ≡ ds ++ h ∷ []) × (0 < h)
  unfolding digits
  digits-last zero n pos le = absurd (omega arith)
  digits-last (suc fuel) n pos le =
      let nz : (n == 0) ≡ false = ground arith in
      let less = b.less n pos in
      let split = b.split n in
      elim (Bool-cases (n / base == 0)) [
        | inl z ↦
            let q : n / base ≡ 0 = ground arith in
            let none_left : base * (n / base) ≡ 0 = rw q (grind arith) in
            ([], n % base, rw (nz, q) (ap (λ l. (n % base) ∷ l) (digits-zero fuel)), omega arith)
        | inr nzq ↦
            let (ds, h, e, ph) = digits-last fuel (n / base) (ground arith) (omega arith) in
            ((n % base) ∷ ds, h, rw nz (ap (λ l. (n % base) ∷ l) e), ph)
      ]

  -- No digit of the number, taken alone or with those above it, is 0 at the top.
  abbrev pub IsNormal : List ℕ → Type 0
  IsNormal [] = Unit
  IsNormal (d ∷ ds) = (0 < value base (d ∷ ds)) × IsNormal ds

  pub digits-value :
      (ds : List ℕ) (fuel : ℕ)
      → IsNormal ds
      → All (λ d. d < base) ds
      → value base ds ≤ fuel
      → digits base fuel (value base ds) ≡ ds
  unfolding value digits
  digits-value [] zero h a le = refl
  digits-value [] (suc fuel) h a le = refl
  digits-value (d ∷ ds) zero (h, hs) (a, rest) le = absurd (omega arith)
  digits-value (d ∷ ds) (suc fuel) (h, hs) (a, rest) le =
      let nz : (d + base * value base ds == 0) ≡ false = ground arith in
      let less = b.less (d + base * value base ds) h in
      let q = b.quot d (value base ds) a in
      rw (nz, b.rem d (value base ds) a, q)
        (ap (λ l. d ∷ l) (digits-value ds fuel hs rest (omega arith)))

  value-snoc-pos : (ds : List ℕ) (h : ℕ) → 0 < h → 0 < value base (ds ++ h ∷ [])
  unfolding value
  value-snoc-pos [] h p = omega arith
  value-snoc-pos (d ∷ ds) h p =
      let rest = value-snoc-pos ds h p in
      let grow = b.grow (value base (ds ++ h ∷ [])) in omega arith

  pub snoc-IsNormal : (ds : List ℕ) (h : ℕ) → 0 < h → IsNormal (ds ++ h ∷ [])
  snoc-IsNormal [] h p = (value-snoc-pos [] h p, tt)
  snoc-IsNormal (d ∷ ds) h p = (value-snoc-pos (d ∷ ds) h p, snoc-IsNormal ds h p)
