-- ===== src/Indexer/PhantomSpends/Claimed.antt =====
-- The stored claims of PhantomSpendDetector.ts, and lists of inputs with different outpoints.
use mathlib.Core.List.Memᴰ
use grc_explorer.Common.{
  ◌≡◌, sym, ap, ◌∙◌, subst, Bool, true, false, not, ◌&&◌, Option, none, some, List, [], ◌∷◌, ◌++◌,
  str_eq_iff, str_eq_refl, if◌then◌else◌, any, keep, keep-true, keep-false, Memᴰ, All-Memᴰ, arith,
  Bool-cases, Option-cases, inl, inr, false-ne-true,
}
use grc_explorer.Parsed.{TxInput}
use grc_explorer.Indexer.PhantomSpends.{Key, key_of, key_eq, claimed_by, is_other}
use grc_explorer.Indexer.PhantomSpends.Claims.{AreDistinct}

unfoldable pub or_else {ℓ} : {A : Type ℓ} → Option A → Option A → Option A
or_else none o = o
or_else (some x) o = some x

pub claimed_by-append :
    (s t : List TxInput) (k : Key)
    → claimed_by (s ++ t) k ≡ or_else (claimed_by t k) (claimed_by s k)
unfolding claimed_by or_else
claimed_by-append [] t k = elim (Option-cases (claimed_by t k)) [ inl e ↦ rw e | inr (r, e) ↦ rw e ]
claimed_by-append (x ∷ s) t k = elim (Option-cases (claimed_by t k)) [
  | inl e ↦ rw (claimed_by-append s t k, e)
  | inr (r, e) ↦ rw (claimed_by-append s t k, e)
]

-- What a stored claim is.
pub claimed_by-some :
    (s : List TxInput) (k : Key) (r : TxInput)
    → claimed_by s k ≡ some r
    → Memᴰ r s × (r.is_phantom_spend ≡ false) × (key_eq (key_of r) k ≡ true)
unfolding claimed_by
claimed_by-some [] k r h = absurd cc
claimed_by-some (x ∷ s) k r h = elim (Option-cases (claimed_by s k)) [
  | inr (y, e) ↦
      let f : Option TxInput → Option TxInput = λ o. elim o [
        | some later ↦ some later
        | none ↦ if not x.is_phantom_spend && key_eq (key_of x) k then some x else none
      ] in
      let same : some y ≡ some r = sym (ap f e) ∙ h in
      let (m, p, q) = claimed_by-some s k r (e ∙ same) in (Memᴰ.tail m, p, q)
  | inl e ↦
      let f : Option TxInput → Option TxInput = λ o. elim o [
        | some later ↦ some later
        | none ↦ if not x.is_phantom_spend && key_eq (key_of x) k then some x else none
      ] in
      let g : (if not x.is_phantom_spend && key_eq (key_of x) k then some x else none) ≡ some r =
        sym (ap f e) ∙ h in
      elim (Bool-cases (not x.is_phantom_spend && key_eq (key_of x) k)) [
        | inl on ↦
            let pick : Bool → Option TxInput = λ b. if b then some x else none in
            let eq : some x ≡ some r = sym (ap pick on) ∙ g in
            let xr : x ≡ r = cc in
            (
              Memᴰ.head (sym xr),
              subst (λ (z : TxInput). z.is_phantom_spend ≡ false) xr (ground arith),
              subst (λ z. key_eq (key_of z) k ≡ true) xr (ground arith),
            )
        | inr off ↦
            let pick : Bool → Option TxInput = λ b. if b then some x else none in
            let eq : none ≡ some r = sym (ap pick off) ∙ g in absurd cc
      ]
]

pub keep-Memᴰ {ℓ} :
    {A : Type ℓ} (p : A → Bool) (x : A) (xs : List A)
    → Memᴰ x (keep p xs)
    → Memᴰ x xs × (p x ≡ true)
keep-Memᴰ p x [] m = absurd (Memᴰ.not-nil m)
keep-Memᴰ p x (y ∷ ys) m = elim (Bool-cases (p y)) [
  | inl on ↦ elim (Memᴰ.cases_cons (subst (Memᴰ x) (keep-true p y ys on) m)) [
    | inl e ↦ (Memᴰ.head e, ap p e ∙ on)
    | inr t ↦ let (a, b) = keep-Memᴰ p x ys t in (Memᴰ.tail a, b)
  ]
  | inr off ↦
      let (a, b) = keep-Memᴰ p x ys (subst (Memᴰ x) (keep-false p y ys off) m) in (Memᴰ.tail a, b)
]

pub any-Memᴰ {ℓ} :
    {A : Type ℓ} (p : A → Bool) (x : A) (xs : List A) → Memᴰ x xs → p x ≡ true → any p xs ≡ true
any-Memᴰ p x [] m h = elim m [ ]
any-Memᴰ p x (y ∷ ys) (Memᴰ.head e) h = let hy : p y ≡ true = ap p (sym e) ∙ h in ground arith
any-Memᴰ p x (y ∷ ys) (Memᴰ.tail m) h = ground (arith, any-Memᴰ p x ys m h)

pub AreDistinct-Memᴰ :
    (ss : List TxInput) (x y : TxInput)
    → AreDistinct ss
    → Memᴰ x ss
    → Memᴰ y ss
    → key_eq (key_of x) (key_of y) ≡ true
    → x ≡ y
AreDistinct-Memᴰ [] x y d m n h = elim m [ ]
AreDistinct-Memᴰ (z ∷ ss) x y (d, ds) (Memᴰ.head e) (Memᴰ.head f) h = e ∙ sym f
AreDistinct-Memᴰ (z ∷ ss) x y (d, ds) (Memᴰ.head e) (Memᴰ.tail m) h =
    let n : key_eq (key_of z) (key_of y) ≡ false =
      All-Memᴰ (λ j. key_eq (key_of z) (key_of j) ≡ false) y ss d m in
    let t : key_eq (key_of z) (key_of y) ≡ true =
      subst (λ w. key_eq (key_of w) (key_of y) ≡ true) e h in
    absurd (false-ne-true (sym n ∙ t))
AreDistinct-Memᴰ (z ∷ ss) x y (d, ds) (Memᴰ.tail m) (Memᴰ.head f) h =
    let n : key_eq (key_of z) (key_of x) ≡ false =
      All-Memᴰ (λ j. key_eq (key_of z) (key_of j) ≡ false) x ss d m in
    let t : key_eq (key_of x) (key_of z) ≡ true =
      subst (λ w. key_eq (key_of x) (key_of w) ≡ true) f h in
    absurd (ground (arith, str_eq_iff x.prev_tx z.prev_tx, str_eq_iff z.prev_tx x.prev_tx))
AreDistinct-Memᴰ (z ∷ ss) x y (d, ds) (Memᴰ.tail m) (Memᴰ.tail n) h =
    AreDistinct-Memᴰ ss x y ds m n h

pub key_eq-eq : (k l : Key) → key_eq k l ≡ true → k ≡ l
key_eq-eq (t, n) (u, m) h =
    let e : t ≡ u = (str_eq_iff t u).0 (ground arith) in
    let f : n ≡ m = ground arith in λ i. (e i, f i)

pub key_eq_refl : (k : Key) → key_eq k k ≡ true
key_eq_refl (t, n) = ground (arith, str_eq_refl t)

pub is_other_self : (j : TxInput) → is_other (some j) j ≡ false
is_other_self j = ground (arith, str_eq_refl j.tx_id)
