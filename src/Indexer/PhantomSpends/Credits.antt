-- ===== src/Indexer/PhantomSpends/Credits.antt =====
-- What PhantomSpendDetector.ts gives back to the deltas of a block.
use grc_explorer.Common.{
  ◌≡◌, refl, sym, ap, ◌∙◌, Bool, true, false, not, ◌&&◌, ◌||◌, none, some, List, [], ◌∷◌, String,
  str_eq, str_eq_iff, if◌then◌else◌, arith, Bool-cases, Option-cases, inl, inr,
}
use grc_explorer.Common.Int.{ℤ, pos, ◌+ℤ◌, ltb_ℤ, +ℤ_assoc, +ℤ-zero}
use grc_explorer.Indexer.PhantomSpends.{
  TxInput, AddressDelta, Key, key_of, is_phantom, credit_entry, credit_at, credit, value_of,
  mark_inputs,
}

-- `addressDeltas.get(address)?.delta`, 0 where there is no entry.
unfoldable pub delta_at : String → List AddressDelta → ℤ
delta_at a [] = pos 0
delta_at a (e ∷ es) = if str_eq e.address a then e.delta else delta_at a es

unfoldable pub has_entry : String → List AddressDelta → Bool
has_entry a [] = false
has_entry a (e ∷ es) = str_eq e.address a || has_entry a es

-- What an input takes from the balance of an address.
pub debit_of : String → TxInput → ℤ
debit_of a i = elim i.address [
  | none ↦ pos 0
  | some b ↦
      if not (str_eq b "") && ltb_ℤ (pos 0) (value_of i) && str_eq b a then value_of i else pos 0
]

-- The debits on an address of the inputs that are newly marked, `before` being the inputs before the
-- marking and `after` those after it.
pub marked_debits : String → List Bool → List TxInput → ℤ
marked_debits a (true ∷ ms) (i ∷ is) = debit_of a i +ℤ marked_debits a ms is
marked_debits a (false ∷ ms) (i ∷ is) = marked_debits a ms is
marked_debits a _ _ = pos 0

-- Which inputs the marking finds to be phantoms.
pub phantoms : List TxInput → List TxInput → List Key → List Bool
phantoms stored [] claimed = []
phantoms stored (i ∷ is) claimed =
    let skip = str_eq i.prev_tx "" in
    let phantom = not skip && is_phantom stored claimed i in
    phantom ∷ phantoms stored is (if skip || phantom then claimed else key_of i ∷ claimed)

credit_at-delta :
    (a b : String) (value : ℤ) (es : List AddressDelta)
    → has_entry a es ≡ true
    → delta_at a (credit_at b value es) ≡ delta_at a es +ℤ (if str_eq b a then value else pos 0)
unfolding credit_at credit_entry delta_at has_entry
credit_at-delta a b value [] h = absurd (ground arith)
credit_at-delta a b value (e ∷ es) h = elim (Bool-cases (str_eq e.address b)) [
  | inl eb ↦ elim (Bool-cases (str_eq e.address a)) [
    | inl ea ↦
        let same : str_eq b a ≡ true =
          ground (arith, str_eq_iff e.address b, str_eq_iff e.address a, str_eq_iff b a) in
        rw (eb, ea, same)
    | inr ne ↦
        let other : str_eq b a ≡ false =
          ground (arith, str_eq_iff e.address b, str_eq_iff e.address a, str_eq_iff b a) in
        rw (eb, ne, other) (sym (+ℤ-zero _))
  ]
  | inr nb ↦ elim (Bool-cases (str_eq e.address a)) [
    | inl ea ↦
        let other : str_eq b a ≡ false =
          ground (arith, str_eq_iff e.address b, str_eq_iff e.address a, str_eq_iff b a) in
        rw (nb, ea, other) (sym (+ℤ-zero _))
    | inr ne ↦ rw (nb, ne) (credit_at-delta a b value es (rw ne at h))
  ]
]

credit_at-has :
    (a b : String) (value : ℤ) (es : List AddressDelta)
    → has_entry a (credit_at b value es) ≡ has_entry a es
unfolding credit_at credit_entry has_entry
credit_at-has a b value [] = refl
credit_at-has a b value (e ∷ es) = elim (Bool-cases (str_eq e.address b)) [
  | inl eb ↦ rw eb
  | inr nb ↦ rw (nb, credit_at-has a b value es)
]

credit-has :
    (a : String) (i : TxInput) (es : List AddressDelta) → has_entry a (credit i es) ≡ has_entry a es
unfolding credit
credit-has a i es = elim (Option-cases i.address) [
  | inl e ↦ rw e
  | inr (b, e) ↦ elim (Bool-cases (not (str_eq b "") && ltb_ℤ (pos 0) (value_of i))) [
    | inl y ↦ rw (e, y) (credit_at-has a b (value_of i) es)
    | inr n ↦ rw (e, n)
  ]
]

credit-delta :
    (a : String) (i : TxInput) (es : List AddressDelta)
    → has_entry a es ≡ true
    → delta_at a (credit i es) ≡ delta_at a es +ℤ debit_of a i
unfolding credit debit_of
credit-delta a i es h = elim (Option-cases i.address) [
  | inl e ↦ rw e (sym (+ℤ-zero _))
  | inr (b, e) ↦ elim (Bool-cases (not (str_eq b "") && ltb_ℤ (pos 0) (value_of i))) [
    | inl y ↦ rw (e, y) (credit_at-delta a b (value_of i) es h)
    | inr n ↦ rw (e, n) (sym (+ℤ-zero _))
  ]
]

module _ (a : String) (stored : List TxInput) where
  -- Marking the inputs of a block adds to the delta of an address that has an entry what the
  -- phantoms among them had taken from it, and nothing else.
  pub mark_inputs-delta :
      (is : List TxInput) (es : List AddressDelta) (claimed : List Key)
      → has_entry a es ≡ true
      → delta_at a (mark_inputs stored is es claimed).1
        ≡ delta_at a es +ℤ marked_debits a (phantoms stored is claimed) is
  unfolding mark_inputs phantoms marked_debits
  mark_inputs-delta [] es claimed h = sym (+ℤ-zero _)
  mark_inputs-delta (i ∷ is) es claimed h =
      let phantom = not (str_eq i.prev_tx "") && is_phantom stored claimed i in
      elim (Bool-cases phantom) [
        | inl y ↦
            let next = if str_eq i.prev_tx "" || true then claimed else key_of i ∷ claimed in
            rw y (
              mark_inputs-delta is (credit i es) next (credit-has a i es ∙ h)
              ∙ ap (λ x. x +ℤ marked_debits a (phantoms stored is next) is) (credit-delta a i es h)
              ∙ +ℤ_assoc _ _ _)
        | inr n ↦
            let next = if str_eq i.prev_tx "" || false then claimed else key_of i ∷ claimed in
            rw n (mark_inputs-delta is es next h)
      ]
