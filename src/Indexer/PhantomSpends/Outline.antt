-- ===== src/Indexer/PhantomSpends/Outline.antt =====
-- What PhantomSpendDetector.ts leaves as it is: the blocks' rows and the addresses of their deltas.
use grc_explorer.Common.{
  ◌≡◌, refl, sym, ap, ◌∙◌, subst, Bool, true, not, ◌&&◌, ◌||◌, List, [], ◌∷◌, ◌++◌, map, String,
  str_eq, if◌then◌else◌, All, Bool-cases, Option-cases, inl, inr,
}
use grc_explorer.Common.Int.{ℤ, pos, ltb_ℤ}
use grc_explorer.Parsed.{BlockRow, TxInput, AddressDelta, ParsedBlock}
use grc_explorer.Indexer.PhantomSpends.{
  Key, key_of, is_phantom, credit_at, credit_entry, credit, value_of, mark_inputs, mark_blocks,
  mark_phantom_spends,
}

abbrev pub addresses : List AddressDelta → List String
addresses es = map (λ e. e.address) es

credit_at-addresses :
    (a : String) (v : ℤ) (es : List AddressDelta) → addresses (credit_at a v es) ≡ addresses es
unfolding credit_at credit_entry
credit_at-addresses a v [] = refl
credit_at-addresses a v (e ∷ es) = elim (Bool-cases (str_eq e.address a)) [
  | inl on ↦ rw on
  | inr off ↦ rw off (ap (λ l. e.address ∷ l) (credit_at-addresses a v es))
]

credit-addresses : (i : TxInput) (es : List AddressDelta) → addresses (credit i es) ≡ addresses es
unfolding credit
credit-addresses i es = elim (Option-cases i.address) [
  | inl e ↦ rw e
  | inr (b, e) ↦ elim (Bool-cases (not (str_eq b "") && ltb_ℤ (pos 0) (value_of i))) [
    | inl y ↦ rw (e, y) (credit_at-addresses b (value_of i) es)
    | inr n ↦ rw (e, n)
  ]
]

mark_inputs-addresses :
    (stored is : List TxInput) (es : List AddressDelta) (claimed : List Key)
    → addresses (mark_inputs stored is es claimed).1 ≡ addresses es
unfolding mark_inputs
mark_inputs-addresses stored [] es claimed = refl
mark_inputs-addresses stored (i ∷ is) es claimed =
    let skip = str_eq i.prev_tx "" in
    let phantom = not skip && is_phantom stored claimed i in
    mark_inputs-addresses stored is _ (if skip || phantom then claimed else key_of i ∷ claimed)
    ∙ elim (Bool-cases phantom) [
      | inl y ↦ ap (λ b. addresses (if b then credit i es else es)) y ∙ credit-addresses i es
      | inr n ↦ ap (λ b. addresses (if b then credit i es else es)) n
    ]

-- The primary key of an input's row.
abbrev pub pk_of : TxInput → Key
pk_of i = (i.tx_id, i.vin_n)

mark_inputs-pk_of :
    (stored is : List TxInput) (es : List AddressDelta) (claimed : List Key)
    → map pk_of (mark_inputs stored is es claimed).0 ≡ map pk_of is
unfolding mark_inputs
mark_inputs-pk_of stored [] es claimed = refl
mark_inputs-pk_of stored (i ∷ is) es claimed =
    let skip = str_eq i.prev_tx "" in
    let phantom = not skip && is_phantom stored claimed i in
    let es' = if phantom then credit i es else es in
    let claimed' = if skip || phantom then claimed else key_of i ∷ claimed in
    let here : Bool → Key = λ b. pk_of (if b then record i { is_phantom_spend = true } else i) in
    let same : here phantom ≡ pk_of i = elim (Bool-cases phantom) [
      | inl y ↦ ap here y
      | inr n ↦ ap here n
    ] in
    ap (λ k. k ∷ map pk_of (mark_inputs stored is es' claimed').0) same
    ∙ ap (λ l. pk_of i ∷ l) (mark_inputs-pk_of stored is es' claimed')

-- The primary keys of the inputs of a batch.
unfoldable pub input_keys : List ParsedBlock → List Key
input_keys [] = []
input_keys (b ∷ bs) = map pk_of b.tx_inputs ++ input_keys bs

mark_blocks-input_keys :
    (stored : List TxInput) (bs : List ParsedBlock) (claimed : List Key)
    → input_keys (mark_blocks stored bs claimed) ≡ input_keys bs
unfolding mark_blocks input_keys
mark_blocks-input_keys stored [] claimed = refl
mark_blocks-input_keys stored (b ∷ bs) claimed =
    let later = (mark_inputs stored b.tx_inputs b.address_deltas claimed).2 in
    ap (λ l. l ++ input_keys (mark_blocks stored bs later))
      (mark_inputs-pk_of stored b.tx_inputs b.address_deltas claimed)
    ∙ ap (λ l. map pk_of b.tx_inputs ++ l) (mark_blocks-input_keys stored bs later)

pub mark_phantom_spends-input_keys :
    (stored : List TxInput) (bs : List ParsedBlock)
    → input_keys (mark_phantom_spends stored bs) ≡ input_keys bs
unfolding mark_phantom_spends
mark_phantom_spends-input_keys stored bs = mark_blocks-input_keys stored bs []

module _ (stored : List TxInput) where
  module _ (P : BlockRow → List String → Type 0) where
    mark_blocks-All :
        (ps : List ParsedBlock) (claimed : List Key)
        → All (λ p. P p.block (addresses p.address_deltas)) ps
        → All (λ p. P p.block (addresses p.address_deltas)) (mark_blocks stored ps claimed)
    unfolding mark_blocks
    mark_blocks-All [] claimed h = tt
    mark_blocks-All (p ∷ ps) claimed (g, h) =
        let e = mark_inputs-addresses stored p.tx_inputs p.address_deltas claimed in
        (subst (P p.block) (sym e) g, mark_blocks-All ps _ h)

    -- What holds of each block's row and addresses holds after the marking.
    pub mark_phantom_spends-All :
        (ps : List ParsedBlock)
        → All (λ p. P p.block (addresses p.address_deltas)) ps
        → All (λ p. P p.block (addresses p.address_deltas)) (mark_phantom_spends stored ps)
    unfolding mark_phantom_spends
    mark_phantom_spends-All ps h = mark_blocks-All ps [] h

  mark_blocks-block :
      (ps : List ParsedBlock) (claimed : List Key)
      → map (λ (p : ParsedBlock). p.block) (mark_blocks stored ps claimed)
        ≡ map (λ (p : ParsedBlock). p.block) ps
  unfolding mark_blocks
  mark_blocks-block [] claimed = refl
  mark_blocks-block (p ∷ ps) claimed = ap (λ l. p.block ∷ l) (mark_blocks-block ps _)

  pub mark_phantom_spends-block :
      (ps : List ParsedBlock)
      → map (λ (p : ParsedBlock). p.block) (mark_phantom_spends stored ps)
        ≡ map (λ (p : ParsedBlock). p.block) ps
  unfolding mark_phantom_spends
  mark_phantom_spends-block ps = mark_blocks-block ps []
