-- ===== src/Indexer/PhantomSpends/Replay.antt =====
-- Marking of PhantomSpendDetector.ts once the inputs of the batch are stored.
use mathlib.Core.List.Memᴰ
use grc_explorer.Common.{
  ◌≡◌, refl, sym, ap, ◌∙◌, subst, Bool, true, false, not, ◌&&◌, ◌||◌, some, List, [], ◌∷◌, ◌++◌,
  str_eq, if◌then◌else◌, any, keep, Memᴰ, All, All-Memᴰ, arith, Bool-cases, Option-cases, inl, inr,
  false-ne-true,
}
use grc_explorer.Parsed.{TxInput, AddressDelta, ParsedBlock}
use grc_explorer.Indexer.PhantomSpends.{
  Key, key_of, key_eq, has_key, claimed_by, is_other, is_phantom, credit, mark_inputs, mark_blocks,
  mark_phantom_spends,
}
use grc_explorer.Indexer.PhantomSpends.Spenders.{
  same_pk, batch_inputs, spenders-tail, spenders-head, batch_spenders-Memᴰ, batch_spenders_used,
}
use grc_explorer.Indexer.PhantomSpends.Claimed.{
  or_else, claimed_by-append, claimed_by-some, keep-Memᴰ, any-Memᴰ, AreDistinct-Memᴰ, key_eq-eq,
  key_eq_refl, is_other_self,
}
use grc_explorer.Indexer.PhantomSpends.Claims.{
  spenders, batch_spenders, IsFree, mark_phantom_spends-AreDistinct,
}

-- Those that are not stored.
abbrev pub new_inputs : List TxInput → List TxInput → List TxInput
new_inputs stored is = keep (λ i. not (any (λ x. same_pk x i) stored)) is

-- `part` are some of the marked inputs of the batch.
module _ (stored : List TxInput) (bs : List ParsedBlock) (part : List TxInput)
    (within : (r : TxInput)
      → Memᴰ r part
      → Memᴰ r (batch_inputs (mark_phantom_spends stored bs))) where
  abbrev out : List ParsedBlock
  out = mark_phantom_spends stored bs

  abbrev added : List TxInput
  added = new_inputs stored part

  -- A claim by an added input.
  added_claim :
      (k : Key) (r : TxInput)
      → str_eq k.0 "" ≡ false
      → claimed_by added k ≡ some r
      → Memᴰ r (batch_spenders out) × (key_of r ≡ k) × (any (λ x. same_pk x r) stored ≡ false)
  added_claim k r n h =
      let (m, real, at) = claimed_by-some added k r h in
      let e : key_of r ≡ k = key_eq-eq (key_of r) k at in
      let (there, new) = keep-Memᴰ (λ i. not (any (λ x. same_pk x i) stored)) r part m in
      let used : str_eq r.prev_tx "" ≡ false = ap (λ (l : Key). str_eq l.0 "") e ∙ n in
      (batch_spenders-Memᴰ r out (within r there) (ground arith), e, ground arith)

  free : (r : TxInput) → Memᴰ r (batch_spenders out) → IsFree stored [] r
  free r m = All-Memᴰ (IsFree stored []) r _ (mark_phantom_spends-AreDistinct stored bs).1 m

  -- What claims an outpoint among the stored inputs still does.
  claimed_still :
      (k : Key) (r : TxInput)
      → str_eq k.0 "" ≡ false
      → claimed_by stored k ≡ some r
      → claimed_by (stored ++ added) k ≡ some r
  claimed_still k r n h =
      claimed_by-append stored added k ∙ elim (Option-cases (claimed_by added k)) [
        | inl e ↦ unfold or_else in rw (e, h)
        | inr (q, e) ↦
            let (m, kq, new) = added_claim k q n e in
            let first : is_other (claimed_by stored (key_of q)) q ≡ false = (free q m).first in
            let own : is_other (some r) q ≡ false =
              ap (λ o. is_other o q) (sym (ap (claimed_by stored) kq ∙ h)) ∙ first in
            let same : same_pk r q ≡ true = ground arith in
            let (there, _, _) = claimed_by-some stored k r h in
            absurd (false-ne-true (sym new ∙ any-Memᴰ (λ x. same_pk x q) r stored there same))
      ]

  -- A spender of the marked batch has no other claim on its outpoint.
  spender_first :
      (j : TxInput)
      → Memᴰ j (batch_spenders out)
      → is_other (claimed_by (stored ++ added) (key_of j)) j ≡ false
  spender_first j m =
      let used = batch_spenders_used j out m in
      elim (Option-cases (claimed_by stored (key_of j))) [
        | inr (r, e) ↦
            ap (λ o. is_other o j) (claimed_still (key_of j) r used e)
            ∙ ap (λ o. is_other o j) (sym e)
            ∙ (free j m).first
        | inl e ↦ elim (Option-cases (claimed_by added (key_of j))) [
          | inl f ↦
              ap (λ o. is_other o j) (claimed_by-append stored added (key_of j))
              ∙ unfold or_else in rw (f, e)
          | inr (q, f) ↦
              let (mq, kq, new) = added_claim (key_of j) q used f in
              let (distinct, _) = mark_phantom_spends-AreDistinct stored bs in
              let keq : key_eq (key_of q) (key_of j) ≡ true =
                ap (λ l. key_eq l (key_of j)) kq ∙ key_eq_refl (key_of j) in
              let same : q ≡ j = AreDistinct-Memᴰ _ q j distinct mq m keq in
              ap (λ o. is_other o j) (claimed_by-append stored added (key_of j))
              ∙ unfold or_else in rw (f, same) (is_other_self j)
        ]
      ]

-- An input that is not marked yet.
abbrev pub AreUnmarked : List TxInput → Type 0
AreUnmarked is = All (λ i. i.is_phantom_spend ≡ false) is

module _ (S T : List TxInput) (ss : List TxInput)
    (still : (k : Key) (r : TxInput)
      → str_eq k.0 "" ≡ false
      → claimed_by S k ≡ some r
      → claimed_by T k ≡ some r)
    (first : (j : TxInput) → Memᴰ j ss → is_other (claimed_by T (key_of j)) j ≡ false) where
  -- One step of the marking, given whether the input is a phantom.
  abbrev marked_as : TxInput → Bool → TxInput
  marked_as i b = if b then record i { is_phantom_spend = true } else i

  is_phantom_same :
      (i : TxInput) (claimed : List Key)
      → str_eq i.prev_tx "" ≡ false
      → (is_phantom S claimed i ≡ false → Memᴰ i ss)
      → is_phantom T claimed i ≡ is_phantom S claimed i
  unfolding is_phantom
  is_phantom_same i claimed used m = elim (Bool-cases (has_key claimed (key_of i))) [
    | inl y ↦ ground arith
    | inr n ↦ elim (Option-cases (claimed_by S (key_of i))) [
      | inr (r, e) ↦
          ap (λ o. is_other o i || has_key claimed (key_of i)) (still (key_of i) r used e ∙ sym e)
      | inl e ↦
          let none_other : is_other (claimed_by S (key_of i)) i ≡ false =
            ap (λ o. is_other o i) e in
          let f = first i (m (ground arith)) in ground arith
    ]
  ]

  mark_inputs_same :
      (is : List TxInput) (es : List AddressDelta) (claimed : List Key)
      → AreUnmarked is
      → ((j : TxInput) → Memᴰ j (spenders (mark_inputs S is es claimed).0) → Memᴰ j ss)
      → mark_inputs T is es claimed ≡ mark_inputs S is es claimed
  unfolding mark_inputs
  mark_inputs_same [] es claimed u m = refl
  mark_inputs_same (i ∷ is) es claimed (u, us) m =
      let skip = str_eq i.prev_tx "" in
      let p = not skip && is_phantom S claimed i in
      let es' : Bool → List AddressDelta = λ b. if b then credit i es else es in
      let claimed' : Bool → List Key = λ b. if skip || b then claimed else key_of i ∷ claimed in
      let step : Bool
          → (List TxInput × List AddressDelta × List Key)
          → List TxInput × List AddressDelta × List Key =
        λ b (is', es'', claimed''). (marked_as i b ∷ is', es'', claimed'') in
      let rest : Bool → List TxInput × List AddressDelta × List Key =
        λ b. mark_inputs T is (es' b) (claimed' b) in
      let same : (not skip && is_phantom T claimed i) ≡ p = elim (Bool-cases skip) [
        | inl y ↦ ground arith
        | inr n ↦
            let head : is_phantom S claimed i ≡ false → Memᴰ i ss = λ h.
              let later = (mark_inputs S is (es' p) (claimed' p)).0 in
              let fresh : p ≡ false = ground arith in
              m i (
                subst (λ b. Memᴰ i (spenders (marked_as i b ∷ later))) (sym fresh)
                  (spenders-head i later (ground arith))) in
            let e : is_phantom T claimed i ≡ is_phantom S claimed i =
              is_phantom_same i claimed n head in
            ap (λ b. not skip && b) e
      ] in
      ap (λ b. step b (rest b)) same
      ∙ ap (step p) (
          mark_inputs_same is (es' p) (claimed' p) us
            (λ j h. m j (spenders-tail (marked_as i p) j _ h)))

  mark_blocks_same :
      (bs : List ParsedBlock) (claimed : List Key)
      → All (λ b. AreUnmarked b.tx_inputs) bs
      → ((j : TxInput) → Memᴰ j (batch_spenders (mark_blocks S bs claimed)) → Memᴰ j ss)
      → mark_blocks T bs claimed ≡ mark_blocks S bs claimed
  unfolding mark_blocks batch_spenders
  mark_blocks_same [] claimed u m = refl
  mark_blocks_same (b ∷ bs) claimed (u, us) m =
      let now = (mark_inputs S b.tx_inputs b.address_deltas claimed).2 in
      let step : (List TxInput × List AddressDelta × List Key)
          → List ParsedBlock
          → List ParsedBlock =
        λ (is, es, k) l. record b { tx_inputs = is; address_deltas = es } ∷ l in
      ap (λ (r : List TxInput × List AddressDelta × List Key). step r (mark_blocks T bs r.2))
        (mark_inputs_same b.tx_inputs b.address_deltas claimed u
          (λ j h. m j (Memᴰ.append_left _ h)))
      ∙ ap (step (mark_inputs S b.tx_inputs b.address_deltas claimed)) (
          mark_blocks_same bs now us (λ j h. m j (
            Memᴰ.append_right (spenders (mark_inputs S b.tx_inputs b.address_deltas claimed).0) h)))

-- A batch is marked the same way once some of its marked inputs are stored.
pub mark_phantom_spends_again :
    (stored : List TxInput) (bs : List ParsedBlock) (part : List TxInput)
    → ((r : TxInput) → Memᴰ r part → Memᴰ r (batch_inputs (mark_phantom_spends stored bs)))
    → All (λ b. AreUnmarked b.tx_inputs) bs
    → mark_phantom_spends (stored ++ new_inputs stored part) bs ≡ mark_phantom_spends stored bs
mark_phantom_spends_again stored bs part within u =
    unfold mark_phantom_spends in
    mark_blocks_same stored (stored ++ added stored bs part within)
      (batch_spenders (out stored bs part within)) (claimed_still stored bs part within)
      (spender_first stored bs part within) bs [] u (λ j h. h)
