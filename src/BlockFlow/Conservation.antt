-- ===== src/BlockFlow/Conservation.antt =====
-- What `categorizeTx` of lib/blockFlow.ts keeps of the amounts.
use grc_explorer.Common.{
  ℕ, ◌+◌, ◌≡◌, refl, sym, ap, ◌∙◌, subst, true, false, List, [], ◌∷◌, map, arith, String,
  if◌then◌else◌, Bool-cases, inl, inr, keep,
}
use grc_explorer.Common.Int.{ℤ, pos, ◌+ℤ◌, ◌-ℤ◌, ◌≤ℤ◌, ltb_ℤ, int_laws}
use grc_explorer.BlockFlow.{
  FlowEndpoint, FlowOutput, FlowMrc, FlowContract, FlowTx, Totals, sum, is_data, plain_flow,
  stake_return, fee, tally_tx, fees,
}
use grc_explorer.BlockFlow.Sources.{total_in, total_out, input_addrs, data_flow, data_flows, when}
use grc_explorer.BlockFlow.Coinstake.{
  coinstake_flows, reward_flows, research_flow, sidestakes, claimed, staker_of, matches_of,
}
use grc_explorer.BlockFlow.Categorize.{
  inputs_endpoint, output_flows, standard_flows, flows_of, categorize_tx,
}
use grc_explorer.BlockFlow.Sums.{
  amount_of, minted_of, fee_of, sum_over, sum_over-append, sum_over-append4, when-sum, if_true,
  if_false, positive_rest, tally_tx-sums,
}
use grc_explorer.BlockFlow.Rewards.{
  All-when, paid_flows-IsMinted, IsOther, data_flows-IsOther, map-sidestake-IsOther, sum_over-other,
  nonneg_if, no_if, reward_sums,
}

output_flows-sum :
    (contracts : List FlowContract) (source : FlowEndpoint) (addrs : List String) (k : ℕ)
    (os : List FlowOutput)
    → sum_over amount_of (output_flows contracts source addrs k os)
      ≡ sum (map (λ (o : FlowOutput). o.value) os)
unfolding output_flows sum data_flow
output_flows-sum contracts source addrs k [] = refl
output_flows-sum contracts source addrs k (o ∷ os) = elim (Bool-cases (is_data o)) [
  | inl y ↦ rw y (ap (λ x. o.value +ℤ x) (output_flows-sum contracts source addrs (k + 1) os))
  | inr n ↦ rw n (ap (λ x. o.value +ℤ x) (output_flows-sum contracts source addrs k os))
]

standard_flows-sum :
    (tx : FlowTx)
    → total_out tx ≤ℤ total_in tx
    → sum_over amount_of (standard_flows tx) ≡ total_in tx
unfolding standard_flows
standard_flows-sum tx le =
    let paid = total_in tx -ℤ total_out tx in
    let source = inputs_endpoint (input_addrs tx) in
    let outs = output_flows tx.contracts source (input_addrs tx) 0 tx.outputs in
    let last = when (ltb_ℤ (pos 0) paid) (plain_flow fee paid source fees) in
    sum_over-append amount_of outs last
    ∙ ap (λ x. x +ℤ sum_over amount_of last)
        (output_flows-sum tx.contracts source (input_addrs tx) 0 tx.outputs)
    ∙ ap (λ x. total_out tx +ℤ x)
        (when-sum amount_of (ltb_ℤ (pos 0) paid) (plain_flow fee paid source fees))
    ∙ positive_rest (total_in tx) (total_out tx) le

module _ (order_mrcs : List (ℕ × FlowMrc) → List (ℕ × FlowMrc))
    (order_outputs : List FlowOutput → List FlowOutput) where
  -- The flows of a transaction that is neither a coinstake nor a coinbase add up to its inputs,
  -- with the fee, where the outputs do not exceed the inputs.
  pub categorize_tx-standard :
      (tx : FlowTx)
      → tx.is_coinstake ≡ false
      → tx.is_coinbase ≡ false
      → total_out tx ≤ℤ total_in tx
      → sum_over amount_of (categorize_tx order_mrcs order_outputs tx).flows ≡ total_in tx
  unfolding categorize_tx flows_of
  categorize_tx-standard tx no_stake no_base le =
      ap (sum_over amount_of)
        (if_false tx.is_coinstake _ _ no_stake ∙ if_false tx.is_coinbase _ _ no_base)
      ∙ standard_flows-sum tx le

module _ (order_mrcs : List (ℕ × FlowMrc) → List (ℕ × FlowMrc))
    (order_outputs : List FlowOutput → List FlowOutput) (tx : FlowTx) where
  abbrev pub research : ℤ
  research = claimed (λ c. c.research_subsidy) tx.claim

  abbrev pub block : ℤ
  block = claimed (λ c. c.block_subsidy) tx.claim

  abbrev pub surplus : ℤ
  surplus = if ltb_ℤ (total_in tx) (total_out tx) then total_out tx -ℤ total_in tx else pos 0

  surplus_of : total_in tx ≤ℤ total_out tx → surplus ≡ total_out tx -ℤ total_in tx
  surplus_of le = elim (Bool-cases (ltb_ℤ (total_in tx) (total_out tx))) [
    | inl y ↦ if_true _ _ (pos 0) y
    | inr n ↦
        let ge : total_out tx ≤ℤ total_in tx = ground arith in
        if_false _ _ (pos 0) n ∙ omega int_laws
  ]

  reward_flows-sums :
      pos 0 ≤ℤ research
      → pos 0 ≤ℤ block
      → sum_over minted_of (reward_flows order_mrcs order_outputs tx) ≤ℤ surplus
      → sum_over minted_of (reward_flows order_mrcs order_outputs tx)
          +ℤ sum_over fee_of (reward_flows order_mrcs order_outputs tx)
        ≡ surplus
  unfolding reward_flows research_flow
  reward_flows-sums hr hb small =
      reward_sums (staker_of (input_addrs tx)) research block surplus
        (when (ltb_ℤ (pos 0) research) _) (when (ltb_ℤ (pos 0) block) _) _ _
        (when-sum minted_of (ltb_ℤ (pos 0) research) _ ∙ nonneg_if research hr)
        (when-sum fee_of (ltb_ℤ (pos 0) research) _ ∙ no_if _)
        (when-sum minted_of (ltb_ℤ (pos 0) block) _ ∙ nonneg_if block hb)
        (when-sum fee_of (ltb_ℤ (pos 0) block) _ ∙ no_if _)
        (paid_flows-IsMinted _ tx.mrcs (matches_of order_mrcs order_outputs tx) _ _) refl small

  coinstake_flows-sums :
      (sum_over minted_of (coinstake_flows order_mrcs order_outputs tx)
        ≡ sum_over minted_of (reward_flows order_mrcs order_outputs tx))
      × (sum_over fee_of (coinstake_flows order_mrcs order_outputs tx)
          ≡ sum_over fee_of (reward_flows order_mrcs order_outputs tx))
  unfolding coinstake_flows sidestakes
  coinstake_flows-sums =
      let staker = staker_of (input_addrs tx) in
      let stake =
        when (ltb_ℤ (pos 0) (total_in tx)) (plain_flow stake_return (total_in tx) staker staker) in
      let reward = reward_flows order_mrcs order_outputs tx in
      let side = sidestakes tx staker (matches_of order_mrcs order_outputs tx).vout_set in
      let records = data_flows tx.contracts staker 0 (keep is_data tx.outputs) in
      let (am, af) = sum_over-other stake (All-when IsOther _ _ (refl, refl)) in
      let (sm, sf) = sum_over-other side (map-sidestake-IsOther _ _ _) in
      let (dm, df) = sum_over-other records (data_flows-IsOther tx.contracts staker 0 _) in
      (
        sum_over-append4 minted_of stake reward side records ∙ rw (am, sm, dm) (omega int_laws),
        sum_over-append4 fee_of stake reward side records ∙ rw (af, sf, df) (omega int_laws),
      )

  -- The minted total and the collected fees of a coinstake add up to what its outputs exceed its
  -- inputs by, where the claimed subsidies are not negative and the minted total is at most that
  -- excess. Neither MRC payouts, sidestakes nor data records disturb this.
  pub categorize_tx-coinstake :
      tx.is_coinstake ≡ true
      → pos 0 ≤ℤ research
      → pos 0 ≤ℤ block
      → total_in tx ≤ℤ total_out tx
      → (categorize_tx order_mrcs order_outputs tx).totals.minted ≤ℤ total_out tx -ℤ total_in tx
      → (categorize_tx order_mrcs order_outputs tx).totals.minted
          +ℤ (categorize_tx order_mrcs order_outputs tx).totals.fee
        ≡ total_out tx -ℤ total_in tx
  unfolding categorize_tx flows_of
  categorize_tx-coinstake stake hr hb le small =
      let flows = coinstake_flows order_mrcs order_outputs tx in
      let e : (categorize_tx order_mrcs order_outputs tx).totals ≡ tally_tx flows =
        ap tally_tx (if_true tx.is_coinstake _ _ stake) in
      let (tm, tf) = tally_tx-sums flows in
      let (cm, cf) = coinstake_flows-sums in
      let m = ap (λ (t : Totals). t.minted) e ∙ tm ∙ cm in
      let f = ap (λ (t : Totals). t.fee) e ∙ tf ∙ cf in
      let su = surplus_of le in
      rw (m, f)
        (reward_flows-sums hr hb (
            subst (λ x. x ≤ℤ surplus) m
              (subst (λ x. (categorize_tx order_mrcs order_outputs tx).totals.minted ≤ℤ x) (sym su)
                small))
          ∙ su)
