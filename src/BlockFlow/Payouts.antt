-- ===== src/BlockFlow/Payouts.antt =====
-- The payouts of MRCs in a coinstake of lib/blockFlow.ts, and the sidestakes that are none of them.
use grc_explorer.Common.{
  ℕ, ◌+◌, ◌≡◌, ◌≢◌, refl, sym, subst, Bool, true, false, not, ◌&&◌, ◌||◌, Option, none, some, List,
  [], ◌∷◌, ◌++◌, map, String, if◌then◌else◌, keep, keep-true, keep-false, Memᴰ, All, All-append,
  All-Memᴰ, Bool-cases, inl, inr, arith,
}
use grc_explorer.Common.Int.{ℤ, pos, ltb_ℤ, eqb_ℤ, ◌-ℤ◌, ◌+ℤ◌}
use grc_explorer.BlockFlow.{
  Flow, FlowCategory, FlowEndpoint, FlowOutput, FlowMrc, FlowContract, FlowTx, sidestake,
  mint_research, mrc_fee, mint_block, stake_return, fee, plain_flow, is_data, minted, fees, sum,
}
use grc_explorer.BlockFlow.Mrc.Listed.{IsListed, match_mrc_payouts-IsListed}
use grc_explorer.BlockFlow.Sources.{when, data_flow, data_flows, input_addrs, total_in, total_out}
use grc_explorer.BlockFlow.Coinstake.{
  has_vout, or_zero, claimed, staker_of, mrc_flow, mrc_flows, foundation_flow, research_flow,
  paid_flows, rest_flows, is_sidestake, sidestake_flow, sidestakes, vout1_addr, matches_of,
  reward_flows, coinstake_flows,
}
use grc_explorer.BlockFlow.Categorize.{flows_of, categorize_tx}
use grc_explorer.BlockFlow.Sums.{if_true}
use grc_explorer.BlockFlow.Rewards.{All-when}

-- The category of a payout of an MRC or of its fees, or of the staker's own research reward, which
-- names no output.
abbrev pub is_payout : FlowCategory → Bool
is_payout c = elim c [ mint_research ↦ true | mrc_fee ↦ true | _ ↦ false ]

abbrev pub is_sidestaking : FlowCategory → Bool
is_sidestaking c = elim c [ sidestake ↦ true | _ ↦ false ]

-- A payout names a listed output, and a sidestake one that is not listed.
abbrev fits_at : List ℕ → FlowCategory → Option ℕ → Bool
fits_at vs c none = true
fits_at vs c (some n) =
    (not (is_payout c) || has_vout vs n) && (not (is_sidestaking c) || not (has_vout vs n))

record Fits (vs : List ℕ) (f : Flow) : Type 0 where
  fits : fits_at vs f.category f.vout_idx ≡ true

All-append4 :
    (P : Flow → Type 0) (a b c d : List Flow)
    → All P a
    → All P b
    → All P c
    → All P d
    → All P (a ++ b ++ c ++ d)
All-append4 P a b c d ha hb hc hd =
    All-append P (a ++ b ++ c) d (All-append P (a ++ b) c (All-append P a b ha hb) hc) hd

module _ (vs : List ℕ) where
  mrc_flows-Fits :
      (ms : List FlowMrc) (cs : List (Option FlowOutput))
      → All (IsListed vs) cs
      → All (Fits vs) (mrc_flows ms cs)
  unfolding mrc_flows mrc_flow research_flow
  mrc_flows-Fits [] cs h = tt
  mrc_flows-Fits (m ∷ ms) [] h = (record { fits = refl }, mrc_flows-Fits ms [] tt)
  mrc_flows-Fits (m ∷ ms) (some o ∷ cs) (h, hs) =
      (record { fits = ground arith }, mrc_flows-Fits ms cs hs)
  mrc_flows-Fits (m ∷ ms) (none ∷ cs) (h, hs) = (record { fits = refl }, mrc_flows-Fits ms cs hs)

  foundation_flow-Fits :
      (x : ℤ) (o : Option FlowOutput) → IsListed vs o → Fits vs (foundation_flow x o)
  unfolding foundation_flow
  foundation_flow-Fits x none h = record { fits = refl }
  foundation_flow-Fits x (some o) h = record { fits = ground arith }

  rest_flows-Fits :
      (staker : FlowEndpoint) (research block total surplus : ℤ)
      → All (Fits vs) (rest_flows staker research block total surplus)
  unfolding rest_flows
  rest_flows-Fits staker research block total surplus =
      let collected = surplus -ℤ (research +ℤ block +ℤ total) in
      let unclaimed =
        eqb_ℤ research (pos 0)
        && eqb_ℤ block (pos 0)
        && eqb_ℤ total (pos 0)
        && ltb_ℤ (pos 0) surplus in
      let f : Bool → List Flow = λ b.
        if b
        then plain_flow mint_block surplus minted staker ∷ []
        else when (ltb_ℤ (pos 0) collected) (plain_flow fee collected fees staker) in
      elim (Bool-cases unclaimed) [
        | inl y ↦ subst (λ b. All (Fits vs) (f b)) (sym y) (record { fits = refl }, tt)
        | inr n ↦
            subst (λ b. All (Fits vs) (f b)) (sym n)
              (All-when (Fits vs) _ (plain_flow fee collected fees staker) (record { fits = refl }))
      ]

  data_flows-Fits :
      (contracts : List FlowContract) (source : FlowEndpoint) (k : ℕ) (os : List FlowOutput)
      → All (Fits vs) (data_flows contracts source k os)
  unfolding data_flows data_flow
  data_flows-Fits contracts source k [] = tt
  data_flows-Fits contracts source k (o ∷ os) =
      (record { fits = refl }, data_flows-Fits contracts source (k + 1) os)

  map-sidestake-Fits :
      (staker : FlowEndpoint) (mandatory_addrs staker_addrs : List String) (os : List FlowOutput)
      → All
          (Fits vs)
          (map (sidestake_flow staker mandatory_addrs) (keep (is_sidestake vs staker_addrs) os))
  unfolding is_sidestake sidestake_flow
  map-sidestake-Fits staker mandatory_addrs staker_addrs [] = tt
  map-sidestake-Fits staker mandatory_addrs staker_addrs (o ∷ os) =
      let p = is_sidestake vs staker_addrs in
      let ih = map-sidestake-Fits staker mandatory_addrs staker_addrs os in
      let P : List FlowOutput → Type 0 =
        λ l. All (Fits vs) (map (sidestake_flow staker mandatory_addrs) l) in
      elim (Bool-cases (p o)) [
        | inl on ↦ subst P (sym (keep-true p o os on)) (record { fits = ground arith }, ih)
        | inr off ↦ subst P (sym (keep-false p o os off)) ih
      ]

module _ (order_mrcs : List (ℕ × FlowMrc) → List (ℕ × FlowMrc))
    (order_outputs : List FlowOutput → List FlowOutput) (tx : FlowTx) where
  abbrev listed : List ℕ
  listed = (matches_of order_mrcs order_outputs tx).vout_set

  matches_of-IsListed :
      All (IsListed listed) (matches_of order_mrcs order_outputs tx).claimants
      × IsListed listed (matches_of order_mrcs order_outputs tx).foundation
  unfolding matches_of
  matches_of-IsListed =
      match_mrc_payouts-IsListed order_mrcs order_outputs tx.outputs tx.mrcs _ _
        (matches_of order_mrcs order_outputs tx) refl

  paid_flows-Fits :
      (staker : FlowEndpoint) (x y : ℤ)
      → All (Fits listed) (paid_flows staker tx.mrcs (matches_of order_mrcs order_outputs tx) x y)
  unfolding paid_flows
  paid_flows-Fits staker x y =
      let mm = matches_of order_mrcs order_outputs tx in
      let (claimants, foundation) = matches_of-IsListed in
      All-append (Fits listed)
        (mrc_flows tx.mrcs mm.claimants ++ when _ (foundation_flow x mm.foundation)) _
        (All-append (Fits listed) (mrc_flows tx.mrcs mm.claimants)
          (when _ (foundation_flow x mm.foundation))
          (mrc_flows-Fits listed tx.mrcs mm.claimants claimants)
          (All-when (Fits listed) _ _ (foundation_flow-Fits listed x mm.foundation foundation)))
        (All-when (Fits listed) _ (plain_flow mrc_fee y minted staker) (record { fits = refl }))

  reward_flows-Fits : All (Fits listed) (reward_flows order_mrcs order_outputs tx)
  unfolding reward_flows research_flow
  reward_flows-Fits =
      let staker = staker_of (input_addrs tx) in
      let research = claimed (λ c. c.research_subsidy) tx.claim in
      let block = claimed (λ c. c.block_subsidy) tx.claim in
      let x = claimed (λ c. or_zero c.mrc_foundation_fees) tx.claim in
      let y = claimed (λ c. or_zero c.mrc_staker_fees) tx.claim in
      let surplus =
        if ltb_ℤ (total_in tx) (total_out tx) then total_out tx -ℤ total_in tx else pos 0 in
      let cpid : Option String = elim tx.claim [ none ↦ none | some c ↦ c.cpid ] in
      let magnitude : Option ℕ = elim tx.claim [ none ↦ none | some c ↦ c.magnitude ] in
      let own = research_flow research cpid magnitude false staker none in
      let minting = plain_flow mint_block block minted staker in
      let paid = paid_flows staker tx.mrcs (matches_of order_mrcs order_outputs tx) x y in
      let total = sum (map (λ (f : Flow). f.amount) paid) in
      All-append4 (Fits listed) (when (ltb_ℤ (pos 0) research) own)
        (when (ltb_ℤ (pos 0) block) minting) paid (rest_flows staker research block total surplus)
        (All-when (Fits listed) (ltb_ℤ (pos 0) research) own (record { fits = refl }))
        (All-when (Fits listed) (ltb_ℤ (pos 0) block) minting (record { fits = refl }))
        (paid_flows-Fits staker x y) (rest_flows-Fits listed staker research block total surplus)

  coinstake_flows-Fits : All (Fits listed) (coinstake_flows order_mrcs order_outputs tx)
  unfolding coinstake_flows sidestakes
  coinstake_flows-Fits =
      let staker = staker_of (input_addrs tx) in
      let stake = plain_flow stake_return (total_in tx) staker staker in
      let mandatory_addrs = tx.mandatory_sidestake_addresses in
      let staker_addrs = input_addrs tx ++ vout1_addr tx.outputs in
      All-append4 (Fits listed) (when (ltb_ℤ (pos 0) (total_in tx)) stake)
        (reward_flows order_mrcs order_outputs tx) (sidestakes tx staker listed)
        (data_flows tx.contracts staker 0 (keep is_data tx.outputs))
        (All-when (Fits listed) (ltb_ℤ (pos 0) (total_in tx)) stake (record { fits = refl }))
        reward_flows-Fits (map-sidestake-Fits listed staker mandatory_addrs staker_addrs tx.outputs)
        (data_flows-Fits listed tx.contracts staker 0 (keep is_data tx.outputs))

  -- In the flows of a coinstake, no output that a sidestake names is also named as the payout of an
  -- MRC, of an MRC's fee or of a research reward, whatever orders the two sorts give.
  pub categorize_tx-payouts :
      (f g : Flow) (n : ℕ)
      → tx.is_coinstake ≡ true
      → Memᴰ f (categorize_tx order_mrcs order_outputs tx).flows
      → Memᴰ g (categorize_tx order_mrcs order_outputs tx).flows
      → f.category ≡ sidestake
      → f.vout_idx ≡ some n
      → is_payout g.category ≡ true
      → g.vout_idx ≢ some n
  unfolding categorize_tx flows_of
  categorize_tx-payouts f g n stake mf mg cf vf cg vg =
      let e : (categorize_tx order_mrcs order_outputs tx).flows
          ≡ coinstake_flows order_mrcs order_outputs tx =
        if_true tx.is_coinstake _ _ stake in
      let all = coinstake_flows-Fits in
      let hf = (All-Memᴰ (Fits listed) f _ all (subst (Memᴰ f) e mf)).fits in
      let hg = (All-Memᴰ (Fits listed) g _ all (subst (Memᴰ g) e mg)).fits in
      let at_f : fits_at listed sidestake (some n) ≡ true = rw (cf, vf) at hf in
      let at_g : fits_at listed g.category (some n) ≡ true = rw vg at hg in absurd (ground arith)
