-- ===== src/BlockFlow/Coinstake.antt =====
-- The branch of `categorizeTx` of lib/blockFlow.ts for a coinstake.
use grc_explorer.Common.{
  ℕ, Bool, true, false, not, ◌&&◌, ◌||◌, Option, none, some, List, [], ◌∷◌, ◌++◌, map, ltb, ◌==◌,
  String, str_eq, if◌then◌else◌, keep,
}
use grc_explorer.Common.Int.{ℤ, pos, ◌+ℤ◌, ◌-ℤ◌, ltb_ℤ, leb_ℤ, eqb_ℤ}
use grc_explorer.BlockFlow.{
  Flow, FlowEndpoint, at_address, claimant_label, foundation_label, staker_label, mandatory,
  voluntary, FlowOutput, FlowClaim, FlowMrc, FlowTx, mint_block, mint_research, stake_return,
  sidestake, fee, mrc_fee, endpoint, minted, fees, addr_endpoint, sum, is_data, contains,
  plain_flow,
}
use grc_explorer.BlockFlow.Mrc.{MrcMatches, match_mrc_payouts}
use grc_explorer.BlockFlow.Sources.{input_addrs, total_in, total_out, when, data_flows}

unfoldable pub research_flow : ℤ → Option String → Option ℕ → Bool → FlowEndpoint → Option ℕ → Flow
research_flow amount cpid magnitude is_mrc to vout = record {
  category = mint_research;
  amount = amount;
  from = minted;
  to = to;
  vout_idx = vout;
  detail = some (record {
    cpid = cpid;
    magnitude = magnitude;
    is_mrc = is_mrc;
    sidestake_kind = none;
    contract = none;
  });
}

abbrev pub or_zero : Option ℤ → ℤ
or_zero none = pos 0
or_zero (some x) = x

unfoldable pub mrc_flow : FlowMrc → Option FlowOutput → Flow
unfolding research_flow
mrc_flow m (some o) =
    research_flow o.value m.cpid m.magnitude true (addr_endpoint o.address) (some o.vout_n)
mrc_flow m none =
    research_flow (m.research_subsidy -ℤ or_zero m.fee) m.cpid m.magnitude true
      (endpoint at_address none (some claimant_label)) none

unfoldable pub mrc_flows : List FlowMrc → List (Option FlowOutput) → List Flow
unfolding mrc_flow
mrc_flows [] cs = []
mrc_flows (m ∷ ms) [] = mrc_flow m none ∷ mrc_flows ms []
mrc_flows (m ∷ ms) (c ∷ cs) = mrc_flow m c ∷ mrc_flows ms cs

unfoldable pub foundation_flow : ℤ → Option FlowOutput → Flow
foundation_flow amount (some o) = record {
  category = mrc_fee;
  amount = amount;
  from = minted;
  to = addr_endpoint o.address;
  vout_idx = some o.vout_n;
  detail = none;
}
foundation_flow amount none =
    plain_flow mrc_fee amount minted (endpoint at_address none (some foundation_label))

abbrev pub has_mrcs : List FlowMrc → Bool
has_mrcs [] = false
has_mrcs (m ∷ ms) = true

-- Everything that is added to `mrcTotal`.
unfoldable pub paid_flows : FlowEndpoint → List FlowMrc → MrcMatches → ℤ → ℤ → List Flow
unfolding mrc_flows foundation_flow
paid_flows staker mrcs matches foundation_fees staker_fees =
    mrc_flows mrcs matches.claimants
    ++ when (has_mrcs mrcs && ltb_ℤ (pos 0) foundation_fees)
        (foundation_flow foundation_fees matches.foundation)
    ++ when (has_mrcs mrcs && ltb_ℤ (pos 0) staker_fees)
        (plain_flow mrc_fee staker_fees minted staker)

-- What the surplus holds beyond the claimed subsidies and the MRCs.
unfoldable pub rest_flows : FlowEndpoint → ℤ → ℤ → ℤ → ℤ → List Flow
rest_flows staker research block mrc_total surplus =
    let collected = surplus -ℤ (research +ℤ block +ℤ mrc_total) in
    if eqb_ℤ research (pos 0)
      && eqb_ℤ block (pos 0)
      && eqb_ℤ mrc_total (pos 0)
      && ltb_ℤ (pos 0) surplus
    then plain_flow mint_block surplus minted staker ∷ []
    else when (ltb_ℤ (pos 0) collected) (plain_flow fee collected fees staker)

abbrev pub has_vout : List ℕ → ℕ → Bool
has_vout [] n = false
has_vout (v ∷ vs) n = v == n || has_vout vs n

-- `tx.outputs.find((o) => o.voutN === 1)?.address`, less the empty one.
unfoldable pub vout1_addr : List FlowOutput → List String
vout1_addr [] = []
vout1_addr (o ∷ os) =
    let rest = vout1_addr os in
    if o.vout_n == 1 then (if str_eq o.address "" then [] else o.address ∷ []) else rest

unfoldable pub is_sidestake : List ℕ → List String → FlowOutput → Bool
is_sidestake vout_set staker_addrs o =
    not (ltb o.vout_n 2 || is_data o || leb_ℤ o.value (pos 0) || str_eq o.address "")
    && not (has_vout vout_set o.vout_n)
    && not (contains staker_addrs o.address)

unfoldable pub sidestake_flow : FlowEndpoint → List String → FlowOutput → Flow
sidestake_flow staker mandatory_addrs o = record {
  category = sidestake;
  amount = o.value;
  from = staker;
  to = addr_endpoint o.address;
  vout_idx = some o.vout_n;
  detail = some (record {
    cpid = none;
    magnitude = none;
    is_mrc = false;
    sidestake_kind = some (if contains mandatory_addrs o.address then mandatory else voluntary);
    contract = none;
  });
}

abbrev pub first : List String → Option String
first [] = none
first (a ∷ rest) = some a

abbrev pub staker_of : List String → FlowEndpoint
staker_of addrs = record {
  kind = at_address;
  address = first addrs;
  label = some staker_label;
  is_staker = true;
}

abbrev pub claimed : (FlowClaim → ℤ) → Option FlowClaim → ℤ
claimed f none = pos 0
claimed f (some c) = f c

unfoldable pub sidestakes : FlowTx → FlowEndpoint → List ℕ → List Flow
unfolding is_sidestake sidestake_flow vout1_addr
sidestakes tx staker vout_set =
    map (sidestake_flow staker tx.mandatory_sidestake_addresses)
      (keep (is_sidestake vout_set (input_addrs tx ++ vout1_addr tx.outputs)) tx.outputs)

module _ (order_mrcs : List (ℕ × FlowMrc) → List (ℕ × FlowMrc))
    (order_outputs : List FlowOutput → List FlowOutput) where
  unfoldable pub matches_of : FlowTx → MrcMatches
  matches_of tx =
      match_mrc_payouts order_mrcs order_outputs tx.outputs tx.mrcs
        (claimed (λ c. or_zero c.mrc_foundation_fees) tx.claim)
        (claimed (λ c. or_zero c.mrc_staker_fees) tx.claim)

  -- The minted flows of a coinstake, and the fees that it collects.
  unfoldable pub reward_flows : FlowTx → List Flow
  unfolding matches_of paid_flows rest_flows research_flow
  reward_flows tx =
      let staker = staker_of (input_addrs tx) in
      let research = claimed (λ c. c.research_subsidy) tx.claim in
      let block = claimed (λ c. c.block_subsidy) tx.claim in
      let surplus =
        if ltb_ℤ (total_in tx) (total_out tx) then total_out tx -ℤ total_in tx else pos 0 in
      let paid =
        paid_flows staker tx.mrcs (matches_of tx)
          (claimed (λ c. or_zero c.mrc_foundation_fees) tx.claim)
          (claimed (λ c. or_zero c.mrc_staker_fees) tx.claim) in
      let cpid : Option String = elim tx.claim [ none ↦ none | some c ↦ c.cpid ] in
      let magnitude : Option ℕ = elim tx.claim [ none ↦ none | some c ↦ c.magnitude ] in
      when (ltb_ℤ (pos 0) research) (research_flow research cpid magnitude false staker none)
      ++ when (ltb_ℤ (pos 0) block) (plain_flow mint_block block minted staker)
      ++ paid
      ++ rest_flows staker research block (sum (map (λ (f : Flow). f.amount) paid)) surplus

  unfoldable pub coinstake_flows : FlowTx → List Flow
  unfolding reward_flows sidestakes data_flows
  coinstake_flows tx =
      let staker = staker_of (input_addrs tx) in
      when (ltb_ℤ (pos 0) (total_in tx)) (plain_flow stake_return (total_in tx) staker staker)
      ++ reward_flows tx
      ++ sidestakes tx staker (matches_of tx).vout_set
      ++ data_flows tx.contracts staker 0 (keep is_data tx.outputs)
