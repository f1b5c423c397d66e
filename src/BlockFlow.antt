-- ===== src/BlockFlow.antt =====
-- packages/grc-explorer/src/lib/blockFlow.ts: the categories of what a transaction does. Amounts are
-- integers; an output's address is the empty text where it has none. A magnitude is a number that is
-- only passed along, and a label is a value in place of its text.
pub mod Mrc
pub mod Sources
pub mod Coinstake
pub mod Categorize
pub mod Sums
pub mod Rewards
pub mod Conservation
pub mod Payouts
pub mod Summary
mod Tests
use grc_explorer.Common.{
  ℕ, ◌+◌, Bool, true, false, not, ◌&&◌, ◌||◌, Option, none, some, List, [], ◌∷◌, String, str_eq,
  if◌then◌else◌, keep,
}
use grc_explorer.Common.Int.{ℤ, pos, ◌+ℤ◌}

pub data FlowCategory : Type 0 where
  transfer change mint_block mint_research stake_return sidestake data_record fee mrc_fee :
      FlowCategory

pub data ContractKind : Type 0 where
  stamp beacon vote poll message project mrc protocol sidestake_contract unknown : ContractKind

pub data EndpointKind : Type 0 where
  at_address at_minted at_opreturn at_network at_inputs : EndpointKind

pub data Label : Type 0 where
  minted_label op_return_label fees_label staker_label claimant_label foundation_label : Label
  inputs_label : ℕ → Label

pub record FlowEndpoint : Type 0 where
  pub kind : EndpointKind
  pub address : Option String
  pub label : Option Label
  pub is_staker : Bool

pub data SidestakeKind : Type 0 where
  mandatory voluntary : SidestakeKind

pub record Detail : Type 0 where
  pub cpid : Option String
  pub magnitude : Option ℕ
  pub is_mrc : Bool
  pub sidestake_kind : Option SidestakeKind
  pub contract : Option (ContractKind × String)

pub record Flow : Type 0 where
  pub category : FlowCategory
  pub amount : ℤ
  pub from : FlowEndpoint
  pub to : FlowEndpoint
  pub vout_idx : Option ℕ
  pub detail : Option Detail

pub record Totals : Type 0 where
  pub minted : ℤ
  pub moved : ℤ
  pub staked : ℤ
  pub sidestaked : ℤ
  pub fee : ℤ
  pub data_records : ℕ

pub data TxKind : Type 0 where
  coinbase coinstake standard : TxKind

pub record TxFlow : Type 0 where
  pub tx_id : String
  pub kind : TxKind
  pub flows : List Flow
  pub totals : Totals

pub record FlowInput : Type 0 where
  pub address : Option String
  pub value : ℤ

pub record FlowOutput : Type 0 where
  pub vout_n : ℕ
  pub value : ℤ
  pub address : String
  pub script_type : String

pub record FlowClaim : Type 0 where
  pub cpid : Option String
  pub block_subsidy : ℤ
  pub research_subsidy : ℤ
  pub magnitude : Option ℕ
  pub is_mrc : Bool
  pub mrc_foundation_fees : Option ℤ
  pub mrc_staker_fees : Option ℤ

pub record FlowMrc : Type 0 where
  pub cpid : Option String
  pub research_subsidy : ℤ
  pub fee : Option ℤ
  pub magnitude : Option ℕ
  pub beacon_addresses : List String

pub record FlowContract : Type 0 where
  pub vout_n : Option ℕ
  pub kind : ContractKind
  pub summary : String

pub record FlowTx : Type 0 where
  pub tx_id : String
  pub is_coinbase : Bool
  pub is_coinstake : Bool
  pub inputs : List FlowInput
  pub outputs : List FlowOutput
  pub claim : Option FlowClaim
  pub mrcs : List FlowMrc
  pub mandatory_sidestake_addresses : List String
  pub contracts : List FlowContract

abbrev pub endpoint : EndpointKind → Option String → Option Label → FlowEndpoint
endpoint kind address label = record {
  kind = kind;
  address = address;
  label = label;
  is_staker = false;
}

abbrev pub minted : FlowEndpoint
minted = endpoint at_minted none (some minted_label)

abbrev pub op_return : FlowEndpoint
op_return = endpoint at_opreturn none (some op_return_label)

abbrev pub fees : FlowEndpoint
fees = endpoint at_network none (some fees_label)

abbrev pub addr_endpoint : String → FlowEndpoint
addr_endpoint address = endpoint at_address (some address) none

unfoldable pub sum : List ℤ → ℤ
sum [] = pos 0
sum (x ∷ xs) = x +ℤ sum xs

unfoldable pub is_data : FlowOutput → Bool
is_data o = str_eq o.script_type "nulldata"

abbrev pub contains : List String → String → Bool
contains [] a = false
contains (x ∷ xs) a = str_eq x a || contains xs a

-- A flow without an output and a detail.
abbrev pub plain_flow : FlowCategory → ℤ → FlowEndpoint → FlowEndpoint → Flow
plain_flow category amount from to = record {
  category = category;
  amount = amount;
  from = from;
  to = to;
  vout_idx = none;
  detail = none;
}

unfoldable pub tally_flow : Flow → Totals → Totals
tally_flow f t = elim f.category [
  | mint_block ↦ record t { minted = t.minted +ℤ f.amount }
  | mint_research ↦ record t { minted = t.minted +ℤ f.amount }
  | mrc_fee ↦ record t { minted = t.minted +ℤ f.amount }
  | transfer ↦ record t { moved = t.moved +ℤ f.amount }
  | stake_return ↦ record t { staked = t.staked +ℤ f.amount }
  | sidestake ↦ record t { sidestaked = t.sidestaked +ℤ f.amount }
  | fee ↦ record t { fee = t.fee +ℤ f.amount }
  | data_record ↦ record t { data_records = t.data_records + 1 }
  | change ↦ t
]

unfoldable pub tally_from : Totals → List Flow → Totals
tally_from t [] = t
tally_from t (f ∷ fs) = tally_from (tally_flow f t) fs

unfoldable pub tally_tx : List Flow → Totals
tally_tx flows =
    tally_from
      (record {
        minted = pos 0;
        moved = pos 0;
        staked = pos 0;
        sidestaked = pos 0;
        fee = pos 0;
        data_records = 0;
      })
      flows
