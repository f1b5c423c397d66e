-- ===== src/BlockFlow/Categorize.antt =====
-- `categorizeTx` of lib/blockFlow.ts: the other two branches, and the whole.
use grc_explorer.Common.{
  ℕ, ◌+◌, Bool, not, ◌&&◌, none, some, List, [], ◌∷◌, ◌++◌, String, str_eq, if◌then◌else◌, length,
}
use grc_explorer.Common.Int.{pos, ◌-ℤ◌, ltb_ℤ}
use grc_explorer.BlockFlow.{
  Flow, FlowEndpoint, at_inputs, inputs_label, TxFlow, coinbase, coinstake, standard, FlowOutput,
  FlowMrc, FlowContract, FlowTx, transfer, change, mint_block, fee, endpoint, minted, fees,
  addr_endpoint, is_data, contains, plain_flow, tally_tx,
}
use grc_explorer.BlockFlow.Sources.{input_addrs, total_in, total_out, contract_for, data_flow, when}
use grc_explorer.BlockFlow.Coinstake.{coinstake_flows}

-- The loop over the outputs of a coinbase, `k` data outputs in.
unfoldable pub coinbase_flows : List FlowContract → ℕ → List FlowOutput → List Flow
unfolding contract_for data_flow
coinbase_flows contracts k [] = []
coinbase_flows contracts k (o ∷ os) =
    let rest = coinbase_flows contracts (if is_data o then k + 1 else k) os in
    if is_data o
    then data_flow o (contract_for contracts o k) minted ∷ rest
    else if ltb_ℤ (pos 0) o.value
    then record (plain_flow mint_block o.value minted (addr_endpoint o.address)) {
      vout_idx = some o.vout_n;
    }
      ∷ rest
    else rest

-- One payer, or a number of inputs.
pub inputs_endpoint : List String → FlowEndpoint
inputs_endpoint (a ∷ []) = addr_endpoint a
inputs_endpoint addrs = endpoint at_inputs none (some (inputs_label (length addrs)))

pub is_change : List String → FlowOutput → Bool
is_change addrs o = not (str_eq o.address "") && contains addrs o.address

-- The loop over the outputs of any other transaction.
unfoldable pub output_flows :
    List FlowContract → FlowEndpoint → List String → ℕ → List FlowOutput → List Flow
unfolding contract_for data_flow is_change
output_flows contracts source addrs k [] = []
output_flows contracts source addrs k (o ∷ os) =
    let rest = output_flows contracts source addrs (if is_data o then k + 1 else k) os in
    if is_data o
    then data_flow o (contract_for contracts o k) source ∷ rest
    else record (plain_flow (if is_change addrs o then change else transfer) o.value source
        (addr_endpoint o.address)) { vout_idx = some o.vout_n }
      ∷ rest

unfoldable pub standard_flows : FlowTx → List Flow
unfolding inputs_endpoint output_flows
standard_flows tx =
    let source = inputs_endpoint (input_addrs tx) in
    let paid = total_in tx -ℤ total_out tx in
    output_flows tx.contracts source (input_addrs tx) 0 tx.outputs
    ++ when (ltb_ℤ (pos 0) paid) (plain_flow fee paid source fees)

module _ (order_mrcs : List (ℕ × FlowMrc) → List (ℕ × FlowMrc))
    (order_outputs : List FlowOutput → List FlowOutput) where
  unfoldable pub flows_of : FlowTx → List Flow
  unfolding coinstake_flows coinbase_flows standard_flows
  flows_of tx =
      if tx.is_coinstake
      then coinstake_flows order_mrcs order_outputs tx
      else if tx.is_coinbase
      then coinbase_flows tx.contracts 0 tx.outputs
      else standard_flows tx

  unfoldable pub categorize_tx : FlowTx → TxFlow
  categorize_tx tx = record {
    tx_id = tx.tx_id;
    kind = if tx.is_coinstake then coinstake else if tx.is_coinbase then coinbase else standard;
    flows = flows_of tx;
    totals = tally_tx (flows_of tx);
  }
