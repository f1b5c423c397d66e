-- ===== src/BlockFlow/Sources.antt =====
-- What `categorizeTx` of lib/blockFlow.ts reads of a transaction before it tells the kinds apart: the
-- payers, the totals and the data outputs.
use grc_explorer.Common.{
  ℕ, ◌+◌, Bool, true, false, Option, none, some, List, [], ◌∷◌, map, ◌==◌, String, str_eq,
  if◌then◌else◌, get_elem?,
}
use grc_explorer.Common.Int.{ℤ}
use grc_explorer.BlockFlow.{
  Flow, FlowEndpoint, unknown, FlowInput, FlowOutput, FlowContract, FlowTx, data_record, op_return,
  sum, contains,
}

-- A set of texts, in the order of insertion.
unfoldable pub distinct : List String → List String → List String
distinct seen [] = []
distinct seen (a ∷ rest) = elim (contains seen a) [
  | true ↦ distinct seen rest
  | false ↦ a ∷ distinct (a ∷ seen) rest
]

abbrev pub truthy : List FlowInput → List String
truthy [] = []
truthy (i ∷ is) =
    let rest = truthy is in
    elim i.address [ none ↦ rest | some a ↦ if str_eq a "" then rest else a ∷ rest ]

unfoldable pub input_addrs : FlowTx → List String
unfolding distinct
input_addrs tx = distinct [] (truthy tx.inputs)

abbrev pub total_in : FlowTx → ℤ
total_in tx = sum (map (λ (i : FlowInput). i.value) tx.inputs)

abbrev pub total_out : FlowTx → ℤ
total_out tx = sum (map (λ (o : FlowOutput). o.value) tx.outputs)

-- `contractByVout.get(vout)`: the last contract that names the output.
pub contract_at : List FlowContract → ℕ → Option FlowContract
contract_at [] n = none
contract_at (c ∷ cs) n =
    let here : Option FlowContract = elim c.vout_n [
      | none ↦ none
      | some v ↦ if v == n then some c else none
    ] in
    elim (contract_at cs n) [ some later ↦ some later | none ↦ here ]

pub loose_contracts : List FlowContract → List FlowContract
loose_contracts [] = []
loose_contracts (c ∷ cs) = elim c.vout_n [
  | none ↦ c ∷ loose_contracts cs
  | some v ↦ loose_contracts cs
]

-- For a data output, with its position among the data outputs.
unfoldable pub contract_for : List FlowContract → FlowOutput → ℕ → Option FlowContract
unfolding contract_at loose_contracts
contract_for contracts o k = elim (contract_at contracts o.vout_n) [
  | some c ↦ some c
  | none ↦ get_elem? (loose_contracts contracts) k
]

unfoldable pub data_flow : FlowOutput → Option FlowContract → FlowEndpoint → Flow
data_flow o contract source = record {
  category = data_record;
  amount = o.value;
  from = source;
  to = op_return;
  vout_idx = some o.vout_n;
  detail = some (record {
    cpid = none;
    magnitude = none;
    is_mrc = false;
    sidestake_kind = none;
    contract = elim contract [
      | some c ↦ some (c.kind, c.summary)
      | none ↦ some (unknown, "OP_RETURN data")
    ];
  });
}

abbrev pub when : Bool → Flow → List Flow
when b f = if b then f ∷ [] else []

-- The data outputs from the position `k` on.
unfoldable pub data_flows : List FlowContract → FlowEndpoint → ℕ → List FlowOutput → List Flow
unfolding contract_for data_flow
data_flows contracts source k [] = []
data_flows contracts source k (o ∷ os) =
    data_flow o (contract_for contracts o k) source ∷ data_flows contracts source (k + 1) os
