-- ===== src/Indexer/Deltas.antt =====
-- The inputs, outputs and address deltas of a block: `bumpDelta`, and what `processTransactions` of
-- packages/grc-explorer/src/services/indexer/ContractParser.ts does for them. Amounts are converted
-- already. The lookup of spent outputs is an argument: the address and the value of an outpoint. A
-- `Map` keyed by address is the list of its entries, a `Set` a list without repetitions.
pub mod Balance
pub mod Distinct
pub mod Fees
mod Tests
use grc_explorer.Common.{
  ℕ, ◌+◌, Bool, true, false, not, ◌&&◌, ◌||◌, Option, none, some, List, [], ◌∷◌, ◌++◌, String, ◌==◌,
  str_eq, if◌then◌else◌, any,
}
use grc_explorer.Common.Int.{ℤ, pos, ◌+ℤ◌, ◌-ℤ◌, ltb_ℤ, eqb_ℤ}
use grc_explorer.Parsed.{TxInput, TxOutput, AddressDelta, ParsedBlock}

-- An input that spends an output, or that of a coinbase.
pub data BlockVin : Type 0 where
  coinbase : BlockVin
  spends : String → ℕ → BlockVin

pub record BlockVout : Type 0 where
  pub n : ℕ
  pub value : ℤ
  pub address : Option String

pub record BlockTx : Type 0 where
  pub txid : String
  pub vins : List BlockVin
  pub vouts : List BlockVout

-- `resolved`
pub record Resolved : Type 0 where
  pub address : Option String
  pub value : ℤ

abbrev pub PrevOutputs : Type 0
PrevOutputs = String → ℕ → Option Resolved

-- `if (address)`
abbrev pub truthy_address : Option String → Option String
truthy_address none = none
truthy_address (some a) = if str_eq a "" then none else some a

pub add_id : String → List String → List String
add_id t ids = if any (λ x. str_eq x t) ids then ids else ids ++ t ∷ []

-- The amounts that a leg adds to an entry: `signedDelta`, `isReceive` and `countInOut`.
pub record Leg : Type 0 where
  pub signed_delta : ℤ
  pub tx_id : String
  pub is_receive : Bool
  pub count_in_out : Bool

pub bump_entry : Leg → AddressDelta → AddressDelta
unfolding add_id
bump_entry l e = record e {
  delta = e.delta +ℤ l.signed_delta;
  received =
      if l.count_in_out && l.is_receive && ltb_ℤ (pos 0) l.signed_delta
      then e.received +ℤ l.signed_delta
      else e.received;
  sent =
      if l.count_in_out && not l.is_receive && ltb_ℤ l.signed_delta (pos 0)
      then e.sent +ℤ (pos 0 -ℤ l.signed_delta)
      else e.sent;
  tx_ids = add_id l.tx_id e.tx_ids;
}

abbrev pub new_entry : String → AddressDelta
new_entry a = record { address = a; delta = pos 0; received = pos 0; sent = pos 0; tx_ids = [] }

pub bump_at : String → Leg → List AddressDelta → List AddressDelta
unfolding bump_entry
bump_at a l [] = bump_entry l (new_entry a) ∷ []
bump_at a l (e ∷ es) = if str_eq e.address a then bump_entry l e ∷ es else e ∷ bump_at a l es

-- Without an address there is nothing to do.
pub bump_named : Option String → Leg → List AddressDelta → List AddressDelta
unfolding bump_at
bump_named none l es = es
bump_named (some a) l es = bump_at a l es

pub bump_delta : Option String → Leg → List AddressDelta → List AddressDelta
unfolding bump_named
bump_delta address l es = bump_named (truthy_address address) l es

-- `(m.get(a) ?? 0n) + v`, set.
pub add_sum : String → ℤ → List (String × ℤ) → List (String × ℤ)
add_sum a v [] = (a, v) ∷ []
add_sum a v ((b, w) ∷ m) = if str_eq b a then (b, w +ℤ v) ∷ m else (b, w) ∷ add_sum a v m

pub sum_at : String → List (String × ℤ) → Option ℤ
sum_at a [] = none
sum_at a ((b, w) ∷ m) = if str_eq b a then some w else sum_at a m

abbrev pub value_or_zero : Option ℤ → ℤ
value_or_zero none = pos 0
value_or_zero (some v) = v

-- `applyNet`, on the entry of the address.
pub net_entry : ℤ → AddressDelta → AddressDelta
net_entry net e =
    if eqb_ℤ net (pos 0)
    then e
    else if ltb_ℤ (pos 0) net
    then record e { received = e.received +ℤ net }
    else record e { sent = e.sent +ℤ (pos 0 -ℤ net) }

pub apply_net : String → ℤ → List AddressDelta → List AddressDelta
unfolding net_entry
apply_net a net [] = []
apply_net a net (e ∷ es) =
    if str_eq e.address a then net_entry net e ∷ es else e ∷ apply_net a net es

-- The two loops over the sums of a coinstake's outputs and inputs.
pub net_outputs : List (String × ℤ) → List (String × ℤ) → List AddressDelta → List AddressDelta
unfolding apply_net sum_at
net_outputs [] cs_in es = es
net_outputs ((a, out) ∷ m) cs_in es =
    net_outputs m cs_in (apply_net a (out -ℤ value_or_zero (sum_at a cs_in)) es)

pub net_inputs : List (String × ℤ) → List (String × ℤ) → List AddressDelta → List AddressDelta
unfolding apply_net sum_at
net_inputs [] cs_out es = es
net_inputs ((a, inv) ∷ m) cs_out es =
    net_inputs m cs_out
      (elim (sum_at a cs_out) [ none ↦ apply_net a (pos 0 -ℤ inv) es | some out ↦ es ])

-- The row of an input, with its address and value where the outpoint is found.
pub input_row : PrevOutputs → String → ℕ → String → ℕ → TxInput
input_row prev_outputs txid vin_n prev_tx prev_vout = record {
  tx_id = txid;
  vin_n = vin_n;
  prev_tx = prev_tx;
  prev_vout = prev_vout;
  address = elim (prev_outputs prev_tx prev_vout) [ none ↦ none | some r ↦ r.address ];
  value = elim (prev_outputs prev_tx prev_vout) [ none ↦ none | some r ↦ some r.value ];
  is_phantom_spend = false;
}

pub input_rows_from : PrevOutputs → String → ℕ → List BlockVin → List TxInput
unfolding input_row
input_rows_from prev_outputs txid n [] = []
input_rows_from prev_outputs txid n (coinbase ∷ vs) = input_rows_from prev_outputs txid (n + 1) vs
input_rows_from prev_outputs txid n (spends t k ∷ vs) =
    input_row prev_outputs txid n t k ∷ input_rows_from prev_outputs txid (n + 1) vs

pub output_rows : String → List BlockVout → List TxOutput
output_rows txid [] = []
output_rows txid (v ∷ vs) =
    record { tx_id = txid; vout_n = v.n; value = v.value; address = v.address }
    ∷ output_rows txid vs

-- The legs of the inputs and of the outputs of a transaction.
pub bump_inputs : Bool → List TxInput → List AddressDelta → List AddressDelta
unfolding bump_delta
bump_inputs count [] es = es
bump_inputs count (i ∷ is) es = bump_inputs count is (
    bump_delta i.address
      (record {
        signed_delta = pos 0 -ℤ value_or_zero i.value;
        tx_id = i.tx_id;
        is_receive = false;
        count_in_out = count;
      })
      es)

pub bump_outputs : Bool → List TxOutput → List AddressDelta → List AddressDelta
unfolding bump_delta
bump_outputs count [] es = es
bump_outputs count (o ∷ os) es = bump_outputs count os (
    bump_delta o.address
      (record { signed_delta = o.value; tx_id = o.tx_id; is_receive = true; count_in_out = count })
      es)

-- `csIn` and `csOut`
pub input_sums : List TxInput → List (String × ℤ) → List (String × ℤ)
unfolding add_sum
input_sums [] m = m
input_sums (i ∷ is) m =
    input_sums is
      (elim (truthy_address i.address) [ none ↦ m | some a ↦ add_sum a (value_or_zero i.value) m ])

pub output_sums : List TxOutput → List (String × ℤ) → List (String × ℤ)
unfolding add_sum
output_sums [] m = m
output_sums (o ∷ os) m =
    output_sums os (elim (truthy_address o.address) [ none ↦ m | some a ↦ add_sum a o.value m ])

-- The deltas after a transaction.
pub tx_deltas : Bool → List TxInput → List TxOutput → List AddressDelta → List AddressDelta
unfolding bump_inputs bump_outputs net_outputs net_inputs input_sums output_sums
tx_deltas is_coinstake is os es =
    let bumped = bump_outputs (not is_coinstake) os (bump_inputs (not is_coinstake) is es) in
    let cs_in = input_sums is [] in
    let cs_out = output_sums os [] in
    if is_coinstake then net_inputs cs_in cs_out (net_outputs cs_out cs_in bumped) else bumped

-- `tx.vin.length === 1 && typeof tx.vin[0].coinbase === 'string'`
abbrev pub is_coinbase_tx : BlockTx → Bool
is_coinbase_tx tx = elim tx.vins [
  | [] ↦ false
  | v ∷ vs ↦ elim vs [ [] ↦ elim v [ coinbase ↦ true | spends t k ↦ false ] | _ ∷ _ ↦ false ]
]

-- What the loop over the transactions collects.
pub record Bundle : Type 0 where
  pub tx_inputs : List TxInput
  pub tx_outputs : List TxOutput
  pub address_deltas : List AddressDelta

-- The block with what is collected from its transactions.
abbrev pub with_bundle : ParsedBlock → Bundle → ParsedBlock
with_bundle p b = record p {
  tx_inputs = b.tx_inputs;
  tx_outputs = b.tx_outputs;
  address_deltas = b.address_deltas;
}

module _ (prev_outputs : PrevOutputs) (is_pos : Bool) where
  pub process_tx : ℕ → BlockTx → Bundle → Bundle
  unfolding input_rows_from output_rows tx_deltas
  process_tx index tx b =
      let is = input_rows_from prev_outputs tx.txid 0 tx.vins in
      let os = output_rows tx.txid tx.vouts in
      let is_coinstake = is_pos && index == 1 && not (is_coinbase_tx tx) in
      record {
        tx_inputs = b.tx_inputs ++ is;
        tx_outputs = b.tx_outputs ++ os;
        address_deltas = tx_deltas is_coinstake is os b.address_deltas;
      }

  pub process_from : ℕ → List BlockTx → Bundle → Bundle
  unfolding process_tx
  process_from index [] b = b
  process_from index (tx ∷ txs) b = process_from (index + 1) txs (process_tx index tx b)

  pub process_transactions : List BlockTx → Bundle
  unfolding process_from
  process_transactions txs =
      process_from 0 txs (record { tx_inputs = []; tx_outputs = []; address_deltas = [] })
