-- ===== src/Indexer/Deltas/Tests.antt =====
-- Tests of the deltas of a block, and the theorems at concrete inputs.
use grc_explorer.Common.{
  ◌≡◌, refl, true, false, none, some, List, [], ◌∷◌, ◌++◌, str_eq, if◌then◌else◌, All,
}
use native.Mathlib.Omega.{arith}
use grc_explorer.Common.Int.{pos, ◌+ℤ◌, ◌-ℤ◌}
use grc_explorer.Parsed.{ParsedBlock}
use grc_explorer.Indexer.PhantomSpends.Credits.{delta_at}
use grc_explorer.Indexer.PhantomSpends.Outline.{addresses}
use grc_explorer.Indexer.BlockWriter.{address_txs_of}
use grc_explorer.Indexer.BlockWriter.AddressTxs.{moved}
use grc_explorer.Indexer.BlockWriter.Insert.{AreUnique}
use grc_explorer.Indexer.BlockWriter.Store.{IsNamed}
use grc_explorer.Indexer.Deltas.{
  coinbase, spends, BlockTx, PrevOutputs, process_transactions, process_from, process_tx,
  input_rows_from, input_row, output_rows, tx_deltas, bump_inputs, bump_outputs, bump_delta,
  bump_named, bump_at, bump_entry, add_id, input_sums, output_sums, add_sum, net_outputs,
  net_inputs, apply_net, net_entry, sum_at, with_bundle,
}
use grc_explorer.Indexer.Deltas.Fees.{
  block_totals, totals_from, add_totals, tx_in, input_total, output_total, spent_from, user_in,
  user_out, IsCovered, block_totals-spent,
}
use grc_explorer.Indexer.Deltas.Balance.{address_txs_of-delta_at}
use grc_explorer.Indexer.Deltas.Distinct.{process_transactions-AreUnique}

abbrev prev : PrevOutputs
prev t n =
    if str_eq t "old" then some (record { address = some "alice"; value = pos 100 }) else none

-- Alice stakes 100 and gets 110 back; 5 more go to bob.
abbrev txs : List BlockTx
txs =
    record { txid = "base"; vins = coinbase ∷ []; vouts = [] }
    ∷ record {
      txid = "stake";
      vins = spends "old" 0 ∷ [];
      vouts =
          record { n = 0; value = pos 0; address = none }
          ∷ record { n = 1; value = pos 110; address = some "alice" }
          ∷ record { n = 2; value = pos 5; address = some "bob" }
          ∷ [];
    }
    ∷ []

-- A coinstake counts as received what exceeds the stake.
netted :
    (process_transactions prev true txs).address_deltas
    ≡ record {
      address = "alice";
      delta = pos 10;
      received = pos 10;
      sent = pos 0;
      tx_ids = "stake" ∷ [];
    }
      ∷ record {
        address = "bob";
        delta = pos 5;
        received = pos 5;
        sent = pos 0;
        tx_ids = "stake" ∷ [];
      }
      ∷ []
unfolding process_transactions process_from process_tx input_rows_from input_row output_rows
    tx_deltas bump_inputs bump_outputs bump_delta bump_named bump_at bump_entry add_id input_sums
    output_sums add_sum net_outputs net_inputs apply_net net_entry sum_at ◌+ℤ◌ ◌-ℤ◌
netted = refl

abbrev block : ParsedBlock
block = record {
  block = record { height = 5; hash = "b"; prev_hash = "a"; time = 1000 };
  tx_outputs = [];
  tx_inputs = [];
  address_deltas = [];
  polls = [];
  poll_options = [];
  is_superblock = false;
  other = λ t. [];
}

address_txs_of-delta_at_example :
    moved "alice" (address_txs_of (with_bundle block (process_transactions prev true txs)))
    ≡ delta_at "alice" (process_transactions prev true txs).address_deltas
address_txs_of-delta_at_example = address_txs_of-delta_at "alice" prev true block txs

process_transactions-AreUnique_example :
    All IsNamed (addresses (process_transactions prev true txs).address_deltas)
    × AreUnique str_eq (addresses (process_transactions prev true txs).address_deltas)
process_transactions-AreUnique_example = process_transactions-AreUnique prev true txs

-- The coinstake, and a payment of 60 with a fee of 40.
abbrev paid : List BlockTx
paid =
    txs
    ++ record {
      txid = "pay";
      vins = spends "old" 0 ∷ [];
      vouts = record { n = 0; value = pos 60; address = some "bob" } ∷ [];
    }
      ∷ []

totals_paid : block_totals prev true paid ≡ record { value_moved = pos 60; fee_total = pos 40 }
unfolding block_totals totals_from add_totals tx_in input_total output_total input_rows_from
    input_row ◌+ℤ◌ ◌-ℤ◌
totals_paid = refl

paid-IsCovered : IsCovered prev true 0 paid
unfolding IsCovered user_in user_out tx_in input_total output_total input_rows_from input_row ◌+ℤ◌
paid-IsCovered = (omega arith, (omega arith, (omega arith, tt)))

block_totals-spent_example :
    (block_totals prev true paid).value_moved +ℤ (block_totals prev true paid).fee_total
    ≡ spent_from prev true 0 paid
block_totals-spent_example = block_totals-spent prev true paid paid-IsCovered
