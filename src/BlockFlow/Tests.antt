-- ===== src/BlockFlow/Tests.antt =====
-- Tests of blockFlow.ts, and the theorems at concrete inputs.
use mathlib.Core.List.Memᴰ
use grc_explorer.Common.{ℕ, String, ◌≡◌, ◌≢◌, refl, true, false, some, none, [], ◌∷◌, arith}
use grc_explorer.Common.Int.{pos, ◌+ℤ◌, ◌-ℤ◌, ◌≤ℤ◌}
use grc_explorer.BlockFlow.{FlowOutput, FlowTx, sum, tally_tx, tally_from, tally_flow, is_data}
use grc_explorer.BlockFlow.Mrc.{
  match_mrc_payouts, take_foundation, take_claimants, take_claimant, net, pick, spendable,
  rest_mrcs, pair_rest,
}
use grc_explorer.BlockFlow.Sums.{sum_over, amount_of}
use grc_explorer.BlockFlow.Sources.{total_in, total_out, input_addrs, data_flows, distinct}
use grc_explorer.BlockFlow.Coinstake.{
  vout1_addr, sidestakes, staker_of, matches_of, coinstake_flows, reward_flows, paid_flows,
  rest_flows, mrc_flows, mrc_flow, research_flow, sidestake_flow, is_sidestake,
}
use grc_explorer.BlockFlow.Categorize.{categorize_tx, flows_of}
use grc_explorer.BlockFlow.Conservation.{categorize_tx-standard, categorize_tx-coinstake}
use grc_explorer.BlockFlow.Payouts.{categorize_tx-payouts}
use grc_explorer.BlockFlow.Summary.{Holds, summarize_block, all_flows, summarize_block-Holds}

abbrev output : ℕ → ℕ → String → FlowOutput
output n value address = record {
  vout_n = n;
  value = pos value;
  address = address;
  script_type = "pubkeyhash";
}

-- Alice pays Bob 50 of 100, keeps 49 and leaves a fee of 1.
abbrev payment : FlowTx
payment = record {
  tx_id = "t";
  is_coinbase = false;
  is_coinstake = false;
  inputs = record { address = some "alice"; value = pos 100 } ∷ [];
  outputs = output 0 50 "bob" ∷ output 1 49 "alice" ∷ [];
  claim = none;
  mrcs = [];
  mandatory_sidestake_addresses = [];
  contracts = [];
}

-- A stake of 100 that mints 10, of which 3 go to another address, and collects 2.
abbrev stake : FlowTx
stake = record payment {
  is_coinstake = true;
  outputs = output 0 0 "" ∷ output 1 109 "alice" ∷ output 2 3 "carol" ∷ [];
  claim = some (record {
    cpid = none;
    block_subsidy = pos 10;
    research_subsidy = pos 0;
    magnitude = none;
    is_mrc = false;
    mrc_foundation_fees = none;
    mrc_staker_fees = none;
  });
}

abbrev as_is {ℓ} : {A : Type ℓ} → A → A
as_is x = x

categorize_tx-standard_example :
    sum_over amount_of (categorize_tx as_is as_is payment).flows ≡ total_in payment
categorize_tx-standard_example =
    categorize_tx-standard as_is as_is payment refl refl (unfold sum ◌+ℤ◌ in omega arith)

stake_totals : (categorize_tx as_is as_is stake).totals ≡ record {
  minted = pos 10;
  moved = pos 0;
  staked = pos 100;
  sidestaked = pos 3;
  fee = pos 2;
  data_records = 0;
}
unfolding categorize_tx flows_of coinstake_flows reward_flows paid_flows rest_flows mrc_flows
    research_flow data_flows sidestakes sidestake_flow is_sidestake matches_of match_mrc_payouts
    distinct input_addrs vout1_addr tally_tx tally_from tally_flow sum is_data ◌+ℤ◌ ◌-ℤ◌
stake_totals = refl

minted_small : (categorize_tx as_is as_is stake).totals.minted ≤ℤ total_out stake -ℤ total_in stake
unfolding sum ◌+ℤ◌ ◌-ℤ◌
minted_small = rw stake_totals (omega arith)

categorize_tx-coinstake_example :
    (categorize_tx as_is as_is stake).totals.minted +ℤ (categorize_tx as_is as_is stake).totals.fee
    ≡ total_out stake -ℤ total_in stake
categorize_tx-coinstake_example =
    categorize_tx-coinstake as_is as_is stake refl (omega arith) (omega arith)
      (unfold sum ◌+ℤ◌ in omega arith) minted_small

-- The stake also pays an MRC of 4.
abbrev mrc_stake : FlowTx
mrc_stake = record stake {
  outputs = output 0 0 "" ∷ output 1 109 "alice" ∷ output 2 3 "carol" ∷ output 3 4 "dave" ∷ [];
  mrcs =
      record {
        cpid = none;
        research_subsidy = pos 4;
        fee = some (pos 0);
        magnitude = none;
        beacon_addresses = [];
      }
      ∷ [];
}

categorize_tx-payouts_example :
    (mrc_flow
      (record {
        cpid = none;
        research_subsidy = pos 4;
        fee = some (pos 0);
        magnitude = none;
        beacon_addresses = [];
      })
      (some (output 3 4 "dave"))).vout_idx
    ≢ some 2
unfolding categorize_tx flows_of coinstake_flows reward_flows paid_flows rest_flows mrc_flows
    mrc_flow research_flow data_flows sidestakes sidestake_flow is_sidestake matches_of
    match_mrc_payouts distinct input_addrs vout1_addr sum is_data ◌+ℤ◌ ◌-ℤ◌ take_foundation
    take_claimants take_claimant net pick spendable rest_mrcs pair_rest
categorize_tx-payouts_example =
    categorize_tx-payouts as_is as_is mrc_stake
      (sidestake_flow (staker_of (input_addrs mrc_stake)) [] (output 2 3 "carol")) _ 2 refl
      (Memᴰ.tail (Memᴰ.tail (Memᴰ.tail (Memᴰ.tail (Memᴰ.head refl)))))
      (Memᴰ.tail (Memᴰ.tail (Memᴰ.head refl))) refl refl refl

summarize_block-Holds_example :
    Holds
      (summarize_block 7 (categorize_tx as_is as_is stake ∷ categorize_tx as_is as_is payment ∷ []))
      (tally_tx
        (all_flows (categorize_tx as_is as_is stake ∷ categorize_tx as_is as_is payment ∷ [])))
summarize_block-Holds_example =
    summarize_block-Holds 7
      (categorize_tx as_is as_is stake ∷ categorize_tx as_is as_is payment ∷ [])
