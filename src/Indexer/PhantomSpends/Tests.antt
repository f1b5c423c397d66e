-- ===== src/Indexer/PhantomSpends/Tests.antt =====
-- Tests of PhantomSpendDetector.ts, and the theorems at concrete inputs.
use grc_explorer.Common.{ℕ, String, ◌≡◌, refl, true, false, some, [], ◌∷◌, All}
use grc_explorer.Common.Int.{pos, negsuc, ◌+ℤ◌, ◌-ℤ◌}
use grc_explorer.Indexer.PhantomSpends.{
  TxInput, AddressDelta, ParsedBlock, mark_phantom_spends, mark_blocks, mark_inputs, is_phantom,
  claimed_by, has_key, credit, credit_at, credit_entry,
}
use grc_explorer.Indexer.PhantomSpends.Claims.{
  batch_spenders, AreDistinct, IsFree, mark_phantom_spends-AreDistinct,
}
use grc_explorer.Indexer.PhantomSpends.Credits.{
  delta_at, has_entry, marked_debits, phantoms, mark_inputs-delta,
}

abbrev input : String → ℕ → TxInput
input tx n = record {
  tx_id = tx;
  vin_n = n;
  prev_tx = "source";
  prev_vout = 0;
  address = some "alice";
  value = some (pos 5);
  is_phantom_spend = false;
}

abbrev entry : AddressDelta
entry = record {
  address = "alice";
  delta = negsuc 9;
  received = pos 0;
  sent = pos 10;
  tx_ids = "t" ∷ "u" ∷ [];
}

-- The outpoint is spent twice in a block.
abbrev twice : ParsedBlock
twice = record {
  block = record { height = 1; hash = "b"; prev_hash = "a"; time = 1000 };
  tx_outputs = [];
  tx_inputs = input "t" 0 ∷ input "u" 0 ∷ [];
  address_deltas = entry ∷ [];
  polls = [];
  poll_options = [];
  is_superblock = false;
  other = λ t. [];
}

second_is_marked :
    mark_phantom_spends [] (twice ∷ [])
    ≡ record twice {
      tx_inputs = input "t" 0 ∷ record (input "u" 0) { is_phantom_spend = true } ∷ [];
      address_deltas = record entry { delta = negsuc 4; sent = pos 5 } ∷ [];
    }
      ∷ []
unfolding mark_phantom_spends mark_blocks mark_inputs is_phantom claimed_by has_key credit credit_at
    credit_entry ◌+ℤ◌ ◌-ℤ◌
second_is_marked = refl

mark_phantom_spends-AreDistinct_example :
    AreDistinct (batch_spenders (mark_phantom_spends (input "t" 0 ∷ []) (twice ∷ [])))
    × All
        (IsFree (input "t" 0 ∷ []) [])
        (batch_spenders (mark_phantom_spends (input "t" 0 ∷ []) (twice ∷ [])))
mark_phantom_spends-AreDistinct_example =
    mark_phantom_spends-AreDistinct (input "t" 0 ∷ []) (twice ∷ [])

mark_inputs-delta_example :
    delta_at "alice" (mark_inputs [] twice.tx_inputs (entry ∷ []) []).1
    ≡ delta_at "alice" (entry ∷ [])
      +ℤ marked_debits "alice" (phantoms [] twice.tx_inputs []) twice.tx_inputs
mark_inputs-delta_example =
    mark_inputs-delta "alice" [] twice.tx_inputs (entry ∷ []) [] (unfold has_entry in refl)
