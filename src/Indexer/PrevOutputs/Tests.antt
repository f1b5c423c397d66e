-- ===== src/Indexer/PrevOutputs/Tests.antt =====
-- Tests of prevOutputs.ts, and its theorem at a concrete input.
use grc_explorer.Common.{ℕ, String, ◌≡◌, refl, some, none, List, [], ◌∷◌}
use grc_explorer.Common.Int.{pos}
use grc_explorer.Indexer.PhantomSpends.{has_key}
use grc_explorer.Indexer.PrevOutputs.{
  TxLite, Vin, OutputRow, build_prev_outputs_lookup_multi, block_refs, block_entries,
  pending_entries, stored_entries, tx_refs, vin_refs, vin_ref, tx_entries, vout_entries,
  batch_cache, is_wanted, cache_has, cache_get, set_all,
}
use grc_explorer.Indexer.PrevOutputs.Lookup.{
  or_else, last_entry, build_prev_outputs_lookup_multi_lem,
}

abbrev spends : String → ℕ → Vin
spends t n = record { txid = some t; vout = some n; coinbase = none }

-- The second transaction spends the first one's output, and one that is stored.
abbrev blocks : List (List (TxLite ℕ))
blocks =
    (record {
      txid = "a";
      vin = [];
      vout = record { n = 0; value = 5; addresses = "alice" ∷ [] } ∷ [];
    }
      ∷ record { txid = "b"; vin = spends "a" 0 ∷ spends "old" 1 ∷ []; vout = [] }
      ∷ [])
    ∷ []

abbrev stored : List OutputRow
stored = record { tx_id = "old"; vout_n = 1; address = ""; value = pos 9 } ∷ []

from_batch :
    build_prev_outputs_lookup_multi ℕ (λ v. pos v) blocks [] stored ("a", 0)
    ≡ some (record { address = some "alice"; value = pos 5 })
unfolding build_prev_outputs_lookup_multi block_refs block_entries pending_entries stored_entries
    tx_refs vin_refs vin_ref tx_entries vout_entries batch_cache is_wanted cache_has cache_get
    set_all has_key
from_batch = refl

from_store :
    build_prev_outputs_lookup_multi ℕ (λ v. pos v) blocks [] stored ("old", 1)
    ≡ some (record { address = none; value = pos 9 })
unfolding build_prev_outputs_lookup_multi block_refs block_entries pending_entries stored_entries
    tx_refs vin_refs vin_ref tx_entries vout_entries batch_cache is_wanted cache_has cache_get
    set_all has_key
from_store = refl

build_prev_outputs_lookup_multi_lem_example :
    build_prev_outputs_lookup_multi ℕ (λ v. pos v) blocks [] stored ("old", 1)
    ≡ or_else (last_entry (block_entries ℕ (λ v. pos v) blocks) ("old", 1)) (
        or_else
          (last_entry (pending_entries []) ("old", 1))
          (last_entry (stored_entries stored) ("old", 1)))
build_prev_outputs_lookup_multi_lem_example =
    build_prev_outputs_lookup_multi_lem ℕ (λ v. pos v) blocks [] stored ("old", 1)
      (unfold block_refs tx_refs vin_refs vin_ref has_key in refl)
