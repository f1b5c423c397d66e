-- ===== src/Indexer/BlockWriter/Tests.antt =====
-- Tests of BlockWriter.ts, and the theorems at concrete inputs.
use grc_explorer.Common.{ℕ, ◌≡◌, refl, true, false, some, List, [], ◌∷◌, String, str_eq}
use grc_explorer.Common.Int.{pos, negsuc, ◌-ℤ◌, ◌+ℤ◌}
use grc_explorer.Parsed.{ParsedBlock, is_hex_64}
use grc_explorer.AddressState.Projection.{project}
use grc_explorer.Chain.{live, State}
use grc_explorer.Indexer.PhantomSpends.Outline.{input_keys}
use grc_explorer.Indexer.BlockWriter.{
  address_txs_of, movements, movement, output_movement, debit_movement, input_movement, named,
  flat_map, add_movements, add_movement, apply_blocks, interrupted, Write, write_inputs, last_from,
  insert_chain, dedupe_by_pk, set_row, insert_ignore, Progress, complete, slices, insert_slices,
  upsert, insert_update, same_key, in_tables, write_history,
}
use grc_explorer.Chunked.{chunked, chunks_from}
use grc_explorer.Indexer.BlockWriter.Store.{IsSynced}
use grc_explorer.Indexer.BlockWriter.Synced.{apply_blocks-IsSynced}
use grc_explorer.Indexer.BlockWriter.Recovery.{apply_blocks-interrupted}

-- The last of two rows with one key is inserted, at the place of the first.
deduped :
    insert_chain (λ a b. str_eq a b) complete ("b" ∷ "c" ∷ "b" ∷ []) ("a" ∷ "c" ∷ [])
    ≡ "a" ∷ "c" ∷ "b" ∷ []
unfolding insert_chain dedupe_by_pk set_row insert_ignore insert_slices chunked chunks_from
deduped = refl

abbrev hash_a : String
hash_a = "aaaaaaaaaaaaaaaaaaaaaaaaaaaaaaaaaaaaaaaaaaaaaaaaaaaaaaaaaaaaaaaa"

abbrev hash_b : String
hash_b = "bbbbbbbbbbbbbbbbbbbbbbbbbbbbbbbbbbbbbbbbbbbbbbbbbbbbbbbbbbbbbbbb"

abbrev hash_c : String
hash_c = "cccccccccccccccccccccccccccccccccccccccccccccccccccccccccccccccc"

abbrev block : ℕ → String → String → ParsedBlock
block height hash prev = record {
  block = record { height = height; hash = hash; prev_hash = prev; time = 1000 };
  tx_outputs =
      record { tx_id = hash; vout_n = 0; value = pos 7; address = some "alice" }
      ∷ record { tx_id = hash; vout_n = 1; value = pos 2; address = some "bob" }
      ∷ [];
  tx_inputs =
      record {
        tx_id = hash;
        vin_n = 0;
        prev_tx = prev;
        prev_vout = 0;
        address = some "alice";
        value = some (pos 9);
        is_phantom_spend = false;
      }
      ∷ [];
  address_deltas =
      record {
        address = "alice";
        delta = negsuc 1;
        received = pos 7;
        sent = pos 9;
        tx_ids = hash ∷ [];
      }
      ∷ record {
        address = "bob";
        delta = pos 2;
        received = pos 2;
        sent = pos 0;
        tx_ids = hash ∷ [];
      }
      ∷ [];
  polls = [];
  poll_options = [];
  is_superblock = false;
  other = λ t. [];
}

-- What alice gets back in the transaction goes off what it spends.
one_row :
    address_txs_of (block 5 "b" "a")
    ≡ record { address = "alice"; block_height = 5; tx_id = "b"; delta = negsuc 1 }
      ∷ record { address = "bob"; block_height = 5; tx_id = "b"; delta = pos 2 }
      ∷ []
unfolding address_txs_of movements flat_map output_movement input_movement debit_movement movement
    named add_movements add_movement ◌+ℤ◌ ◌-ℤ◌
one_row = refl

abbrev batch : List ParsedBlock
batch = block 5 hash_b hash_a ∷ block 6 hash_c hash_b ∷ []

abbrev state : State
state = record {
  db = record {
    blocks = record { height = 4; hash = hash_a; prev_hash = hash_a; time = 999 } ∷ [];
    address_balance_history = [];
    polls = [];
    poll_options = [];
    tx_inputs = [];
    address_txs = [];
    other = λ t. [];
    address_state = project [];
  };
  cursor = some (record { height = 4; hash = hash_a; status = live });
  effects = [];
}

state-IsSynced : IsSynced state.db state.cursor
unfolding last_from is_hex_64
state-IsSynced = record {
  chain = tt;
  tip = (refl, refl);
  hashes = (refl, tt);
  history = tt;
  projected = refl;
}

apply_blocks-IsSynced_example :
    IsSynced (apply_blocks true batch state).db (apply_blocks true batch state).cursor
unfolding last_from is_hex_64
apply_blocks-IsSynced_example =
    apply_blocks-IsSynced true batch state state-IsSynced ((refl, refl), ((refl, refl), tt))
      (
        record { hash = refl; all_named = (refl, (refl, tt)); unique = ((refl, tt), (tt, tt)) },
        (
          record { hash = refl; all_named = (refl, (refl, tt)); unique = ((refl, tt), (tt, tt)) },
          tt,
        ),
      )

-- An update on conflict keeps the place of the row.
updated :
    upsert same_key complete
      (record { height = 7; key = "b" } ∷ record { height = 7; key = "c" } ∷ [])
      (record { height = 2; key = "b" } ∷ [])
    ≡ record { height = 7; key = "b" } ∷ record { height = 7; key = "c" } ∷ []
unfolding upsert dedupe_by_pk set_row insert_update insert_slices chunked chunks_from
updated = refl

-- The first slice of the inputs and the event log are written, and the table of addresses is not.
abbrev early : Write → Progress
early write_inputs = slices 1
early write_history = complete
early _ = slices 0

apply_blocks-interrupted_example :
    apply_blocks false batch (interrupted (in_tables early) batch state)
    ≡ apply_blocks false batch state
unfolding input_keys
apply_blocks-interrupted_example =
    apply_blocks-interrupted false (in_tables early) batch state ((refl, tt), ((refl, tt), tt))
      ((refl, tt), (tt, tt))
