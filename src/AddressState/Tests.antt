-- ===== src/AddressState/Tests.antt =====
-- Tests of addressState.ts, and the theorems at concrete inputs.
use grc_explorer.Common.{ℕ, ◌≡◌, refl, none, some, List, [], ◌∷◌, ◌++◌, String, keep, if◌then◌else◌}
use grc_explorer.Common.Int.{pos, ◌+ℤ◌}
use grc_explorer.AddressState.{
  WalletDelta, Table, is_fresh, last_seen, is_after, aggregate, add_delta, new_agg, bump,
  upsert_all, upsert_row, merge, apply_address_state_deltas,
}
use grc_explorer.AddressState.Batch.{upsert_each, apply-eq-upsert_each}
use grc_explorer.AddressState.Replay.{apply_idempotent}
use grc_explorer.AddressState.Projection.{
  project, contains, repair_address_state, repair_address_state_lem, apply-project,
}

abbrev received_at : String → ℕ → ℕ → WalletDelta
received_at a n h = record {
  address = a;
  delta = pos n;
  received = pos n;
  sent = pos 0;
  tx_count_delta = 1;
  height = h;
}

abbrev history : List WalletDelta
history = received_at "alice" 50 3 ∷ received_at "bob" 7 4 ∷ []

abbrev batch : List WalletDelta
batch = received_at "alice" 5 5 ∷ received_at "bob" 9 4 ∷ received_at "alice" 1 6 ∷ []

abbrev empty : Table
empty a = none

alice_twice :
    apply_address_state_deltas batch empty "alice"
    ≡ some (record {
      balance = pos 6;
      total_received = pos 6;
      total_sent = pos 0;
      tx_count = 2;
      first_seen_block = some 5;
      last_seen_block = some 6;
    })
unfolding apply_address_state_deltas aggregate add_delta upsert_all upsert_row merge new_agg bump
    is_fresh last_seen is_after ◌+ℤ◌
alice_twice = refl

apply-eq-upsert_each_example :
    apply_address_state_deltas batch (project history)
    ≡ upsert_each (keep (is_fresh (project history)) batch) (project history)
apply-eq-upsert_each_example = apply-eq-upsert_each batch (project history)

apply_idempotent_example :
    apply_address_state_deltas batch (apply_address_state_deltas batch (project history))
    ≡ apply_address_state_deltas batch (project history)
apply_idempotent_example = apply_idempotent batch (project history)

repair_address_state_lem_example :
    repair_address_state ("alice" ∷ []) history empty "alice"
    ≡ (if contains "alice" ("alice" ∷ []) then project history "alice" else empty "alice")
repair_address_state_lem_example = repair_address_state_lem ("alice" ∷ []) history empty "alice"

apply-project_example :
    apply_address_state_deltas batch (project history)
    ≡ project (history ++ keep (is_fresh (project history)) batch)
apply-project_example = apply-project batch history
