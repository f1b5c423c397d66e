-- ===== src/AddressState.antt =====
-- packages/grc-explorer/src/lib/addressState.ts: the running totals of each address. The table
-- `address_state` is keyed by the address, so it is a function from addresses to rows; the rows of
-- `address_balance_history` have the fields of a `WalletDelta`. Amounts are integers.
pub mod Batch
pub mod Replay
pub mod Projection
mod Tests
use grc_explorer.Common.{
  ℕ, ◌+◌, ◌<◌, Bool, true, false, ◌&&◌, ◌||◌, not, Option, none, some, List, [], ◌∷◌, String, min,
  max, ltb, str_eq, if◌then◌else◌, keep,
}
use grc_explorer.Common.Int.{ℤ, pos, ◌+ℤ◌}

-- `WalletState`, less its key.
pub record Wallet : Type 0 where
  pub balance : ℤ
  pub total_received : ℤ
  pub total_sent : ℤ
  pub tx_count : ℕ
  pub first_seen_block : Option ℕ
  pub last_seen_block : Option ℕ

pub record WalletDelta : Type 0 where
  pub address : String
  pub delta : ℤ
  pub received : ℤ
  pub sent : ℤ
  pub tx_count_delta : ℕ
  pub height : ℕ

pub record Agg : Type 0 where
  pub delta : ℤ
  pub received : ℤ
  pub sent : ℤ
  pub tx_count_delta : ℕ
  pub first_height : ℕ
  pub last_height : ℕ

abbrev pub Table : Type 0
Table = String → Option Wallet

-- The height in `lastSeen` for an address: absent without a row, and where the column is null.
pub last_seen : Option Wallet → Option ℕ
last_seen none = none
last_seen (some w) = w.last_seen_block

-- `seen === undefined || height > seen`
pub is_after : Option ℕ → ℕ → Bool
is_after none height = true
is_after (some seen) height = ltb seen height

pub is_fresh : Table → WalletDelta → Bool
unfolding last_seen is_after
is_fresh t d = is_after (last_seen (t d.address)) d.height

pub new_agg : WalletDelta → Agg
new_agg d = record {
  delta = d.delta;
  received = d.received;
  sent = d.sent;
  tx_count_delta = d.tx_count_delta;
  first_height = d.height;
  last_height = d.height;
}

-- The update of the entry that was found.
pub bump : Agg → WalletDelta → Agg
bump g d = record {
  delta = g.delta +ℤ d.delta;
  received = g.received +ℤ d.received;
  sent = g.sent +ℤ d.sent;
  tx_count_delta = g.tx_count_delta + d.tx_count_delta;
  first_height = if ltb d.height g.first_height then d.height else g.first_height;
  last_height = if ltb g.last_height d.height then d.height else g.last_height;
}

-- The map `agg`, in the order of insertion.
pub add_delta : WalletDelta → List (String × Agg) → List (String × Agg)
unfolding new_agg bump
add_delta d [] = (d.address, new_agg d) ∷ []
add_delta d ((k, g) ∷ m) = if str_eq k d.address then (k, bump g d) ∷ m else (k, g) ∷ add_delta d m

pub aggregate : List (String × Agg) → List WalletDelta → List (String × Agg)
aggregate m [] = m
aggregate m (d ∷ ds) = aggregate (add_delta d m) ds

-- `COALESCE(x, y)`
abbrev pub coalesce : Option ℕ → ℕ → ℕ
coalesce none y = y
coalesce (some x) y = x

-- One row of the upsert: the values are inserted, or added to the row that is there.
pub merge : Option Wallet → Agg → Wallet
merge none g = record {
  balance = g.delta;
  total_received = g.received;
  total_sent = g.sent;
  tx_count = g.tx_count_delta;
  first_seen_block = some g.first_height;
  last_seen_block = some g.last_height;
}
merge (some w) g = record {
  balance = w.balance +ℤ g.delta;
  total_received = w.total_received +ℤ g.received;
  total_sent = w.total_sent +ℤ g.sent;
  tx_count = w.tx_count + g.tx_count_delta;
  first_seen_block = some (min (coalesce w.first_seen_block g.first_height) g.first_height);
  last_seen_block = some (max (coalesce w.last_seen_block 0) g.last_height);
}

pub upsert_row : String → Agg → Table → Table
upsert_row k g t a = if str_eq k a then some (merge (t a) g) else t a

pub upsert_all : List (String × Agg) → Table → Table
upsert_all [] t = t
upsert_all ((k, g) ∷ m) t = upsert_all m (upsert_row k g t)

-- The early returns for no deltas and for no fresh ones leave the table, as an upsert of no rows
-- does.
pub apply_address_state_deltas : List WalletDelta → Table → Table
apply_address_state_deltas ds t = upsert_all (aggregate [] (keep (is_fresh t) ds)) t
