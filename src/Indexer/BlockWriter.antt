-- ===== src/Indexer/BlockWriter.antt =====
-- packages/grc-explorer/src/services/indexer/BlockWriter.ts with the insertion of lib/db.ts that it
-- uses. A table is the list of its rows; `same` tells whether two rows have the same primary key. The
-- tables are written independently of each other, each in slices that are committed one by one: how
-- much of each is written is an argument, so that a batch that failed midway is a batch with some of
-- its writes. Of `mrc_requests` there are only the rows with a height. Rows that are only written are not
-- derived here, they are what the parsed block brings; the events of projects, sidestakes, beacons
-- and metrics, the mempool tables and the search index are left out.
pub mod Insert
pub mod Upsert
pub mod AddressTxs
pub mod Store
pub mod Batch
pub mod Synced
pub mod Recovery
mod Tests
use grc_explorer.Common.{
  ℕ, Bool, true, false, not, ◌&&◌, ◌||◌, Option, none, some, List, [], ◌∷◌, ◌++◌, map, String, min,
  ◌==◌, str_eq, if◌then◌else◌, any, length, take,
}
use grc_explorer.Chunked.{chunked}
use grc_explorer.Common.Int.{ℤ, pos, ◌+ℤ◌, ◌-ℤ◌}
use grc_explorer.Parsed.{
  BlockRow, PollRow, PollOption, HeightRow, OtherTable, mrc_requests, TxInput, TxOutput,
  AddressDelta, ParsedBlock,
}
use grc_explorer.AddressState.{WalletDelta, apply_address_state_deltas}
use grc_explorer.Chain.{
  Status, backfilling, Cursor, TxInputRow, AddressTxRow, Db, Effect, State, refresh_rollups,
  block_new, superblock_new, set_cursor,
}
use grc_explorer.Indexer.PhantomSpends.{mark_phantom_spends}

-- How much of a write is performed: all of it, or the first of its slices.
pub data Progress : Type 0 where
  complete : Progress
  slices : ℕ → Progress

abbrev pub performed {ℓ} : {A : Type ℓ} → Progress → List A → List A
performed complete cs = cs
performed (slices n) cs = take n cs

abbrev pub is_complete : Progress → Bool
is_complete complete = true
is_complete (slices n) = false

module _ {ℓ} {A : Type ℓ} (same : A → A → Bool) where
  -- `byKey.set(key, row)`: the place of the first row with the key, and the row of the last.
  pub set_row : A → List A → List A
  set_row r [] = r ∷ []
  set_row r (x ∷ xs) = if same x r then r ∷ xs else x ∷ set_row r xs

  pub dedupe_by_pk : List A → List A → List A
  unfolding set_row
  dedupe_by_pk m [] = m
  dedupe_by_pk m (r ∷ rs) = dedupe_by_pk (set_row r m) rs

  -- `INSERT IGNORE` of the rows in order.
  pub insert_ignore : List A → List A → List A
  insert_ignore [] t = t
  insert_ignore (r ∷ rs) t = insert_ignore rs (if any (λ x. same x r) t then t else t ++ r ∷ [])

  -- `ON DUPLICATE KEY UPDATE` of all columns.
  pub insert_update : List A → List A → List A
  unfolding set_row
  insert_update [] t = t
  insert_update (r ∷ rs) t = insert_update rs (set_row r t)

  -- The statements of `upsert`, one for each slice.
  pub insert_slices : (List A → List A → List A) → List (List A) → List A → List A
  insert_slices insert [] t = t
  insert_slices insert (c ∷ cs) t = insert_slices insert cs (insert c t)

  -- `upsert` with `onConflict: 'nothing'`, and how much of it is performed.
  pub insert_chain : Progress → List A → List A → List A
  unfolding dedupe_by_pk insert_ignore insert_slices
  insert_chain p rows t =
      insert_slices insert_ignore (performed p (chunked (dedupe_by_pk [] rows) 1000)) t

  -- `upsert` with an update on conflict.
  pub upsert : Progress → List A → List A → List A
  unfolding dedupe_by_pk insert_update insert_slices
  upsert p rows t =
      insert_slices insert_update (performed p (chunked (dedupe_by_pk [] rows) 1000)) t

-- The primary keys.
abbrev pub same_block : BlockRow → BlockRow → Bool
same_block a b = a.height == b.height

abbrev pub same_input : TxInputRow → TxInputRow → Bool
same_input a b = str_eq a.input.tx_id b.input.tx_id && a.input.vin_n == b.input.vin_n

abbrev pub same_address_tx : AddressTxRow → AddressTxRow → Bool
same_address_tx a b =
    str_eq a.address b.address && a.block_height == b.block_height && str_eq a.tx_id b.tx_id

abbrev pub same_delta : WalletDelta → WalletDelta → Bool
same_delta a b = str_eq a.address b.address && a.height == b.height

abbrev pub same_poll : PollRow → PollRow → Bool
same_poll a b = str_eq a.poll_id b.poll_id

abbrev pub same_option : PollOption → PollOption → Bool
same_option a b = str_eq a.poll_id b.poll_id && a.idx == b.idx

abbrev pub same_key : HeightRow → HeightRow → Bool
same_key a b = str_eq a.key b.key

-- `parsedList.flatMap(f)`
pub flat_map {ℓ κ} : {A : Type ℓ} {B : Type κ} → (A → List B) → List A → List B
flat_map f [] = []
flat_map f (x ∷ xs) = f x ++ flat_map f xs

-- One entry of `perTx` is found and changed, or added at the end.
pub add_movement : AddressTxRow → List AddressTxRow → List AddressTxRow
add_movement m [] = m ∷ []
add_movement m (r ∷ rs) =
    if same_address_tx r m
    then record r { delta = r.delta +ℤ m.delta } ∷ rs
    else r ∷ add_movement m rs

-- `!o.address`: the address that is neither `null` nor empty.
unfoldable pub named : Option String → Option String
named none = none
named (some a) = if str_eq a "" then none else some a

-- The movement of an address, if there is one.
pub movement : ℕ → String → Option String → ℤ → List AddressTxRow
movement height tx_id none value = []
movement height tx_id (some a) value =
    record { address = a; block_height = height; tx_id = tx_id; delta = value } ∷ []

pub output_movement : ℕ → TxOutput → List AddressTxRow
unfolding named movement
output_movement height o = movement height o.tx_id (named o.address) o.value

-- The movement of an input's address, where the value is known.
pub debit_movement : ℕ → String → Option String → Option ℤ → List AddressTxRow
unfolding movement
debit_movement height tx_id address none = []
debit_movement height tx_id address (some value) = movement height tx_id address (pos 0 -ℤ value)

pub input_movement : ℕ → TxInput → List AddressTxRow
unfolding named debit_movement
input_movement height i =
    if i.is_phantom_spend then [] else debit_movement height i.tx_id (named i.address) i.value

-- What moves in a block, the outputs before the inputs.
pub movements : ParsedBlock → List AddressTxRow
unfolding flat_map output_movement input_movement
movements p =
    flat_map (output_movement p.block.height) p.tx_outputs
    ++ flat_map (input_movement p.block.height) p.tx_inputs

pub add_movements : List AddressTxRow → List AddressTxRow → List AddressTxRow
unfolding add_movement
add_movements [] rs = rs
add_movements (m ∷ ms) rs = add_movements ms (add_movement m rs)

-- The entries of `perTx` of a block.
pub address_txs_of : ParsedBlock → List AddressTxRow
unfolding add_movements movements
address_txs_of p = add_movements (movements p) []

pub wallet_delta : ℕ → AddressDelta → WalletDelta
wallet_delta height e = record {
  address = e.address;
  delta = e.delta;
  received = e.received;
  sent = e.sent;
  tx_count_delta = length e.tx_ids;
  height = height;
}

unfoldable pub wallet_deltas : List ParsedBlock → List WalletDelta
unfolding flat_map
wallet_deltas = flat_map (λ p. map (wallet_delta p.block.height) p.address_deltas)

unfoldable pub input_rows : List ParsedBlock → List TxInputRow
unfolding flat_map
input_rows =
    flat_map (λ p. map (λ i. record { block_height = p.block.height; input = i }) p.tx_inputs)

-- The writes of a batch other than the one of `blocks`.
pub data Write : Type 0 where
  write_inputs write_address_txs write_history write_state write_polls write_options : Write
  write_other : OtherTable → Write

-- The rows of MRC requests are updated on conflict, those of the other tables are not.
pub insert_other : OtherTable → Progress → List HeightRow → List HeightRow → List HeightRow
insert_other mrc_requests = upsert same_key
insert_other _ = insert_chain same_key

-- The batch's writes of all tables but `blocks`, as far as they are performed. The projection is
-- written, in one statement, once the history is.
unfoldable pub write_tables : (Write → Progress) → List ParsedBlock → Db → Db
unfolding address_txs_of
write_tables done list db = record db {
  tx_inputs = insert_chain same_input (done write_inputs) (input_rows list) db.tx_inputs;
  address_txs =
      insert_chain same_address_tx (done write_address_txs) (flat_map address_txs_of list)
        db.address_txs;
  address_balance_history =
      insert_chain same_delta (done write_history) (wallet_deltas list) db.address_balance_history;
  address_state =
      if is_complete (done write_history) && is_complete (done write_state)
      then apply_address_state_deltas (wallet_deltas list) db.address_state
      else db.address_state;
  polls = insert_chain same_poll (done write_polls) (flat_map (λ p. p.polls) list) db.polls;
  poll_options =
      insert_chain same_option (done write_options) (flat_map (λ p. p.poll_options) list)
        db.poll_options;
  other = λ t. insert_other t (done (write_other t)) (flat_map (λ p. p.other t) list) (db.other t);
}

unfoldable pub insert_blocks : Progress → List ParsedBlock → Db → Db
insert_blocks done list db = record db {
  blocks = insert_chain same_block done (map (λ p. p.block) list) db.blocks;
}

-- `parsedList[parsedList.length - 1]` of the list with the given head.
unfoldable pub last_from {ℓ} : {A : Type ℓ} → A → List A → A
last_from x [] = x
last_from x (y ∷ ys) = last_from y ys

-- `parsedList.reduce((m, p) => Math.min(m, p.block.time), Infinity)` of a list with a head.
pub min_time : ℕ → List ParsedBlock → ℕ
min_time m [] = m
min_time m (p ∷ ps) = min_time (min m p.block.time) ps

-- The events of `fanoutBlockEvents`.
pub fanout_block_events : List ParsedBlock → List Effect
fanout_block_events [] = []
fanout_block_events (p ∷ ps) =
    let rest = fanout_block_events ps in
    block_new p.block.height p.block.hash
    ∷ (if p.is_superblock then superblock_new p.block.height p.block.hash ∷ rest else rest)

unfoldable pub run_post_commit : Bool → ParsedBlock → List ParsedBlock → State → State
unfolding min_time fanout_block_events
run_post_commit emit_live_events p ps s = record s {
  effects =
      s.effects
      ++ refresh_rollups (min_time p.block.time ps) p.block.height
        ∷ (if emit_live_events then fanout_block_events (p ∷ ps) else []);
}

-- `prev?.status ?? 'backfilling'`
unfoldable pub kept_status : Option Cursor → Status
kept_status none = backfilling
kept_status (some c) = c.status

abbrev pub every_write : Write → Progress
every_write w = complete

-- The stored inputs that the detector looks at.
unfoldable pub stored_inputs : Db → List TxInput
stored_inputs db = map (λ r. r.input) db.tx_inputs

-- The batch as the detector leaves it.
pub marked : List ParsedBlock → Db → List ParsedBlock
unfolding stored_inputs
marked list db = mark_phantom_spends (stored_inputs db) list

-- The database after the writes of a marked batch.
unfoldable pub commit : List ParsedBlock → Db → Db
commit list db = insert_blocks complete list (write_tables every_write list db)

-- What follows the writes of a marked batch.
unfoldable pub advance : Bool → List ParsedBlock → State → State
unfolding last_from run_post_commit kept_status
advance emit_live_events [] s = s
advance emit_live_events (p ∷ ps) s =
    let end = (last_from p ps).block in
    run_post_commit emit_live_events p ps (set_cursor end.height end.hash (kept_status s.cursor) s)

-- No blocks leave the state as it is. A deferred post-commit has the same effects, later.
pub apply_blocks : Bool → List ParsedBlock → State → State
unfolding marked
apply_blocks emit_live_events list s =
    let list' = marked list s.db in
    advance emit_live_events list' (record s { db = commit list' s.db })

-- Where a batch is cut off before the cursor moves: among the writes of the tables, or in the write
-- of `blocks`, which begins when those are complete.
pub data Cut : Type 0 where
  in_tables : (Write → Progress) → Cut
  in_blocks : Progress → Cut

-- The database after the writes up to the cut.
unfoldable pub cut_off : Cut → List ParsedBlock → Db → Db
cut_off (in_tables done) list db = write_tables done list db
cut_off (in_blocks done) list db = insert_blocks done list (write_tables every_write list db)

-- A batch that is cut off: the marks are set and some rows are written.
pub interrupted : Cut → List ParsedBlock → State → State
unfolding marked
interrupted cut list s = record s { db = cut_off cut (marked list s.db) s.db }

unfoldable pub apply_block : ParsedBlock → State → State
unfolding apply_blocks
apply_block p s = apply_blocks true (p ∷ []) s
