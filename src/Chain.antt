-- ===== src/Chain.antt =====
-- The indexer's store: the cursor of packages/grc-explorer/src/lib/redis.ts, the chain tables and
-- their deletion by height of lib/chainTables.ts, and what is sent to the other parts of the
-- process. A table is the list of its rows; only the columns that the indexer's control flow reads
-- are kept.
pub mod Deletion
use grc_explorer.Common.{
  ℕ, Bool, not, ◌&&◌, ◌||◌, Option, none, some, List, [], ◌∷◌, ◌++◌, String, ltb, leb, str_eq, keep,
  any, ◌==◌,
}
use grc_explorer.Common.Int.{ℤ}
use grc_explorer.AddressState.{WalletDelta, Table}
use grc_explorer.Parsed.{BlockRow, PollRow, PollOption, HeightRow, OtherTable, TxInput}

pub data Status : Type 0 where
  live backfilling reorg : Status

-- `IndexerCursor`, less the time of its last update.
pub record Cursor : Type 0 where
  pub height : ℕ
  pub hash : String
  pub status : Status

-- A row of `tx_inputs` and of `address_txs`.
pub record TxInputRow : Type 0 where
  pub block_height : ℕ
  pub input : TxInput

pub record AddressTxRow : Type 0 where
  pub address : String
  pub block_height : ℕ
  pub tx_id : String
  pub delta : ℤ

pub record Db : Type 0 where
  pub blocks : List BlockRow
  pub address_balance_history : List WalletDelta
  pub polls : List PollRow
  pub poll_options : List PollOption
  pub tx_inputs : List TxInputRow
  pub address_txs : List AddressTxRow
  pub other : OtherTable → List HeightRow
  pub address_state : Table

-- Calls of the rollup job and of the edge cache, and published events, in order.
pub data Effect : Type 0 where
  refresh_rollups : ℕ → ℕ → Effect
  purge_reorg_cache : ℕ → Effect
  chain_reorg : ℕ → ℕ → List String → Effect
  block_tip : ℤ → String → Effect
  block_new : ℕ → String → Effect
  superblock_new : ℕ → String → Effect
  backfill_progress : ℕ → Effect

pub record State : Type 0 where
  pub db : Db
  pub cursor : Option Cursor
  pub effects : List Effect

unfoldable pub publish : Effect → State → State
publish e s = record s { effects = s.effects ++ e ∷ [] }

unfoldable pub set_cursor : ℕ → String → Status → State → State
set_cursor height hash status s = record s {
  cursor = some (record { height = height; hash = hash; status = status });
}

-- `poll_id IN (SELECT poll_id FROM polls WHERE block_height >= $h)`
pub poll_is_at_or_above : ℕ → List PollRow → String → Bool
poll_is_at_or_above from polls id = any (λ p. leb from p.block_height && str_eq p.poll_id id) polls

-- The options of the deleted polls go first, then the rows of each table.
unfoldable pub delete_chain_rows : ℕ → Db → Db
delete_chain_rows from db = record {
  blocks = keep (λ b. ltb b.height from) db.blocks;
  address_balance_history = keep (λ d. ltb d.height from) db.address_balance_history;
  polls = keep (λ p. ltb p.block_height from) db.polls;
  poll_options = keep (λ o. not (poll_is_at_or_above from db.polls o.poll_id)) db.poll_options;
  tx_inputs = keep (λ r. ltb r.block_height from) db.tx_inputs;
  address_txs = keep (λ r. ltb r.block_height from) db.address_txs;
  other = λ t. keep (λ r. ltb r.height from) (db.other t);
  address_state = db.address_state;
}
