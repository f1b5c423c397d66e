-- ===== src/Indexer/ChainReorg/Tests.antt =====
-- Tests of ChainReorgHandler.ts, and the theorems at concrete inputs.
use grc_explorer.Common.{
  ℕ, ◌+◌, ◌≡◌, ◌≤◌, ◌⊎◌, refl, true, false, none, some, List, [], ◌∷◌, String, ◌==◌, if◌then◌else◌,
  arith, All,
}
use grc_explorer.Common.Int.{pos}
use grc_explorer.AddressState.{WalletDelta}
use grc_explorer.AddressState.Projection.{project}
use grc_explorer.Parsed.{BlockRow}
use grc_explorer.Chain.{Cursor, Db, State, live, delete_chain_rows}
use grc_explorer.Chain.Deletion.{IsBelow, HasPoll, delete_chain_rows-HasPoll}
use grc_explorer.Indexer.ChainReorg.{
  CursorPosition, too_deep, ok, err, Daemon, stored_hash, hash_agrees, fork_walk, find_fork_point,
  handle_fork, handle, safety_sweep, sweep_result, sweep_rows, drifted, thrown, order_desc,
  insert_desc,
}
use grc_explorer.Indexer.ChainReorg.ForkPoint.{
  Agrees, find_fork_point-Agrees, find_fork_point-highest, find_fork_point-found,
}
use grc_explorer.Indexer.ChainReorg.Rollback.{handle-IsBelow, handle-project}
use grc_explorer.Indexer.ChainReorg.Failure.{Failure, handle-Failure}
use grc_explorer.Indexer.ChainReorg.Sweep.{Matches, safety_sweep-cases}

abbrev block : ℕ → String → BlockRow
block h hash = record { height = h; hash = hash; prev_hash = ""; time = 1000 + h }

-- The chain forked behind height 2.
abbrev rows : List BlockRow
rows = block 1 "a" ∷ block 2 "b" ∷ block 3 "c" ∷ block 4 "d" ∷ []

abbrev chain : Daemon
chain h = some (if h == 1 then "a" else if h == 2 then "b" else if h == 3 then "C" else "D")

abbrev other_chain : Daemon
other_chain h = some "x"

abbrev delta_at : String → ℕ → WalletDelta
delta_at a h = record {
  address = a;
  delta = pos 1;
  received = pos 1;
  sent = pos 0;
  tx_count_delta = 1;
  height = h;
}

abbrev history : List WalletDelta
history = delta_at "alice" 1 ∷ delta_at "bob" 3 ∷ delta_at "alice" 4 ∷ []

abbrev db : Db
db = record {
  blocks = rows;
  address_balance_history = history;
  polls =
      record { poll_id = "p"; block_height = 2 } ∷ record { poll_id = "q"; block_height = 3 } ∷ [];
  poll_options = record { poll_id = "p"; idx = 0 } ∷ record { poll_id = "q"; idx = 0 } ∷ [];
  tx_inputs = [];
  address_txs = [];
  other = λ t. record { height = 4; key = "k" } ∷ [];
  address_state = project history;
}

abbrev cursor : Cursor
cursor = record { height = 4; hash = "d"; status = live }

abbrev state : State
state = record { db = db; cursor = some cursor; effects = [] }

abbrev fork : CursorPosition
fork = record { height = 2; hash = "b" }

delete_chain_rows-HasPoll_example :
    All (HasPoll (delete_chain_rows 3 db).polls) (delete_chain_rows 3 db).poll_options
delete_chain_rows-HasPoll_example = delete_chain_rows-HasPoll 3 db (refl, (refl, tt))

found_fork : find_fork_point 10 chain rows 4 ≡ ok (some fork)
unfolding find_fork_point fork_walk stored_hash hash_agrees
found_fork = refl

found_none : find_fork_point 1 other_chain rows 4 ≡ ok none
unfolding find_fork_point fork_walk stored_hash hash_agrees
found_none = refl

agrees_at : hash_agrees (stored_hash rows 1) "a" ≡ true
unfolding stored_hash hash_agrees
agrees_at = refl

find_fork_point-Agrees_example : (2 ≤ 4) × (4 ≤ 2 + 10) × Agrees chain rows 2 "b"
find_fork_point-Agrees_example = find_fork_point-Agrees chain rows 10 4 fork found_fork

find_fork_point-highest_example : hash_agrees (stored_hash rows 3) "C" ≡ false
find_fork_point-highest_example =
    find_fork_point-highest chain rows 10 4 fork found_fork 3 "C" (omega arith) (omega arith) refl

find_fork_point-found_example :
    (f : CursorPosition) × (find_fork_point 10 chain rows 4 ≡ ok (some f)) × (1 ≤ f.height)
find_fork_point-found_example =
    find_fork_point-found chain rows 10 4 (λ h. (_, refl)) 1 "a" (omega arith) (omega arith)
      (record { onchain = refl; stored = agrees_at })

handled : handle 10 chain state ≡ (ok fork, (handle 10 chain state).1)
unfolding handle handle_fork find_fork_point fork_walk stored_hash hash_agrees
handled = refl

handle-IsBelow_example :
    ((handle 10 chain state).1.cursor ≡ some (record { height = 2; hash = "b"; status = live }))
    × IsBelow 3 (handle 10 chain state).1.db
    × (stored_hash (handle 10 chain state).1.db.blocks 2 ≡ some "b")
    × (chain 2 ≡ some "b")
handle-IsBelow_example = handle-IsBelow 10 chain state fork (handle 10 chain state).1 handled

handle-project_example :
    (handle 10 chain state).1.db.address_state "alice"
    ≡ project (handle 10 chain state).1.db.address_balance_history "alice"
handle-project_example =
    handle-project 10 chain state fork (handle 10 chain state).1 handled refl "alice" refl

refused : handle 1 other_chain state ≡ (err too_deep, (handle 1 other_chain state).1)
unfolding handle handle_fork find_fork_point fork_walk stored_hash hash_agrees
refused = refl

handle-Failure_example : Failure 1 other_chain state too_deep (handle 1 other_chain state).1
handle-Failure_example =
    handle-Failure 1 other_chain state too_deep (handle 1 other_chain state).1 refused

-- Before the fork.
abbrev early : State
early = record state {
  db = record db { blocks = block 1 "a" ∷ block 2 "b" ∷ [] };
  cursor = some (record { height = 2; hash = "b"; status = live });
}

early-Matches : All (Matches 10 chain) (sweep_rows 2 early.db.blocks)
unfolding sweep_rows order_desc insert_desc
early-Matches = (refl, (refl, tt))

swept : safety_sweep 10 chain state ≡ (none, (safety_sweep 10 chain state).1)
unfolding safety_sweep sweep_result sweep_rows order_desc insert_desc drifted thrown handle
    handle_fork find_fork_point fork_walk stored_hash hash_agrees
swept = refl

safety_sweep-cases_example :
    (All (Matches 10 chain) (sweep_rows 4 rows) × ((safety_sweep 10 chain state).1 ≡ state))
    ⊎ (f : CursorPosition) × (handle 10 chain state ≡ (ok f, (safety_sweep 10 chain state).1))
safety_sweep-cases_example =
    safety_sweep-cases 10 chain state cursor (safety_sweep 10 chain state).1 refl refl swept
