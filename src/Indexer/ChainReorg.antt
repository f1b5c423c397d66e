-- ===== src/Indexer/ChainReorg.antt =====
-- packages/grc-explorer/src/services/indexer/ChainReorgHandler.ts. The daemon is a function from a
-- height to the hash of its block there, `none` where the call fails; it does not change during a
-- run. The SQL queries are functions on the tables; their failures are left out. Calls of the
-- rollup job and of the edge cache, and the published event, are recorded in order.
pub mod ForkPoint
pub mod Rollback
pub mod Failure
pub mod Sweep
pub mod Synced
mod Tests
use grc_explorer.Common.{
  ℕ, zero, suc, ◌+◌, ◌-◌, ◌≤◌, Bool, true, false, not, ◌&&◌, ◌||◌, Option, none, some, List, [],
  ◌∷◌, ◌++◌, map, String, min, ltb, leb, ◌==◌, str_eq, if◌then◌else◌, keep, any, take,
}
use grc_explorer.AddressState.{WalletDelta, Table}
use grc_explorer.AddressState.Projection.{repair_address_state}
use grc_explorer.Parsed.{BlockRow}
use grc_explorer.Chain.{
  Cursor, Status, live, reorg, Db, Effect, refresh_rollups, purge_reorg_cache, chain_reorg, State,
  publish, set_cursor, delete_chain_rows,
}

pub record CursorPosition : Type 0 where
  pub height : ℕ
  pub hash : String

-- What is thrown.
pub data Error : Type 0 where
  cursor_missing too_deep rpc_failed : Error

pub data Result {ℓ} (A : Type ℓ) : Type ℓ where
  ok : A → Result A
  err : Error → Result A

abbrev pub Daemon : Type 0
Daemon = ℕ → Option String

-- `SELECT hash FROM blocks WHERE height = $h`
pub stored_hash : List BlockRow → ℕ → Option String
stored_hash [] h = none
stored_hash (b ∷ bs) h = if b.height == h then some b.hash else stored_hash bs h

-- `stored && stored === onchain`
pub hash_agrees : Option String → String → Bool
hash_agrees none onchain = false
hash_agrees (some stored) onchain = not (str_eq stored "") && str_eq stored onchain

-- `ORDER BY height`
pub insert_asc : BlockRow → List BlockRow → List BlockRow
insert_asc b [] = b ∷ []
insert_asc b (c ∷ cs) = if leb b.height c.height then b ∷ c ∷ cs else c ∷ insert_asc b cs

pub order_asc : List BlockRow → List BlockRow
unfolding insert_asc
order_asc [] = []
order_asc (b ∷ bs) = insert_asc b (order_asc bs)

pub insert_desc : BlockRow → List BlockRow → List BlockRow
insert_desc b [] = b ∷ []
insert_desc b (c ∷ cs) = if leb c.height b.height then b ∷ c ∷ cs else c ∷ insert_desc b cs

pub order_desc : List BlockRow → List BlockRow
unfolding insert_desc
order_desc [] = []
order_desc (b ∷ bs) = insert_desc b (order_desc bs)

-- The addresses of the event log at or above a height, less the empty one. (Which addresses are
-- listed matters, and not how often.)
pub collect_affected_addresses : ℕ → List WalletDelta → List String
collect_affected_addresses from history =
    map (λ (d : WalletDelta). d.address)
      (keep (λ d. leb from d.height && not (str_eq d.address "")) history)

-- `MIN(time)` over the blocks at or above a height, `null` where there is none.
pub abandoned_min_time : ℕ → List BlockRow → Option ℕ
abandoned_min_time from [] = none
abandoned_min_time from (b ∷ bs) =
    let rest = abandoned_min_time from bs in
    if leb from b.height then some (elim rest [ none ↦ b.time | some t ↦ min b.time t ]) else rest

pub collect_abandoned_hashes : ℕ → ℕ → List BlockRow → List String
unfolding order_asc
collect_abandoned_hashes from to blocks =
    if ltb to from
    then []
    else map (λ (b : BlockRow). b.hash)
        (order_asc (keep (λ b. leb from b.height && leb b.height to) blocks))

-- Everything that `handle` does once the fork is found.
pub roll_back : Cursor → CursorPosition → State → State
unfolding collect_affected_addresses abandoned_min_time collect_abandoned_hashes
roll_back cursor fork s =
    let from = fork.height + 1 in
    let abandoned = collect_abandoned_hashes from cursor.height s.db.blocks in
    let dirty = collect_affected_addresses from s.db.address_balance_history in
    let abandoned_from = abandoned_min_time from s.db.blocks in
    let db1 = delete_chain_rows from s.db in
    let db2 = record db1 {
      address_state = repair_address_state dirty db1.address_balance_history db1.address_state;
    } in
    let s1 = record s { db = db2 } in
    let s2 : State = elim abandoned_from [
      | none ↦ s1
      | some t ↦ publish (refresh_rollups t from) s1
    ] in
    let s3 = publish (purge_reorg_cache from) s2 in
    let s4 = set_cursor fork.height fork.hash live s3 in
    publish (chain_reorg fork.height (cursor.height - fork.height) abandoned) s4

-- What `handle` does with the result of the search from the cursor's height.
pub handle_fork : Cursor → Result (Option CursorPosition) → State → Result CursorPosition × State
handle_fork cursor (err e) s = (err e, s)
handle_fork cursor (ok none) s = (err too_deep, set_cursor cursor.height cursor.hash reorg s)
handle_fork cursor (ok (some fork)) s = (ok fork, roll_back cursor fork s)

-- `WHERE height >= $start ORDER BY height DESC LIMIT 20`
pub sweep_rows : ℕ → List BlockRow → List BlockRow
sweep_rows cursor_height blocks =
    take 20 (order_desc (keep (λ b. leb (cursor_height - 20) b.height) blocks))

abbrev pub is_live : Status → Bool
is_live live = true
is_live _ = false

-- The error that the handler throws, or nothing.
pub thrown : Result CursorPosition × State → Option Error × State
thrown (ok fork, s) = (none, s)
thrown (err e, s) = (some e, s)

module _ (max_reorg_depth : ℕ) (daemon : Daemon) where
  -- The loop of `findForkPoint`, with the rounds that are left; `ok none` is `null`.
  pub fork_walk : List BlockRow → ℕ → ℕ → ℕ → Result (Option CursorPosition)
  fork_walk blocks from zero walk = ok none
  fork_walk blocks from (suc left) walk =
      let next = fork_walk blocks from left (walk + 1) in
      if ltb from walk then ok none else elim (daemon (from - walk)) [
        | none ↦ err rpc_failed
        | some onchain ↦
            if hash_agrees (stored_hash blocks (from - walk)) onchain
            then ok (some (record { height = from - walk; hash = onchain }))
            else next
      ]

  -- `walk` goes from 0 to the depth, both included.
  pub find_fork_point : List BlockRow → ℕ → Result (Option CursorPosition)
  find_fork_point blocks from = fork_walk blocks from (max_reorg_depth + 1) 0

  pub handle : State → Result CursorPosition × State
  unfolding handle_fork
  handle s = elim s.cursor [
    | none ↦ (err cursor_missing, s)
    | some cursor ↦ handle_fork cursor (find_fork_point s.db.blocks cursor.height) s
  ]

  -- The loop of `safetySweep` over the rows: whether a row differs from the chain.
  pub drifted : List BlockRow → Result Bool
  drifted [] = ok false
  drifted (b ∷ bs) =
      let next = drifted bs in
      elim (daemon b.height) [
        | none ↦ err rpc_failed
        | some onchain ↦ if str_eq onchain b.hash then next else ok true
      ]

  -- The error of the sweep or of the handler, or nothing.
  pub sweep_result : Result Bool → State → Option Error × State
  sweep_result (err e) s = (some e, s)
  sweep_result (ok false) s = (none, s)
  sweep_result (ok true) s = thrown (handle s)

  pub safety_sweep : State → Option Error × State
  unfolding sweep_result
  safety_sweep s = elim s.cursor [
    | none ↦ (none, s)
    | some cursor ↦
        if is_live cursor.status
        then sweep_result (drifted (sweep_rows cursor.height s.db.blocks)) s
        else (none, s)
  ]
