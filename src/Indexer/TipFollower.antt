-- ===== src/Indexer/TipFollower.antt =====
-- packages/grc-explorer/src/services/indexer/TipFollower.ts. A tick takes the daemon's tip, `none`
-- where that call fails, and what the daemon answers in each round of its loop: the daemon may answer
-- differently in every round. The list of the rounds bounds the loop. What `parseBlock` makes of a
-- block besides its row, with the outputs that are looked up in the database, is a parameter; timing
-- and log lines are left out.
pub mod Invariant
pub mod CatchUp
mod Tests
use grc_explorer.Common.{
  ℕ, ◌+◌, ◌-◌, Bool, true, false, not, ◌&&◌, Option, none, some, List, [], ◌∷◌, String, min, ltb,
  leb, str_eq, if◌then◌else◌,
}
use grc_explorer.Common.Int.{ℤ, pos, negsuc}
use grc_explorer.Parsed.{VerboseBlock, ParsedBlock, build_block_row}
use grc_explorer.Chain.{Cursor, live, backfilling, Db, State, block_tip, publish, set_cursor}
use grc_explorer.Indexer.BlockWriter.{apply_block}
use grc_explorer.Indexer.BlockWriter.Store.{next_height}
use grc_explorer.Indexer.ChainReorg.{
  CursorPosition, Error, rpc_failed, Result, ok, err, Daemon, handle, is_live,
}

-- The answers of the daemon in a round: to `getBlocksBatch`, and to the calls of the handler.
pub record Round : Type 0 where
  pub get_blocks_batch : ℕ → ℕ → Option (List VerboseBlock)
  pub daemon : Daemon

-- `cursor` and `cursorHashLocal`; `none` is the height -1 with the empty hash.
abbrev pub Place : Type 0
Place = Option CursorPosition

abbrev pub place_of : Option Cursor → Place
place_of none = none
place_of (some c) = some (record { height = c.height; hash = c.hash })

-- `cursor + 1`
abbrev pub next_of : Place → ℕ
next_of none = 0
next_of (some p) = p.height + 1

-- How the loop ends: at a place, with an error, or not within the rounds.
pub data Outcome : Type 0 where
  finished : Place → Outcome
  failed : Error → Outcome
  running : Place → Outcome

-- `a.height - b.height`, a stable sort.
pub insert_block : VerboseBlock → List VerboseBlock → List VerboseBlock
insert_block b [] = b ∷ []
insert_block b (c ∷ cs) = if leb b.height c.height then b ∷ c ∷ cs else c ∷ insert_block b cs

pub sort_blocks : List VerboseBlock → List VerboseBlock
unfolding insert_block
sort_blocks [] = []
sort_blocks (b ∷ bs) = insert_block b (sort_blocks bs)

abbrev pub names : Option String → String → Bool
names none hash = false
names (some h) hash = str_eq h hash

-- `cursorHashLocal && block.previousblockhash !== cursorHashLocal`
abbrev pub is_fork : Place → VerboseBlock → Bool
is_fork none b = false
is_fork (some p) b = not (str_eq p.hash "") && not (names b.previousblockhash p.hash)

abbrev pub lag_threshold_for_rebackfill : ℕ
lag_threshold_for_rebackfill = 7000

abbrev pub catchup_span : ℕ
catchup_span = 32

-- `Math.min(tipHeight - cursor, CATCHUP_SPAN)`
abbrev pub span_of : ℕ → Place → ℕ
span_of tip place = min (tip + 1 - next_of place) catchup_span

-- The last event of a tick, or the error.
pub conclude : Outcome × State → Outcome × State
conclude (finished none, s) = (finished none, publish (block_tip (negsuc 0) "") s)
conclude (finished (some p), s) = (finished (some p), publish (block_tip (pos p.height) p.hash) s)
conclude (o, s) = (o, s)

-- The status of a cursor is not `live`.
abbrev pub is_paused : Option Cursor → Bool
is_paused none = false
is_paused (some c) = not (is_live c.status)

-- The cursor goes back to the backfiller, if there is one.
pub reenter_backfill : Option Cursor → State → State
reenter_backfill none s = s
reenter_backfill (some c) s = set_cursor c.height c.hash backfilling s

-- `cursorHash`
abbrev hash_of : Option Cursor → String
hash_of none = ""
hash_of (some c) = c.hash

-- What the handler returns, as the place after the loop over the batch.
pub reorged : Result CursorPosition × State → Result (Bool × Place) × State
reorged (ok fork, s) = (ok (true, some fork), s)
reorged (err e, s) = (err e, s)

abbrev pub is_empty : List VerboseBlock → Bool
is_empty [] = true
is_empty (b ∷ bs) = false

-- What the loop does after a batch: `continue` after a reorg, `break` after no blocks.
pub after_batch :
    Bool → (Place → State → Outcome × State) → Result (Bool × Place) × State → Outcome × State
after_batch empty next (err e, s) = (failed e, s)
after_batch empty next (ok (was_fork, place), s) =
    if empty && not was_fork then (finished place, s) else next place s

module _ (max_reorg_depth : ℕ) (contents : Db → VerboseBlock → ParsedBlock) where
  -- `parseBlock`
  unfoldable pub parse_block : Db → VerboseBlock → ParsedBlock
  parse_block db b = record (contents db b) { block = build_block_row b }

  -- The blocks of a batch in order: whether there was a reorg, and the place.
  pub follow : Daemon → List VerboseBlock → Place → State → Result (Bool × Place) × State
  unfolding reorged parse_block
  follow daemon [] place s = (ok (false, place), s)
  follow daemon (b ∷ bs) place s =
      let next =
        follow daemon bs (some (record { height = b.height; hash = b.hash }))
          (apply_block (parse_block s.db b) s) in
      if is_fork place b then reorged (handle max_reorg_depth daemon s) else next

  pub catch_up : List Round → ℕ → Place → State → Outcome × State
  unfolding follow sort_blocks after_batch
  catch_up [] tip place s =
      (if leb (tip + 1) (next_of place) then finished place else running place, s)
  catch_up (r ∷ rs) tip place s =
      let next = catch_up rs tip in
      if leb (tip + 1) (next_of place)
      then (finished place, s)
      else elim (r.get_blocks_batch (next_of place) (span_of tip place)) [
        | none ↦ (failed rpc_failed, s)
        | some batch ↦
            after_batch (is_empty batch) next (follow r.daemon (sort_blocks batch) place s)
      ]

  -- What a tick of a live or fresh indexer does at a tip of the daemon.
  pub tick_at : ℕ → List Round → State → Outcome × State
  unfolding catch_up conclude reenter_backfill
  tick_at tip rounds s =
      let place = place_of s.cursor in
      if leb (tip + 1) (next_of place)
      then (finished place, publish (block_tip (pos tip) (hash_of s.cursor)) s)
      else if ltb lag_threshold_for_rebackfill (tip + 1 - next_of place)
      then (finished place, reenter_backfill s.cursor s)
      else conclude (catch_up rounds tip place s)

  pub tick : Option ℕ → List Round → State → Outcome × State
  unfolding tick_at
  tick tip rounds s =
      if is_paused s.cursor
      then (finished (place_of s.cursor), s)
      else elim tip [ none ↦ (failed rpc_failed, s) | some t ↦ tick_at t rounds s ]
