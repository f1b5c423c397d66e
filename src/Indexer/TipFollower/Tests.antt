-- ===== src/Indexer/TipFollower/Tests.antt =====
-- Tests of TipFollower.ts, and the theorems at concrete inputs.
use grc_explorer.Common.{
  ℕ, zero, suc, ◌+◌, ◌≡◌, refl, sym, ap, ◌∙◌, subst, true, false, some, [], ◌∷◌, String, leb,
  if◌then◌else◌, arith,
}
use grc_explorer.Parsed.{VerboseBlock, ParsedBlock, is_hex_64}
use grc_explorer.AddressState.Projection.{project}
use grc_explorer.Chain.{live, Db, State}
use grc_explorer.Indexer.BlockWriter.{last_from}
use grc_explorer.Indexer.BlockWriter.Store.{IsHash, IsSynced}
use grc_explorer.Indexer.TipFollower.{Round, finished, insert_block, sort_blocks, tick}
use grc_explorer.Indexer.TipFollower.Invariant.{
  IsRun, AnswersRuns, HasDistinctDeltas, tick-IsSynced,
}
use grc_explorer.Indexer.TipFollower.CatchUp.{
  IsLinked, range, AnswersAll, cursor_at, place_at, tick-reaches,
}

abbrev some_hash : String
some_hash = "aaaaaaaaaaaaaaaaaaaaaaaaaaaaaaaaaaaaaaaaaaaaaaaaaaaaaaaaaaaaaaaa"

some_hash-IsHash : IsHash some_hash
unfolding is_hex_64
some_hash-IsHash = refl

abbrev chain : ℕ → VerboseBlock
chain h = record {
  height = h;
  hash = some_hash;
  previousblockhash = some some_hash;
  time = 1000 + h;
}

chain-IsLinked : IsLinked chain
chain-IsLinked = record { height = λ h. refl; prev = λ h. refl }

sorted : (from count : ℕ) → sort_blocks (range chain from count) ≡ range chain from count
unfolding sort_blocks insert_block
sorted from zero = refl
sorted from (suc zero) = refl
sorted from (suc (suc count)) =
    let first : leb from (from + 1) ≡ true = ground arith in
    let rest = range chain (from + 1 + 1) count in
    ap (insert_block (chain from)) (sorted (from + 1) (suc count))
    ∙ ap
        (λ b.
          if b
          then chain from ∷ chain (from + 1) ∷ rest
          else chain (from + 1) ∷ insert_block (chain from) rest)
        first

range-IsRun : (from count : ℕ) → IsRun from (range chain from count)
range-IsRun from zero = tt
range-IsRun from (suc count) = (refl, some_hash-IsHash, range-IsRun (from + 1) count)

abbrev round : Round
round = record {
  get_blocks_batch = λ start count. some (range chain start count);
  daemon = λ h. some some_hash;
}

round-AnswersAll : AnswersAll chain round
round-AnswersAll start count = (range chain start count, refl, sorted start count)

round-AnswersRuns : AnswersRuns round
round-AnswersRuns start count batch e =
    let same : range chain start count ≡ batch = cc in
    subst (λ l. IsRun start (sort_blocks l)) same
      (subst (IsRun start) (sym (sorted start count)) (range-IsRun start count))

abbrev contents : Db → VerboseBlock → ParsedBlock
contents db b = record {
  block = record { height = b.height; hash = b.hash; prev_hash = ""; time = b.time };
  tx_outputs = [];
  tx_inputs = [];
  address_deltas = [];
  polls = [];
  poll_options = [];
  is_superblock = false;
  other = λ t. [];
}

abbrev state : State
state = record {
  db = record {
    blocks = record { height = 4; hash = some_hash; prev_hash = some_hash; time = 1004 } ∷ [];
    address_balance_history = [];
    polls = [];
    poll_options = [];
    tx_inputs = [];
    address_txs = [];
    other = λ t. [];
    address_state = project [];
  };
  cursor = some (record { height = 4; hash = some_hash; status = live });
  effects = [];
}

state-IsSynced : IsSynced state.db state.cursor
unfolding last_from is_hex_64
state-IsSynced = record {
  chain = tt;
  tip = (refl, refl);
  hashes = (refl, tt);
  history = tt;
  projected = refl;
}

contents-HasDistinctDeltas : HasDistinctDeltas contents
contents-HasDistinctDeltas db b = (tt, tt)

tick-IsSynced_example :
    IsSynced
      (tick 100 contents (some 6) (round ∷ []) state).1.db
      (tick 100 contents (some 6) (round ∷ []) state).1.cursor
tick-IsSynced_example =
    tick-IsSynced 100 contents contents-HasDistinctDeltas (some 6) (round ∷ []) state
      (round-AnswersRuns, tt) state-IsSynced

tick-reaches_example :
    ((tick 100 contents (some 36) (round ∷ []) state).0 ≡ finished (place_at chain 36))
    × ((tick 100 contents (some 36) (round ∷ []) state).1.cursor ≡ some (cursor_at chain 36))
tick-reaches_example =
    tick-reaches chain 100 contents chain-IsLinked (round ∷ []) 36 4 state (round-AnswersAll, tt)
      refl (omega arith) (omega arith) (omega arith)
