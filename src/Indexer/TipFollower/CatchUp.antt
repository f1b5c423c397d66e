-- ===== src/Indexer/TipFollower/CatchUp.antt =====
-- TipFollower.ts reaches the tip of a chain that does not change.
use grc_explorer.Common.{
  ℕ, zero, suc, ◌+◌, ◌-◌, ◌*◌, ◌≤◌, ◌<◌, ◌≡◌, refl, ap, ◌∙◌, Bool, true, false, Option, none, some,
  List, [], ◌∷◌, ltb, leb, str_eq_refl, if◌then◌else◌, All, length, arith, Bool-cases, inl, inr,
}
use grc_explorer.Common.Int.{pos}
use grc_explorer.Parsed.{VerboseBlock, ParsedBlock, build_block_row}
use grc_explorer.Chain.{Cursor, live, Db, State, block_tip, publish}
use grc_explorer.Indexer.BlockWriter.{apply_block, last_from, kept_status}
use grc_explorer.Indexer.BlockWriter.Synced.{apply_blocks-cursor}
use grc_explorer.Indexer.ChainReorg.{rpc_failed, Result, ok, Daemon, handle}
use grc_explorer.Indexer.TipFollower.{
  Round, Place, place_of, next_of, Outcome, finished, failed, running, sort_blocks, names, is_fork,
  lag_threshold_for_rebackfill, span_of, conclude, is_paused, reenter_backfill, hash_of, reorged,
  is_empty, after_batch, parse_block, follow, catch_up, tick_at, tick,
}

-- Blocks at all heights, each of which names the hash of the one below it.
pub record IsLinked (chain : ℕ → VerboseBlock) : Type 0 where
  pub height : (h : ℕ) → (chain h).height ≡ h
  pub prev : (h : ℕ) → (chain (h + 1)).previousblockhash ≡ some (chain h).hash

module _ (chain : ℕ → VerboseBlock) where
  -- The blocks from a height on.
  abbrev pub range : ℕ → ℕ → List VerboseBlock
  range from zero = []
  range from (suc count) = chain from ∷ range (from + 1) count

  -- The daemon returns all blocks that it is asked for, perhaps in another order.
  abbrev pub AnswersAll : Round → Type 0
  AnswersAll r =
      (start count : ℕ)
      → (batch : List VerboseBlock) × (r.get_blocks_batch start count ≡ some batch)
        × (sort_blocks batch ≡ range start count)

  abbrev pub cursor_at : ℕ → Cursor
  cursor_at h = record { height = h; hash = (chain h).hash; status = live }

  abbrev pub place_at : ℕ → Place
  place_at h = some (record { height = h; hash = (chain h).hash })

  module _ (m : ℕ) (contents : Db → VerboseBlock → ParsedBlock) (linked : IsLinked chain) where
    no_fork : (h : ℕ) → is_fork (place_at h) (chain (h + 1)) ≡ false
    no_fork h =
        let e : names (chain (h + 1)).previousblockhash (chain h).hash ≡ true =
          ap (λ o. names o (chain h).hash) (linked.prev h) ∙ str_eq_refl (chain h).hash in
        ground arith

    next_cursor :
        (h : ℕ) (s : State)
        → s.cursor ≡ some (cursor_at h)
        → (apply_block (parse_block m contents s.db (chain (h + 1))) s).cursor
          ≡ some (cursor_at (h + 1))
    unfolding apply_block parse_block build_block_row last_from kept_status
    next_cursor h s e =
        apply_blocks-cursor true (parse_block m contents s.db (chain (h + 1)) ∷ []) s
        ∙ ap
            (λ (c : Option Cursor). some (record {
              height = (chain (h + 1)).height;
              hash = (chain (h + 1)).hash;
              status = kept_status c;
            }))
            e
        ∙ ap (λ k. some (record { height = k; hash = (chain (h + 1)).hash; status = live }))
            (linked.height (h + 1))

    follow-range :
        (daemon : Daemon) (count h : ℕ) (s : State)
        → s.cursor ≡ some (cursor_at h)
        → (s' : State) × (follow m contents daemon (range (h + 1) count) (place_at h) s
            ≡ (ok (false, place_at (h + count)), s'))
          × (s'.cursor ≡ some (cursor_at (h + count)))
    unfolding follow
    follow-range daemon zero h s e =
        let same : h ≡ h + 0 = omega arith in
        (s, ap (λ k. (ok (false, place_at k), s)) same, e ∙ ap (λ k. some (cursor_at k)) same)
    follow-range daemon (suc count) h s e =
        let s1 = apply_block (parse_block m contents s.db (chain (h + 1))) s in
        let (s', run, c) = follow-range daemon count (h + 1) s1 (next_cursor h s e) in
        let sum : h + 1 + count ≡ h + suc count = omega arith in
        let there : Place =
          some (record { height = (chain (h + 1)).height; hash = (chain (h + 1)).hash }) in
        let at : there ≡ place_at (h + 1) =
          ap (λ k. some (record { height = k; hash = (chain (h + 1)).hash }))
            (linked.height (h + 1)) in
        let next : Place → Result (Bool × Place) × State =
          λ p. follow m contents daemon (range (h + 1 + 1) count) p s1 in
        (
          s',
          ap (λ b. if b then reorged (handle m daemon s) else next there) (no_fork h)
              ∙ ap next at
              ∙ run
              ∙ ap (λ k. (ok (false, place_at k), s')) sum,
          c ∙ ap (λ k. some (cursor_at k)) sum,
        )

    -- The batch that sorts to blocks has blocks.
    not_empty :
        (batch : List VerboseBlock) (from count : ℕ)
        → sort_blocks batch ≡ range from count
        → 0 < count
        → is_empty batch ≡ false
    unfolding sort_blocks
    not_empty [] from zero e lt = absurd (omega arith)
    not_empty [] from (suc count) e lt = absurd cc
    not_empty (b ∷ batch) from count e lt = refl

    catch_up-range :
        (rounds : List Round) (tip h : ℕ) (s : State)
        → All AnswersAll rounds
        → s.cursor ≡ some (cursor_at h)
        → h ≤ tip
        → tip ≤ h + 32 * length rounds
        → (s' : State) × (catch_up m contents rounds tip (place_at h) s
            ≡ (finished (place_at tip), s'))
          × (s'.cursor ≡ some (cursor_at tip))
    unfolding catch_up
    catch_up-range [] tip h s rs e le few =
        let there : leb (tip + 1) (h + 1) ≡ true = ground arith in
        let same : h ≡ tip = omega arith in
        (
          s,
          ap (λ b. (if b then finished (place_at h) else running (place_at h), s)) there
              ∙ ap (λ k. (finished (place_at k), s)) same,
          e ∙ ap (λ k. some (cursor_at k)) same,
        )
    catch_up-range (r ∷ rounds) tip h s (all, rs) e le few =
        let next = catch_up m contents rounds tip in
        let count = span_of tip (place_at h) in
        let respond : Option (List VerboseBlock) → Outcome × State = λ o. elim o [
          | none ↦ (failed rpc_failed, s)
          | some batch ↦
              after_batch (is_empty batch) next
                (follow m contents r.daemon (sort_blocks batch) (place_at h) s)
        ] in
        let step : Bool → Outcome × State = λ b.
          if b then (finished (place_at h), s) else respond (r.get_blocks_batch (h + 1) count) in
        elim (Bool-cases (leb (tip + 1) (h + 1))) [
          | inl y ↦
              let same : h ≡ tip = ground arith in
              (
                s,
                ap step y ∙ ap (λ k. (finished (place_at k), s)) same,
                e ∙ ap (λ k. some (cursor_at k)) same,
              )
          | inr n ↦
              let lt : h < tip = ground arith in
              let (batch, answer, sorted) = all (h + 1) count in
              let (s1, run, c) = follow-range r.daemon count h s e in
              let (s', rest, c') =
                catch_up-range rounds tip (h + count) s1 rs c (omega arith) (omega arith) in
              let full : is_empty batch ≡ false =
                not_empty batch (h + 1) count sorted (omega arith) in
              let after : Bool → Result (Bool × Place) × State → Outcome × State =
                λ b. after_batch b next in
              (
                s',
                ap step n
                    ∙ ap respond answer
                    ∙ ap
                        (λ b.
                          after b (follow m contents r.daemon (sort_blocks batch) (place_at h) s))
                        full
                    ∙ ap (λ l. after false (follow m contents r.daemon l (place_at h) s)) sorted
                    ∙ ap (after false) run
                    ∙ unfold after_batch in rest,
                c',
              )
        ]

    -- Where the daemon follows one chain, of which the indexer is live at a height below the tip and at
    -- most 7000 blocks away, a tick reaches the tip within a round for each 32 blocks and leaves the
    -- cursor there, still live.
    pub tick-reaches :
        (rounds : List Round) (tip h : ℕ) (s : State)
        → All AnswersAll rounds
        → s.cursor ≡ some (cursor_at h)
        → h < tip
        → tip ≤ h + 7000
        → tip ≤ h + 32 * length rounds
        → ((tick m contents (some tip) rounds s).0 ≡ finished (place_at tip))
          × ((tick m contents (some tip) rounds s).1.cursor ≡ some (cursor_at tip))
    unfolding tick tick_at conclude publish
    tick-reaches rounds tip h s rs e lt near few =
        let (s', run, c) = catch_up-range rounds tip h s rs e (omega arith) few in
        let at : Option Cursor → Outcome × State = λ k.
          if is_paused k
          then (finished (place_of k), s)
          else if leb (tip + 1) (next_of (place_of k))
          then (finished (place_of k), publish (block_tip (pos tip) (hash_of k)) s)
          else if ltb lag_threshold_for_rebackfill (tip + 1 - next_of (place_of k))
          then (finished (place_of k), reenter_backfill k s)
          else conclude (catch_up m contents rounds tip (place_of k) s) in
        let low : leb (tip + 1) (h + 1) ≡ false = ground arith in
        let close : ltb lag_threshold_for_rebackfill (tip + 1 - (h + 1)) ≡ false = ground arith in
        let far : Bool → Outcome × State = λ b.
          if b
          then (finished (place_at h), reenter_backfill (some (cursor_at h)) s)
          else conclude (catch_up m contents rounds tip (place_at h) s) in
        let up : Bool → Outcome × State = λ b.
          if b
          then (finished (place_at h), publish (block_tip (pos tip) (chain h).hash) s)
          else far (ltb lag_threshold_for_rebackfill (tip + 1 - (h + 1))) in
        let whole : tick m contents (some tip) rounds s ≡ conclude (finished (place_at tip), s') =
          ap at e ∙ ap up low ∙ ap far close ∙ ap conclude run in
        (
          ap (λ (r : Outcome × State). r.0) whole,
          ap (λ (r : Outcome × State). r.1.cursor) whole ∙ c,
        )
