-- ===== src/Indexer/TipFollower/Invariant.antt =====
-- TipFollower.ts keeps the store in order, whatever the daemon answers.
use grc_explorer.Common.{
  ℕ, ◌+◌, ◌-◌, ◌≡◌, refl, sym, ap, ◌∙◌, subst, Bool, true, false, not, ◌&&◌, Option, none, some,
  List, [], ◌∷◌, String, ltb, leb, ◌==◌, str_eq, str_eq_iff, if◌then◌else◌, All, arith, Bool-cases,
  Option-cases, inl, inr, false-ne-true,
}
use grc_explorer.Common.Int.{pos}
use grc_explorer.Parsed.{
  BlockRow, VerboseBlock, ParsedBlock, build_block_row, is_hex_64_ne, resolve_prev_hash-some,
}
use grc_explorer.Chain.{Cursor, backfilling, Db, State, block_tip, publish, set_cursor}
use grc_explorer.Indexer.PhantomSpends.Outline.{addresses}
use grc_explorer.Indexer.BlockWriter.{apply_block, last_from}
use grc_explorer.Indexer.BlockWriter.Insert.{AreUnique}
use grc_explorer.Indexer.BlockWriter.Store.{AtTip, IsNamed, IsHash, IsSynced}
use grc_explorer.Indexer.BlockWriter.Batch.{IsGood}
use grc_explorer.Indexer.BlockWriter.Synced.{Extends, apply_blocks-IsSynced, apply_blocks-cursor}
use grc_explorer.Indexer.ChainReorg.{CursorPosition, rpc_failed, Result, ok, err, Daemon, handle}
use grc_explorer.Indexer.ChainReorg.Rollback.{handle-IsBelow}
use grc_explorer.Indexer.ChainReorg.Synced.{handle-IsSynced, handle_err-IsSynced}
use grc_explorer.Indexer.TipFollower.{
  Round, Place, place_of, next_of, Outcome, finished, failed, running, sort_blocks, names, is_fork,
  lag_threshold_for_rebackfill, span_of, conclude, is_paused, reenter_backfill, hash_of, reorged,
  is_empty, after_batch, parse_block, follow, catch_up, tick_at, tick,
}

-- Blocks with hashes, and with consecutive heights from the first on.
abbrev pub IsRun : ℕ → List VerboseBlock → Type 0
IsRun next [] = Unit
IsRun next (b ∷ bs) = (b.height ≡ next) × IsHash b.hash × IsRun (next + 1) bs

-- In the round, a batch that the daemon returns is a run of blocks from the height that was asked
-- for, perhaps in another order.
abbrev pub AnswersRuns : Round → Type 0
AnswersRuns r =
    (start count : ℕ) (batch : List VerboseBlock)
    → r.get_blocks_batch start count ≡ some batch
    → IsRun start (sort_blocks batch)

-- The deltas of a block are those of different addresses.
abbrev pub HasDistinctDeltas : (Db → VerboseBlock → ParsedBlock) → Type 0
HasDistinctDeltas contents =
    (db : Db) (b : VerboseBlock)
    → All IsNamed (addresses (contents db b).address_deltas)
      × AreUnique str_eq (addresses (contents db b).address_deltas)

last_from-IsHash :
    (b : BlockRow) (bs : List BlockRow)
    → All (λ (c : BlockRow). IsHash c.hash) (b ∷ bs)
    → IsHash (last_from b bs).hash
unfolding last_from
last_from-IsHash b [] (h, _) = h
last_from-IsHash b (c ∷ bs) (_, h) = last_from-IsHash c bs h

names-some : (o : Option String) (h : String) → names o h ≡ true → o ≡ some h
names-some none h e = absurd (false-ne-true e)
names-some (some k) h e = ap some ((str_eq_iff k h).0 e)

-- A block that is no fork carries on from the stored ones.
no_fork-Extends :
    (c : Option Cursor) (bs : List BlockRow) (b : VerboseBlock)
    → AtTip c bs
    → All (λ (d : BlockRow). IsHash d.hash) bs
    → b.height ≡ next_of (place_of c)
    → is_fork (place_of c) b ≡ false
    → Extends bs (build_block_row b ∷ [])
unfolding build_block_row
no_fork-Extends none [] b t h e f = tt
no_fork-Extends none (d ∷ bs) b t h e f = absurd t
no_fork-Extends (some c) [] b t h e f = absurd t
no_fork-Extends (some c) (d ∷ bs) b (th, tk) h e f =
    let hash : IsHash c.hash = subst IsHash (sym tk) (last_from-IsHash d bs h) in
    let named : str_eq c.hash "" ≡ false = is_hex_64_ne c.hash hash in
    let says : names b.previousblockhash c.hash ≡ true = ground arith in
    let above : (b.height == 0) ≡ false = ground arith in
    (
      (
        omega arith,
        resolve_prev_hash-some b c.hash above (names-some b.previousblockhash c.hash says) hash
            ∙ tk,
      ),
      tt,
    )

module _ (m : ℕ) (contents : Db → VerboseBlock → ParsedBlock)
    (distinct : HasDistinctDeltas contents) where
  parse_block-IsGood :
      (db : Db) (b : VerboseBlock)
      → IsHash b.hash
      → IsGood
          (parse_block m contents db b).block
          (addresses (parse_block m contents db b).address_deltas)
  unfolding parse_block build_block_row
  parse_block-IsGood db b h = record {
    hash = h;
    all_named = (distinct db b).0;
    unique = (distinct db b).1;
  }

  place_after :
      (b : VerboseBlock) (s : State)
      → place_of (apply_block (parse_block m contents s.db b) s).cursor
        ≡ some (record { height = b.height; hash = b.hash })
  unfolding apply_block parse_block build_block_row last_from
  place_after b s = ap place_of (apply_blocks-cursor true (parse_block m contents s.db b ∷ []) s)

  apply_block-IsSynced :
      (b : VerboseBlock) (s : State)
      → IsSynced s.db s.cursor
      → IsHash b.hash
      → b.height ≡ next_of (place_of s.cursor)
      → is_fork (place_of s.cursor) b ≡ false
      → IsSynced
          (apply_block (parse_block m contents s.db b) s).db
          (apply_block (parse_block m contents s.db b) s).cursor
  unfolding apply_block parse_block
  apply_block-IsSynced b s synced h e f =
      apply_blocks-IsSynced true (parse_block m contents s.db b ∷ []) s synced
        (no_fork-Extends s.cursor s.db.blocks b synced.tip synced.hashes e f)
        (parse_block-IsGood s.db b h, tt)

  -- The store is in order, and the place is that of the cursor.
  abbrev pub IsFollowed : Result (Bool × Place) × State → Type 0
  IsFollowed (ok (was_fork, place), s) = IsSynced s.db s.cursor × (place_of s.cursor ≡ place)
  IsFollowed (err e, s) = IsSynced s.db s.cursor

  reorged-IsFollowed :
      (daemon : Daemon) (s : State) (r : Result CursorPosition × State)
      → IsSynced s.db s.cursor
      → handle m daemon s ≡ r
      → IsFollowed (reorged r)
  unfolding reorged
  reorged-IsFollowed daemon s (ok fork, s') synced h =
      let (c, _, _, _) = handle-IsBelow m daemon s fork s' h in
      (handle-IsSynced m daemon s synced fork s' h, ap place_of c)
  reorged-IsFollowed daemon s (err e, s') synced h = handle_err-IsSynced m daemon s synced e s' h

  follow-IsFollowed :
      (daemon : Daemon) (bs : List VerboseBlock) (place : Place) (s : State)
      → IsSynced s.db s.cursor
      → place_of s.cursor ≡ place
      → IsRun (next_of place) bs
      → IsFollowed (follow m contents daemon bs place s)
  unfolding follow
  follow-IsFollowed daemon [] place s synced at run = (synced, at)
  follow-IsFollowed daemon (b ∷ bs) place s synced at (e, hash, run) =
      let s1 = apply_block (parse_block m contents s.db b) s in
      let here : Place = some (record { height = b.height; hash = b.hash }) in
      let next = follow m contents daemon bs here s1 in
      let step : Bool → Result (Bool × Place) × State =
        λ c. if c then reorged (handle m daemon s) else next in
      elim (Bool-cases (is_fork place b)) [
        | inl y ↦
            subst (λ c. IsFollowed (step c)) (sym y)
              (reorged-IsFollowed daemon s (handle m daemon s) synced refl)
        | inr n ↦
            let e' : b.height ≡ next_of (place_of s.cursor) = e ∙ ap next_of (sym at) in
            let n' : is_fork (place_of s.cursor) b ≡ false = ap (λ p. is_fork p b) at ∙ n in
            let run' : IsRun (b.height + 1) bs = subst (λ h. IsRun (h + 1) bs) (sym e) run in
            subst (λ c. IsFollowed (step c)) (sym n)
              (follow-IsFollowed daemon bs here s1 (apply_block-IsSynced b s synced hash e' n')
                (place_after b s) run')
      ]

  abbrev pub Keeps : Outcome × State → Type 0
  Keeps (o, s) = IsSynced s.db s.cursor

  after_batch-Keeps :
      (empty : Bool) (next : Place → State → Outcome × State) (r : Result (Bool × Place) × State)
      → ((place : Place) (s : State)
          → IsSynced s.db s.cursor
          → place_of s.cursor ≡ place
          → Keeps (next place s))
      → IsFollowed r
      → Keeps (after_batch empty next r)
  unfolding after_batch
  after_batch-Keeps empty next (err e, s) k h = h
  after_batch-Keeps empty next (ok (was_fork, place), s) k (h, at) =
      let step : Bool → Outcome × State = λ c. if c then (finished place, s) else next place s in
      elim (Bool-cases (empty && not was_fork)) [
        | inl y ↦ subst (λ c. Keeps (step c)) (sym y) h
        | inr n ↦ subst (λ c. Keeps (step c)) (sym n) (k place s h at)
      ]

  catch_up-Keeps :
      (rounds : List Round) (tip : ℕ) (place : Place) (s : State)
      → All AnswersRuns rounds
      → IsSynced s.db s.cursor
      → place_of s.cursor ≡ place
      → Keeps (catch_up m contents rounds tip place s)
  unfolding catch_up
  catch_up-Keeps [] tip place s rs synced at = synced
  catch_up-Keeps (r ∷ rounds) tip place s (runs, rs) synced at =
      let next = catch_up m contents rounds tip in
      let answer = r.get_blocks_batch (next_of place) (span_of tip place) in
      let respond : Option (List VerboseBlock) → Outcome × State = λ o. elim o [
        | none ↦ (failed rpc_failed, s)
        | some batch ↦
            after_batch (is_empty batch) next
              (follow m contents r.daemon (sort_blocks batch) place s)
      ] in
      let step : Bool → Outcome × State = λ c. if c then (finished place, s) else respond answer in
      elim (Bool-cases (leb (tip + 1) (next_of place))) [
        | inl y ↦ subst (λ c. Keeps (step c)) (sym y) synced
        | inr n ↦
            subst (λ c. Keeps (step c)) (sym n)
              (elim (Option-cases answer) [
                | inl e ↦ subst (λ o. Keeps (respond o)) (sym e) synced
                | inr (batch, e) ↦
                    subst (λ o. Keeps (respond o)) (sym e)
                      (after_batch-Keeps (is_empty batch) next _
                        (λ p t h k. catch_up-Keeps rounds tip p t rs h k)
                        (follow-IsFollowed r.daemon (sort_blocks batch) place s synced at
                          (runs (next_of place) (span_of tip place) batch e)))
              ])
      ]

  conclude-Keeps : (r : Outcome × State) → Keeps r → Keeps (conclude r)
  unfolding conclude publish
  conclude-Keeps (finished none, s) h = h
  conclude-Keeps (finished (some p), s) h = h
  conclude-Keeps (failed e, s) h = h
  conclude-Keeps (running p, s) h = h

  reenter_backfill-IsSynced :
      (c : Option Cursor) (s : State)
      → s.cursor ≡ c
      → IsSynced s.db s.cursor
      → IsSynced (reenter_backfill c s).db (reenter_backfill c s).cursor
  unfolding reenter_backfill set_cursor
  reenter_backfill-IsSynced none s e h = h
  reenter_backfill-IsSynced (some c) s e h =
      let now : IsSynced s.db (some c) = subst (IsSynced s.db) e h in
      record {
        chain = now.chain;
        tip = moved s.db.blocks now.tip;
        hashes = now.hashes;
        history = now.history;
        projected = now.projected;
      }
    where
      moved :
          (bs : List BlockRow)
          → AtTip (some c) bs
          → AtTip (some (record c { status = backfilling })) bs
      moved [] t = absurd t
      moved (b ∷ bs) t = t

  tick_at-Keeps :
      (tip : ℕ) (rounds : List Round) (s : State)
      → All AnswersRuns rounds
      → IsSynced s.db s.cursor
      → Keeps (tick_at m contents tip rounds s)
  unfolding tick_at publish
  tick_at-Keeps tip rounds s rs synced =
      let place = place_of s.cursor in
      let far : Bool → Outcome × State = λ c.
        if c
        then (finished place, reenter_backfill s.cursor s)
        else conclude (catch_up m contents rounds tip place s) in
      let step : Bool → Outcome × State = λ c.
        if c
        then (finished place, publish (block_tip (pos tip) (hash_of s.cursor)) s)
        else far (ltb lag_threshold_for_rebackfill (tip + 1 - next_of place)) in
      elim (Bool-cases (leb (tip + 1) (next_of place))) [
        | inl y ↦ subst (λ c. Keeps (step c)) (sym y) synced
        | inr n ↦
            subst (λ c. Keeps (step c)) (sym n)
              (elim (Bool-cases (ltb lag_threshold_for_rebackfill (tip + 1 - next_of place))) [
                | inl y ↦
                    subst (λ c. Keeps (far c)) (sym y)
                      (reenter_backfill-IsSynced s.cursor s refl synced)
                | inr n ↦
                    subst (λ c. Keeps (far c)) (sym n)
                      (conclude-Keeps _ (catch_up-Keeps rounds tip place s rs synced refl))
              ])
      ]

  -- A tick keeps the store in order, in whatever way it ends and however often the chain forks
  -- meanwhile, where the daemon's batches are runs of blocks and a block's deltas are those of
  -- different addresses: the stored blocks are a chain that ends at the cursor, and the table of
  -- addresses is the projection of the event log.
  pub tick-IsSynced :
      (tip : Option ℕ) (rounds : List Round) (s : State)
      → All AnswersRuns rounds
      → IsSynced s.db s.cursor
      → IsSynced (tick m contents tip rounds s).1.db (tick m contents tip rounds s).1.cursor
  unfolding tick
  tick-IsSynced tip rounds s rs synced =
      let at : Option ℕ → Outcome × State =
        λ o. elim o [ none ↦ (failed rpc_failed, s) | some t ↦ tick_at m contents t rounds s ] in
      let step : Bool → Outcome × State =
        λ c. if c then (finished (place_of s.cursor), s) else at tip in
      elim (Bool-cases (is_paused s.cursor)) [
        | inl y ↦ subst (λ c. Keeps (step c)) (sym y) synced
        | inr n ↦
            subst (λ c. Keeps (step c)) (sym n)
              (elim (Option-cases tip) [
                | inl e ↦ subst (λ o. Keeps (at o)) (sym e) synced
                | inr (t, e) ↦
                    subst (λ o. Keeps (at o)) (sym e) (tick_at-Keeps t rounds s rs synced)
              ])
      ]
