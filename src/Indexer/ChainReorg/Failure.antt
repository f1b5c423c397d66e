-- ===== src/Indexer/ChainReorg/Failure.antt =====
-- What `handle` of ChainReorgHandler.ts leaves behind when it throws.
use grc_explorer.Common.{
  ℕ, ◌+◌, ◌≤◌, ◌≡◌, refl, sym, ◌∙◌, subst, Option, none, some, Option-cases, inl, inr,
}
use grc_explorer.Chain.{Cursor, State, reorg, set_cursor}
use grc_explorer.Indexer.ChainReorg.{
  CursorPosition, Error, cursor_missing, too_deep, rpc_failed, Result, ok, err, Daemon,
  find_fork_point, handle_fork, handle,
}
use grc_explorer.Indexer.ChainReorg.ForkPoint.{
  Rejects, find_fork_point-Rejects, find_fork_point-err,
}
use grc_explorer.Indexer.ChainReorg.Rollback.{handle-none, handle-some}

-- What a run that fails leaves behind, for each error.
module _ (m : ℕ) (daemon : Daemon) (s : State) where
  pub data Failure : Error → State → Type 0 where
    no_cursor : s.cursor ≡ none → Failure cursor_missing s
    no_answer :
        (cursor : Cursor) (k : ℕ)
        → s.cursor ≡ some cursor
        → k ≤ cursor.height
        → cursor.height ≤ k + m
        → daemon k ≡ none
        → Failure rpc_failed s
    no_fork :
        (cursor : Cursor)
        → s.cursor ≡ some cursor
        → ((k : ℕ) → k ≤ cursor.height → cursor.height ≤ k + m → Rejects daemon s.db.blocks k)
        → Failure too_deep (record s { cursor = some (record cursor { status = reorg }) })

  handle_fork-Failure :
      (cursor : Cursor) (r : Result (Option CursorPosition)) (e : Error) (s' : State)
      → s.cursor ≡ some cursor
      → find_fork_point m daemon s.db.blocks cursor.height ≡ r
      → handle_fork cursor r s ≡ (err e, s')
      → Failure e s'
  unfolding handle_fork set_cursor
  handle_fork-Failure cursor (err f) e s' there found h =
      let (kind, (k, low, near, failed)) =
        find_fork_point-err daemon s.db.blocks m cursor.height f found in
      let same : rpc_failed ≡ e = sym kind ∙ cc in
      let kept : s ≡ s' = cc in
      subst (λ x. Failure x s') same
        (subst (Failure rpc_failed) kept (no_answer cursor k there low near failed))
  handle_fork-Failure cursor (ok none) e s' there found h =
      let same : too_deep ≡ e = cc in
      let after : record s { cursor = some (record cursor { status = reorg }) } ≡ s' = cc in
      subst (λ x. Failure x s') same
        (subst (Failure too_deep) after
          (no_fork cursor there (find_fork_point-Rejects daemon s.db.blocks m cursor.height found)))
  handle_fork-Failure cursor (ok (some fork)) e s' there found h = absurd cc

  -- A run that ends in an error is one of three. Without a cursor, the error says so and the whole
  -- state is kept. Where the daemon does not answer at a height within the depth, the call's error
  -- is passed on and the whole state is kept. Where the daemon answers at every height within the
  -- depth, and nowhere with the stored hash, the error is that the fork is too deep, the tables and
  -- the effects are kept, and the cursor keeps its position and takes the status `reorg`.
  pub handle-Failure : (e : Error) (s' : State) → handle m daemon s ≡ (err e, s') → Failure e s'
  handle-Failure e s' h = elim (Option-cases s.cursor) [
    | inl missing ↦
        let eq : ◌≡◌ {A = Result CursorPosition × State} (err cursor_missing, s) (err e, s') =
          sym (handle-none m daemon s missing) ∙ h in
        let same : cursor_missing ≡ e = cc in
        let kept : s ≡ s' = cc in
        subst (λ x. Failure x s') same (subst (Failure cursor_missing) kept (no_cursor missing))
    | inr (cursor, there) ↦
        handle_fork-Failure cursor (find_fork_point m daemon s.db.blocks cursor.height) e s' there
          refl (sym (handle-some m daemon s cursor there) ∙ h)
  ]
