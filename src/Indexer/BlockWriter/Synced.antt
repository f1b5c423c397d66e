-- ===== src/Indexer/BlockWriter/Synced.antt =====
-- What `applyBlocks` of BlockWriter.ts makes of a store.
use grc_explorer.Common.{
  ◌+◌, ◌≤◌, ◌<◌, ◌≡◌, refl, sym, ap, ◌∙◌, subst, Bool, Option, none, some, List, [], ◌∷◌, ◌++◌, map,
  All, All-map, All-append, arith,
}
use grc_explorer.Parsed.{BlockRow, ParsedBlock}
use grc_explorer.AddressState.{WalletDelta, apply_address_state_deltas}
use grc_explorer.AddressState.Projection.{project, apply-project}
use grc_explorer.AddressState.Projection.Fresh.{keep-is_fresh}
use grc_explorer.Chain.{Cursor, Db, State, set_cursor}
use grc_explorer.Indexer.PhantomSpends.Outline.{mark_phantom_spends-All, mark_phantom_spends-block}
use grc_explorer.Indexer.BlockWriter.{
  complete, same_block, same_delta, insert_chain, wallet_deltas, write_tables, insert_blocks,
  last_from, run_post_commit, stored_inputs, marked, commit, advance, kept_status, apply_blocks,
}
use grc_explorer.Indexer.BlockWriter.Insert.{AreUnique, insert_chain-append}
use grc_explorer.Indexer.BlockWriter.Store.{
  IsChainFrom, IsChain, AtTip, next_height, IsNamed, IsHash, IsSynced, last_from-append,
  IsChainFrom-append, Ascends, IsChainFrom-Ascends, Ascends-above, Ascends-AreUnique, has_row-below,
  AtTip-below,
}
use grc_explorer.Indexer.BlockWriter.Batch.{
  IsGood, AreGood, IsWithin, end_height, end_height-le, wallet_deltas-IsWithin, has_row-new,
}

-- The rows carry on from the stored ones.
abbrev pub Extends : List BlockRow → List BlockRow → Type 0
Extends [] cs = IsChain cs
Extends (b ∷ bs) cs = IsChainFrom (last_from b bs) cs

abbrev rows_of : List ParsedBlock → List BlockRow
rows_of ps = map (λ p. p.block) ps

last_from-rows_of :
    (p : ParsedBlock) (ps : List ParsedBlock)
    → (last_from p ps).block ≡ last_from p.block (rows_of ps)
unfolding last_from
last_from-rows_of p [] = refl
last_from-rows_of p (q ∷ ps) = last_from-rows_of q ps

pub advance-db :
    (emit_live_events : Bool) (ps : List ParsedBlock) (s : State)
    → (advance emit_live_events ps s).db ≡ s.db
unfolding advance run_post_commit set_cursor
advance-db emit [] s = refl
advance-db emit (p ∷ ps) s = refl

-- The cursor after a batch: on its last block, with the status that it had.
abbrev pub cursor_after : Option Cursor → List BlockRow → Option Cursor
cursor_after c [] = c
cursor_after c (b ∷ bs) = some (record {
  height = (last_from b bs).height;
  hash = (last_from b bs).hash;
  status = kept_status c;
})

pub advance-cursor :
    (emit_live_events : Bool) (ps : List ParsedBlock) (s : State)
    → (advance emit_live_events ps s).cursor ≡ cursor_after s.cursor (rows_of ps)
unfolding advance run_post_commit set_cursor
advance-cursor emit [] s = refl
advance-cursor emit (p ∷ ps) s =
    ap
      (λ (b : BlockRow).
        some (record { height = b.height; hash = b.hash; status = kept_status s.cursor }))
      (last_from-rows_of p ps)

-- The tables that a batch changes and the invariant speaks of.
module _ (ps : List ParsedBlock) (db : Db) where
  commit-blocks : (commit ps db).blocks ≡ insert_chain same_block complete (rows_of ps) db.blocks
  unfolding commit insert_blocks write_tables
  commit-blocks = refl

  commit-history :
      (commit ps db).address_balance_history
      ≡ insert_chain same_delta complete (wallet_deltas ps) db.address_balance_history
  unfolding commit insert_blocks write_tables
  commit-history = refl

  commit-address_state :
      (commit ps db).address_state ≡ apply_address_state_deltas (wallet_deltas ps) db.address_state
  unfolding commit insert_blocks write_tables
  commit-address_state = refl

All-and {ℓ κ} :
    {A : Type ℓ} (P Q R : A → Type κ)
    → ((x : A) → P x → Q x → R x)
    → (xs : List A) → All P xs
    → All Q xs
    → All R xs
All-and P Q R f [] h k = tt
All-and P Q R f (x ∷ xs) (h, hs) (k, ks) = (f x h k, All-and P Q R f xs hs ks)

-- A batch that carries on from the stored blocks is added to them and to the event log as it is.
module _ (ps : List ParsedBlock) (s : State) (synced : IsSynced s.db s.cursor)
    (extends : Extends s.db.blocks (rows_of ps)) (good : AreGood ps) where
  below : All (λ (b : BlockRow). b.height < next_height s.cursor) s.db.blocks
  below = AtTip-below s.cursor s.db.blocks synced.chain synced.tip

  Extends-Ascends :
      (c : Option Cursor) (bs cs : List BlockRow)
      → AtTip c bs
      → Extends bs cs
      → Ascends (next_height c) cs
  Extends-Ascends none [] [] t e = tt
  Extends-Ascends none [] (b ∷ cs) t e = (omega arith, IsChainFrom-Ascends b cs e)
  Extends-Ascends none (b ∷ bs) cs t e = absurd t
  Extends-Ascends (some c) [] cs t e = absurd t
  Extends-Ascends (some c) (b ∷ bs) cs (h, _) e =
      subst (λ k. Ascends (k + 1) cs) (sym h) (IsChainFrom-Ascends (last_from b bs) cs e)

  ascends : Ascends (next_height s.cursor) (rows_of ps)
  ascends = Extends-Ascends s.cursor s.db.blocks (rows_of ps) synced.tip extends

  appended_blocks : (commit ps s.db).blocks ≡ s.db.blocks ++ rows_of ps
  appended_blocks =
      commit-blocks ps s.db
      ∙ insert_chain-append same_block (rows_of ps) s.db.blocks
          (All-map _ _ (λ b le. has_row-below (next_height s.cursor) b s.db.blocks below le)
            (rows_of ps) (Ascends-above (next_height s.cursor) (rows_of ps) ascends))
          (Ascends-AreUnique (next_height s.cursor) (rows_of ps) ascends)

  deltas :
      All
        (IsWithin (next_height s.cursor) (end_height (next_height s.cursor) (rows_of ps)))
        (wallet_deltas ps)
      × AreUnique same_delta (wallet_deltas ps)
  deltas = wallet_deltas-IsWithin (next_height s.cursor) ps ascends good

  low : All (λ (d : WalletDelta). d.height < next_height s.cursor) s.db.address_balance_history
  low = All-map _ _ (λ d h. h.1) s.db.address_balance_history synced.history

  appended_history :
      (commit ps s.db).address_balance_history ≡ s.db.address_balance_history ++ wallet_deltas ps
  appended_history =
      commit-history ps s.db
      ∙ insert_chain-append same_delta (wallet_deltas ps) s.db.address_balance_history
          (All-map _ _ (λ d w. has_row-new _ _ s.db.address_balance_history d low w)
            (wallet_deltas ps) deltas.0)
          deltas.1

  projected : (commit ps s.db).address_state ≡ project (commit ps s.db).address_balance_history
  projected =
      let history = s.db.address_balance_history in
      let high : All (λ (d : WalletDelta). next_height s.cursor ≤ d.height) (wallet_deltas ps) =
        All-map _ _ (λ d w. w.1) (wallet_deltas ps) deltas.0 in
      commit-address_state ps s.db
      ∙ ap (apply_address_state_deltas (wallet_deltas ps)) synced.projected
      ∙ apply-project (wallet_deltas ps) history
      ∙ ap (λ l. project (history ++ l))
          (keep-is_fresh (next_height s.cursor) history (wallet_deltas ps) low high)
      ∙ ap project (sym appended_history)

AtTip-after :
    (c : Option Cursor) (bs cs : List BlockRow) → AtTip c bs → AtTip (cursor_after c cs) (bs ++ cs)
unfolding last_from
AtTip-after none [] [] t = tt
AtTip-after none [] (b ∷ cs) t = (refl, refl)
AtTip-after none (b ∷ bs) cs t = absurd t
AtTip-after (some c) [] cs t = absurd t
AtTip-after (some c) (b ∷ bs) [] (h, k) =
    let e : last_from b (bs ++ []) ≡ last_from b bs = last_from-append b bs [] in
    (h ∙ ap (λ (r : BlockRow). r.height) (sym e), k ∙ ap (λ (r : BlockRow). r.hash) (sym e))
AtTip-after (some c) (b ∷ bs) (d ∷ cs) t =
    let e : last_from b (bs ++ d ∷ cs) ≡ last_from d cs = last_from-append b bs (d ∷ cs) in
    (ap (λ (r : BlockRow). r.height) (sym e), ap (λ (r : BlockRow). r.hash) (sym e))

IsChain-after : (bs cs : List BlockRow) → IsChain bs → Extends bs cs → IsChain (bs ++ cs)
IsChain-after [] cs h e = e
IsChain-after (b ∷ bs) cs h e = IsChainFrom-append b bs cs h e

end_of :
    (b : BlockRow) (bs : List BlockRow) → (last_from b bs).height + 1 ≡ end_height (b.height + 1) bs
unfolding last_from
end_of b [] = refl
end_of b (c ∷ bs) = end_of c bs

end_height-after :
    (c : Option Cursor) (bs : List BlockRow)
    → next_height (cursor_after c bs) ≡ end_height (next_height c) bs
end_height-after c [] = refl
end_height-after c (b ∷ bs) = end_of b bs

rows-named :
    (ps : List ParsedBlock) → AreGood ps → All (λ (b : BlockRow). IsHash b.hash) (rows_of ps)
rows-named [] h = tt
rows-named (p ∷ ps) (g, h) = (g.hash, rows-named ps h)

commit-IsSynced :
    (ps : List ParsedBlock) (s : State)
    → IsSynced s.db s.cursor
    → Extends s.db.blocks (rows_of ps)
    → AreGood ps
    → IsSynced (commit ps s.db) (cursor_after s.cursor (rows_of ps))
commit-IsSynced ps s synced extends good =
    let bs = appended_blocks ps s synced extends good in
    let hs = appended_history ps s synced extends good in
    let end = end_height-after s.cursor (rows_of ps) in
    let rise =
      end_height-le (next_height s.cursor) (rows_of ps) (ascends ps s synced extends good) in
    let Good : WalletDelta → Type 0 =
      λ d. IsNamed d.address × (d.height < next_height (cursor_after s.cursor (rows_of ps))) in
    record {
      chain = rw bs (IsChain-after s.db.blocks (rows_of ps) synced.chain extends);
      tip = rw bs (AtTip-after s.cursor s.db.blocks (rows_of ps) synced.tip);
      hashes = rw bs (All-append _ s.db.blocks (rows_of ps) synced.hashes (rows-named ps good));
      history = subst (All Good) (sym hs) (
          All-append Good s.db.address_balance_history (wallet_deltas ps)
            (All-map _ Good (λ d (n, lt). (n, omega arith)) s.db.address_balance_history
              synced.history)
            (All-map _ Good (λ d (n, _, lt). (n, omega arith)) (wallet_deltas ps)
              (deltas ps s synced extends good).0));
      projected = projected ps s synced extends good;
    }

marked-rows : (ps : List ParsedBlock) (db : Db) → rows_of (marked ps db) ≡ rows_of ps
unfolding marked
marked-rows ps db = mark_phantom_spends-block (stored_inputs db) ps

marked-AreGood : (ps : List ParsedBlock) (db : Db) → AreGood ps → AreGood (marked ps db)
unfolding marked
marked-AreGood ps db h = mark_phantom_spends-All (stored_inputs db) IsGood ps h

-- A batch whose blocks carry on from the stored ones, each with a hash and with deltas of different
-- addresses, keeps the store in order: the blocks are a chain that ends at the cursor, the event log
-- reaches to it, and the table of addresses is the log's projection.
pub apply_blocks-IsSynced :
    (emit_live_events : Bool) (ps : List ParsedBlock) (s : State)
    → IsSynced s.db s.cursor
    → Extends s.db.blocks (map (λ p. p.block) ps)
    → AreGood ps
    → IsSynced (apply_blocks emit_live_events ps s).db (apply_blocks emit_live_events ps s).cursor
unfolding apply_blocks
apply_blocks-IsSynced emit ps s synced extends good =
    let list = marked ps s.db in
    let s1 : State = record s { db = commit list s.db } in
    let same : rows_of list ≡ rows_of ps = marked-rows ps s.db in
    let e : Extends s.db.blocks (rows_of list) = subst (Extends s.db.blocks) (sym same) extends in
    let P : Db → Type 0 = λ db. IsSynced db (advance emit list s1).cursor in
    let Q : Option Cursor → Type 0 = IsSynced (commit list s.db) in
    subst P (sym (advance-db emit list s1)) (
      subst Q (sym (advance-cursor emit list s1))
        (commit-IsSynced list s synced e (marked-AreGood ps s.db good)))

-- The cursor after a batch.
pub apply_blocks-cursor :
    (emit_live_events : Bool) (ps : List ParsedBlock) (s : State)
    → (apply_blocks emit_live_events ps s).cursor ≡ cursor_after s.cursor (map (λ p. p.block) ps)
unfolding apply_blocks
apply_blocks-cursor emit ps s =
    let list = marked ps s.db in
    advance-cursor emit list (record s { db = commit list s.db })
    ∙ ap (cursor_after s.cursor) (marked-rows ps s.db)
