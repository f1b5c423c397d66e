-- ===== src/Indexer/BlockWriter/Recovery.antt =====
-- A batch of BlockWriter.ts that failed midway and is applied again.
use mathlib.Core.List.Memᴰ
use grc_explorer.Common.{
  ℕ, Memᴰ, ◌≡◌, refl, sym, ap, ◌∙◌, subst, Bool, true, false, not, ◌&&◌, ◌||◌, List, [], ◌∷◌, ◌++◌,
  map, str_eq_refl, if◌then◌else◌, any, keep, All, arith,
}
use grc_explorer.Parsed.{TxInput, HeightRow, OtherTable, mrc_requests, ParsedBlock}
use grc_explorer.AddressState.{WalletDelta, Table, apply_address_state_deltas}
use grc_explorer.AddressState.Replay.{apply_idempotent}
use grc_explorer.Chain.{TxInputRow, Db, State}
use grc_explorer.Indexer.PhantomSpends.{key_eq, mark_phantom_spends}
use grc_explorer.Indexer.PhantomSpends.Outline.{pk_of, input_keys, mark_phantom_spends-input_keys}
use grc_explorer.Indexer.PhantomSpends.Spenders.{same_pk, batch_inputs}
use grc_explorer.Indexer.PhantomSpends.Replay.{new_inputs, AreUnmarked, mark_phantom_spends_again}
use grc_explorer.Indexer.BlockWriter.{
  Progress, complete, slices, is_complete, every_write, insert_slices, insert_chain, insert_other,
  same_block, same_input, same_address_tx, same_delta, same_poll, same_option, same_key, flat_map,
  address_txs_of, wallet_deltas, input_rows, Write, write_inputs, write_address_txs, write_history,
  write_state, write_polls, write_options, write_other, write_tables, insert_blocks, stored_inputs,
  Cut, in_tables, in_blocks, cut_off, marked, commit, advance, apply_blocks, interrupted,
}
use grc_explorer.Indexer.BlockWriter.Insert.{
  has_row, AreUnique, insert_chain_again, insert_chain-keep,
}
use grc_explorer.Indexer.BlockWriter.Upsert.{upsert_again}

apply_again :
    (b : Bool) (ds : List WalletDelta) (t : Table)
    → apply_address_state_deltas ds (if b then apply_address_state_deltas ds t else t)
      ≡ apply_address_state_deltas ds t
apply_again true ds t = apply_idempotent ds t
apply_again false ds t = refl

insert_other_again :
    (t : OtherTable) (p : Progress) (rows db : List HeightRow)
    → insert_other t complete rows (insert_other t p rows db) ≡ insert_other t complete rows db
unfolding insert_other
insert_other_again mrc_requests p rows db = upsert_again p rows db
insert_other_again _ p rows db = insert_chain_again same_key (λ r. str_eq_refl r.key) p rows db

-- Whatever of a batch is written already, its writes end in the same tables.
commit-written :
    (done : Write → Progress) (last : Progress) (list : List ParsedBlock) (db : Db)
    → commit list (insert_blocks last list (write_tables done list db)) ≡ commit list db
unfolding commit write_tables insert_blocks
commit-written done last list db = λ i. record db {
  blocks =
      insert_chain_again same_block (λ b. ground arith) last (map (λ p. p.block) list) db.blocks i;
  tx_inputs =
      insert_chain_again same_input (λ r. ground (arith, str_eq_refl r.input.tx_id))
        (done write_inputs) (input_rows list) db.tx_inputs i;
  address_txs =
      insert_chain_again same_address_tx
        (λ r. ground (arith, str_eq_refl r.address, str_eq_refl r.tx_id)) (done write_address_txs)
        (flat_map address_txs_of list) db.address_txs i;
  address_balance_history =
      insert_chain_again same_delta (λ r. ground (arith, str_eq_refl r.address))
        (done write_history) (wallet_deltas list) db.address_balance_history i;
  address_state =
      apply_again (is_complete (done write_history) && is_complete (done write_state))
        (wallet_deltas list) db.address_state i;
  polls =
      insert_chain_again same_poll (λ r. str_eq_refl r.poll_id) (done write_polls)
        (flat_map (λ p. p.polls) list) db.polls i;
  poll_options =
      insert_chain_again same_option (λ r. ground (arith, str_eq_refl r.poll_id))
        (done write_options) (flat_map (λ p. p.poll_options) list) db.poll_options i;
  other = λ t.
      insert_other_again t (done (write_other t)) (flat_map (λ p. p.other t) list) (db.other t) i;
}

no_slices {ℓ} :
    {A : Type ℓ} (same : A → A → Bool) (rows t : List A) → insert_chain same (slices 0) rows t ≡ t
unfolding insert_chain insert_slices
no_slices same rows t = refl

commit-cut_off :
    (cut : Cut) (list : List ParsedBlock) (db : Db)
    → commit list (cut_off cut list db) ≡ commit list db
unfolding cut_off
commit-cut_off (in_blocks last) list db = commit-written every_write last list db
commit-cut_off (in_tables done) list db =
    let t = write_tables done list db in
    ap (commit list) (sym (no_blocks list t)) ∙ commit-written done (slices 0) list db
  where
    no_blocks : (l : List ParsedBlock) (db : Db) → insert_blocks (slices 0) l db ≡ db
    no_blocks l db =
        unfold insert_blocks in
        λ i. record db { blocks = no_slices same_block (map (λ p. p.block) l) db.blocks i }

-- How far the inputs are written at the cut.
inputs_done : Cut → Progress
inputs_done (in_tables done) = done write_inputs
inputs_done (in_blocks last) = complete

cut_off-tx_inputs :
    (cut : Cut) (list : List ParsedBlock) (db : Db)
    → (cut_off cut list db).tx_inputs
      ≡ insert_chain same_input (inputs_done cut) (input_rows list) db.tx_inputs
unfolding cut_off write_tables insert_blocks inputs_done
cut_off-tx_inputs (in_tables done) list db = refl
cut_off-tx_inputs (in_blocks last) list db = refl

map-append {ℓ κ} :
    {A : Type ℓ} {B : Type κ} (f : A → B) (xs ys : List A) → map f (xs ++ ys) ≡ map f xs ++ map f ys
map-append f [] ys = refl
map-append f (x ∷ xs) ys = ap (λ l. f x ∷ l) (map-append f xs ys)

-- The inputs of the rows of a batch.
abbrev inputs_of : List TxInputRow → List TxInput
inputs_of rs = map (λ r. r.input) rs

inputs_of_block :
    (h : ℕ) (is : List TxInput)
    → inputs_of (map (λ (i : TxInput). record { block_height = h; input = i }) is) ≡ is
inputs_of_block h [] = refl
inputs_of_block h (i ∷ is) = ap (λ l. i ∷ l) (inputs_of_block h is)

inputs_of-input_rows : (list : List ParsedBlock) → inputs_of (input_rows list) ≡ batch_inputs list
unfolding input_rows flat_map batch_inputs
inputs_of-input_rows [] = refl
inputs_of-input_rows (p ∷ ps) =
    map-append (λ (r : TxInputRow). r.input) _ (input_rows ps)
    ∙ ap (λ l. l ++ inputs_of (input_rows ps)) (inputs_of_block p.block.height p.tx_inputs)
    ∙ ap (λ l. p.tx_inputs ++ l) (inputs_of-input_rows ps)

has_row-inputs_of :
    (r : TxInputRow) (t : List TxInputRow)
    → has_row same_input r t ≡ any (λ x. same_pk x r.input) (inputs_of t)
has_row-inputs_of r [] = refl
has_row-inputs_of r (x ∷ t) = ap (λ b. same_input x r || b) (has_row-inputs_of r t)

inputs_of-new :
    (rows t : List TxInputRow)
    → inputs_of (keep (λ r. not (has_row same_input r t)) rows)
      ≡ new_inputs (inputs_of t) (inputs_of rows)
inputs_of-new [] t = refl
inputs_of-new (r ∷ rows) t =
    let f : Bool → List TxInput → List TxInput =
      λ b l. elim (not b) [ true ↦ r.input ∷ l | false ↦ l ] in
    inputs_of_cons (has_row same_input r t)
    ∙ ap (λ b. f b (inputs_of (keep (λ x. not (has_row same_input x t)) rows)))
        (has_row-inputs_of r t)
    ∙ ap (f (any (λ x. same_pk x r.input) (inputs_of t))) (inputs_of-new rows t)
  where
    inputs_of_cons :
        (b : Bool)
        → inputs_of (elim (not b) [
          | true ↦ r ∷ keep (λ x. not (has_row same_input x t)) rows
          | false ↦ keep (λ x. not (has_row same_input x t)) rows
        ])
          ≡ elim (not b) [
            | true ↦ r.input ∷ inputs_of (keep (λ x. not (has_row same_input x t)) rows)
            | false ↦ inputs_of (keep (λ x. not (has_row same_input x t)) rows)
          ]
    inputs_of_cons true = refl
    inputs_of_cons false = refl

unique_rows :
    (rs : List TxInputRow) → AreUnique key_eq (map pk_of (inputs_of rs)) → AreUnique same_input rs
unique_rows [] u = tt
unique_rows (r ∷ rs) (d, u) = (differ rs d, unique_rows rs u)
  where
    differ :
        (l : List TxInputRow)
        → All (λ k. key_eq (pk_of r.input) k ≡ false) (map pk_of (inputs_of l))
        → All (λ x. same_input r x ≡ false) l
    differ [] h = tt
    differ (x ∷ l) (h, hs) = (h, differ l hs)

input_keys_of : (list : List ParsedBlock) → map pk_of (batch_inputs list) ≡ input_keys list
unfolding batch_inputs input_keys
input_keys_of [] = refl
input_keys_of (p ∷ ps) =
    map-append pk_of p.tx_inputs (batch_inputs ps)
    ∙ ap (λ l. map pk_of p.tx_inputs ++ l) (input_keys_of ps)

-- The inputs that are stored at the cut: beside the old ones, some of the batch.
stored_again :
    (cut : Cut) (list : List ParsedBlock) (db : Db)
    → AreUnique key_eq (input_keys list)
    → (part : List TxInput) × ((r : TxInput) → Memᴰ r part → Memᴰ r (batch_inputs list))
      × (stored_inputs (cut_off cut list db)
          ≡ stored_inputs db ++ new_inputs (stored_inputs db) part)
unfolding stored_inputs
stored_again cut list db u =
    let rows = input_rows list in
    let keys : map pk_of (inputs_of rows) ≡ input_keys list =
      ap (map pk_of) (inputs_of-input_rows list) ∙ input_keys_of list in
    let unique : AreUnique same_input rows =
      unique_rows rows (subst (AreUnique key_eq) (sym keys) u) in
    let (done, rest, whole, e) =
      insert_chain-keep same_input (inputs_done cut) rows db.tx_inputs unique in
    let split : inputs_of done ++ inputs_of rest ≡ batch_inputs list =
      sym (map-append (λ (r : TxInputRow). r.input) done rest)
      ∙ ap inputs_of (sym whole)
      ∙ inputs_of-input_rows list in
    (
      inputs_of done,
      λ r m. subst (Memᴰ r) split (Memᴰ.append_left (inputs_of rest) m),
      ap inputs_of (cut_off-tx_inputs cut list db ∙ e)
          ∙ map-append (λ (r : TxInputRow). r.input) db.tx_inputs _
          ∙ ap (λ l. inputs_of db.tx_inputs ++ l) (inputs_of-new done db.tx_inputs),
    )

marked_again :
    (cut : Cut) (ps : List ParsedBlock) (db : Db)
    → All (λ (p : ParsedBlock). AreUnmarked p.tx_inputs) ps
    → AreUnique key_eq (input_keys ps)
    → marked ps (cut_off cut (marked ps db) db) ≡ marked ps db
unfolding marked
marked_again cut ps db u keys =
    let stored = stored_inputs db in
    let list = mark_phantom_spends stored ps in
    let keys' : AreUnique key_eq (input_keys list) =
      subst (AreUnique key_eq) (sym (mark_phantom_spends-input_keys stored ps)) keys in
    let (part, within, e) = stored_again cut list db keys' in
    ap (λ l. mark_phantom_spends l ps) e ∙ mark_phantom_spends_again stored ps part within u

-- A batch that is cut off before its cursor moves, with any number of the first slices of each of its
-- tables written, the table of addresses perhaps behind the whole event log, or with all of those
-- and any number of the first slices of `blocks`, and that is applied again leaves the tables, the
-- cursor and the events that the batch leaves when it is applied at once. The inputs of the batch
-- come unmarked, and with different keys.
pub apply_blocks-interrupted :
    (emit_live_events : Bool) (cut : Cut) (ps : List ParsedBlock) (s : State)
    → All (λ (p : ParsedBlock). AreUnmarked p.tx_inputs) ps
    → AreUnique key_eq (input_keys ps)
    → apply_blocks emit_live_events ps (interrupted cut ps s) ≡ apply_blocks emit_live_events ps s
unfolding apply_blocks interrupted
apply_blocks-interrupted emit cut ps s u keys =
    let list = marked ps s.db in
    let db' = cut_off cut list s.db in
    let end : List ParsedBlock → Db → State =
      λ l db. advance emit l (record s { db = commit l db }) in
    ap (λ l. end l db') (marked_again cut ps s.db u keys)
    ∙ ap (λ db. advance emit list (record s { db = db })) (commit-cut_off cut list s.db)
