-- ===== src/Indexer/ChainReorg/Rollback.antt =====
-- What `handle` of ChainReorgHandler.ts leaves behind.
use grc_explorer.Common.{
  ℕ, ◌+◌, ◌<◌, ◌≡◌, refl, sym, ap, ◌∙◌, subst, Bool, true, false, not, ◌&&◌, Option, none, some,
  List, [], ◌∷◌, String, ltb, leb, ◌==◌, str_eq, str_eq_iff, keep, keep-true, keep-false, arith,
  Bool-cases, Option-cases, inl, inr, false-ne-true,
}
use grc_explorer.AddressState.{WalletDelta}
use grc_explorer.AddressState.Projection.{
  is_of, project, contains, repair_address_state, repair_address_state_lem, group_row,
}
use grc_explorer.Parsed.{BlockRow}
use grc_explorer.Chain.{Cursor, Db, State, live, publish, set_cursor, delete_chain_rows}
use grc_explorer.Chain.Deletion.{IsBelow, delete_chain_rows-IsBelow}
use grc_explorer.Indexer.ChainReorg.{
  CursorPosition, Error, cursor_missing, Result, ok, err, Daemon, stored_hash, hash_agrees,
  collect_affected_addresses, abandoned_min_time, find_fork_point, roll_back, handle_fork, handle,
}
use grc_explorer.Indexer.ChainReorg.ForkPoint.{find_fork_point-Agrees}

-- The database after a rollback to a height.
unfoldable pub rolled_back : ℕ → Db → Db
rolled_back height db =
    let kept = delete_chain_rows (height + 1) db in
    record kept {
      address_state =
          repair_address_state (collect_affected_addresses (height + 1) db.address_balance_history)
            kept.address_balance_history kept.address_state;
    }

roll_back-db :
    (cursor : Cursor) (fork : CursorPosition) (s : State)
    → (roll_back cursor fork s).db ≡ rolled_back fork.height s.db
unfolding roll_back publish set_cursor rolled_back
roll_back-db cursor fork s =
    elim (Option-cases (abandoned_min_time (fork.height + 1) s.db.blocks)) [
      | inl e ↦ rw e
      | inr (t, e) ↦ rw e
    ]

roll_back-cursor :
    (cursor : Cursor) (fork : CursorPosition) (s : State)
    → (roll_back cursor fork s).cursor
      ≡ some (record { height = fork.height; hash = fork.hash; status = live })
unfolding roll_back publish set_cursor
roll_back-cursor cursor fork s = refl

rolled_back-IsBelow : (height : ℕ) (db : Db) → IsBelow (height + 1) (rolled_back height db)
unfolding rolled_back
rolled_back-IsBelow height db =
    let kept = delete_chain_rows-IsBelow (height + 1) db in
    record {
      blocks = kept.blocks;
      history = kept.history;
      polls = kept.polls;
      tx_inputs = kept.tx_inputs;
      address_txs = kept.address_txs;
      other = kept.other;
    }

handle_fork_ok :
    (cursor : Cursor) (r : Result (Option CursorPosition)) (s : State) (fork : CursorPosition)
    (s' : State)
    → handle_fork cursor r s ≡ (ok fork, s')
    → (r ≡ ok (some fork)) × (s' ≡ roll_back cursor fork s)
unfolding handle_fork
handle_fork_ok cursor (err e) s fork s' h = absurd cc
handle_fork_ok cursor (ok none) s fork s' h = absurd cc
handle_fork_ok cursor (ok (some found)) s fork s' h =
    let e : found ≡ fork = cc in (ap (λ f. ok (some f)) e, rw (← e) cc)

stored_hash-keep :
    (from : ℕ) (blocks : List BlockRow) (h : ℕ)
    → h < from
    → stored_hash (keep (λ b. ltb b.height from) blocks) h ≡ stored_hash blocks h
unfolding stored_hash
stored_hash-keep from [] h lt = refl
stored_hash-keep from (b ∷ bs) h lt = elim (Bool-cases (ltb b.height from)) [
  | inl on ↦
      rw (keep-true (λ (c : BlockRow). ltb c.height from) b bs on)
        (rw (stored_hash-keep from bs h lt))
  | inr off ↦
      let ne : (b.height == h) ≡ false = ground arith in
      rw (keep-false (λ (c : BlockRow). ltb c.height from) b bs off, ne)
        (stored_hash-keep from bs h lt)
]

rolled_back-stored :
    (height : ℕ) (db : Db)
    → stored_hash (rolled_back height db).blocks height ≡ stored_hash db.blocks height
unfolding rolled_back delete_chain_rows
rolled_back-stored height db = stored_hash-keep (height + 1) db.blocks height (omega arith)

hash_agrees-some : (o : Option String) (hash : String) → hash_agrees o hash ≡ true → o ≡ some hash
unfolding hash_agrees
hash_agrees-some none hash h = absurd (false-ne-true h)
hash_agrees-some (some stored) hash h = ap some ((str_eq_iff stored hash).0 (ground arith))

-- An address that is not among the affected ones has no row at or above the height.
unaffected :
    (from : ℕ) (history : List WalletDelta) (a : String)
    → str_eq a "" ≡ false
    → contains a (collect_affected_addresses from history) ≡ false
    → keep (is_of a) (keep (λ d. ltb d.height from) history) ≡ keep (is_of a) history
unfolding collect_affected_addresses contains
unaffected from [] a ne h = refl
unaffected from (d ∷ ds) a ne h =
    let below : WalletDelta → Bool = λ e. ltb e.height from in
    let dirty : WalletDelta → Bool = λ e. leb from e.height && not (str_eq e.address "") in
    elim (Bool-cases (ltb d.height from)) [
      | inl on ↦
          let out : dirty d ≡ false = ground arith in
          let ih = unaffected from ds a ne (rw (keep-false dirty d ds out) at h) in
          ap (keep (is_of a)) (keep-true below d ds on) ∙ elim (Bool-cases (is_of a d)) [
            | inl here ↦
                keep-true (is_of a) d _ here
                ∙ ap (λ l. d ∷ l) ih
                ∙ sym (keep-true (is_of a) d ds here)
            | inr other ↦
                keep-false (is_of a) d _ other ∙ ih ∙ sym (keep-false (is_of a) d ds other)
          ]
      | inr off ↦ elim (Bool-cases (str_eq d.address "")) [
        | inl empty ↦
            let other : is_of a d ≡ false =
              ground (arith, str_eq_iff d.address "", str_eq_iff d.address a, str_eq_iff a "") in
            let out : dirty d ≡ false = ground arith in
            ap (keep (is_of a)) (keep-false below d ds off)
            ∙ unaffected from ds a ne (rw (keep-false dirty d ds out) at h)
            ∙ sym (keep-false (is_of a) d ds other)
        | inr named ↦
            let on : dirty d ≡ true = ground arith in
            let rest : contains a (d.address ∷ collect_affected_addresses from ds) ≡ false =
              rw (keep-true dirty d ds on) at h in
            let other : is_of a d ≡ false = ground arith in
            ap (keep (is_of a)) (keep-false below d ds off)
            ∙ unaffected from ds a ne (ground arith)
            ∙ sym (keep-false (is_of a) d ds other)
      ]
    ]

rolled_back-project :
    (height : ℕ) (db : Db) (a : String)
    → str_eq a "" ≡ false
    → db.address_state ≡ project db.address_balance_history
    → (rolled_back height db).address_state a
      ≡ project (rolled_back height db).address_balance_history a
unfolding rolled_back delete_chain_rows
rolled_back-project height db a ne h =
    let history = db.address_balance_history in
    let kept = keep (λ d. ltb d.height (height + 1)) history in
    let dirty = collect_affected_addresses (height + 1) history in
    repair_address_state_lem dirty kept db.address_state a ∙ elim (Bool-cases (contains a dirty)) [
      | inl on ↦ rw on
      | inr off ↦
          rw (off, h)
            (unfold project in ap group_row (sym (unaffected (height + 1) history a ne off)))
    ]

-- An address that has no row and no deltas gets no row.
pub rolled_back-none :
    (height : ℕ) (db : Db) (a : String)
    → db.address_state a ≡ none
    → project (rolled_back height db).address_balance_history a ≡ none
    → (rolled_back height db).address_state a ≡ none
unfolding rolled_back delete_chain_rows
rolled_back-none height db a h k =
    let kept = keep (λ d. ltb d.height (height + 1)) db.address_balance_history in
    let dirty = collect_affected_addresses (height + 1) db.address_balance_history in
    repair_address_state_lem dirty kept db.address_state a
    ∙ elim (Bool-cases (contains a dirty)) [ inl on ↦ rw on k | inr off ↦ rw off h ]

err-ne-ok :
    {e : Error} {f : CursorPosition} {s s' : State}
    → ¬ (◌≡◌ {A = Result CursorPosition × State} (err e, s) (ok f, s'))
err-ne-ok h = cc

pub handle-none :
    (m : ℕ) (daemon : Daemon) (s : State)
    → s.cursor ≡ none
    → handle m daemon s ≡ (err cursor_missing, s)
unfolding handle
handle-none m daemon s e =
    let f : Option Cursor → Result CursorPosition × State = λ o. elim o [
      | none ↦ (err cursor_missing, s)
      | some c ↦ handle_fork c (find_fork_point m daemon s.db.blocks c.height) s
    ] in
    ap f e

pub handle-some :
    (m : ℕ) (daemon : Daemon) (s : State) (cursor : Cursor)
    → s.cursor ≡ some cursor
    → handle m daemon s ≡ handle_fork cursor (find_fork_point m daemon s.db.blocks cursor.height) s
unfolding handle
handle-some m daemon s cursor e =
    let f : Option Cursor → Result CursorPosition × State = λ o. elim o [
      | none ↦ (err cursor_missing, s)
      | some c ↦ handle_fork c (find_fork_point m daemon s.db.blocks c.height) s
    ] in
    ap f e

module _ (m : ℕ) (daemon : Daemon) (s : State) (fork : CursorPosition) (s' : State)
    (h : handle m daemon s ≡ (ok fork, s')) where
  handle_ok_inv :
      (cursor : Cursor) × (s.cursor ≡ some cursor)
      × (find_fork_point m daemon s.db.blocks cursor.height ≡ ok (some fork))
      × (s' ≡ roll_back cursor fork s)
  handle_ok_inv = elim (Option-cases s.cursor) [
    | inl e ↦ absurd (err-ne-ok (sym (handle-none m daemon s e) ∙ h))
    | inr (cursor, e) ↦
        let (found, after) =
          handle_fork_ok cursor _ s fork s' (sym (handle-some m daemon s cursor e) ∙ h) in
        (cursor, e, found, after)
  ]

  pub handle_ok-db : s'.db ≡ rolled_back fork.height s.db
  handle_ok-db =
      let (cursor, e, found, after) = handle_ok_inv in
      ap (λ (t : State). t.db) after ∙ roll_back-db cursor fork s

  -- After a successful run, the cursor stands live on the fork, every chain table holds rows up to
  -- the fork's height only, and the block that is stored there has the hash that the daemon has at
  -- that height.
  pub handle-IsBelow :
      (s'.cursor ≡ some (record { height = fork.height; hash = fork.hash; status = live }))
      × IsBelow (fork.height + 1) s'.db
      × (stored_hash s'.db.blocks fork.height ≡ some fork.hash)
      × (daemon fork.height ≡ some fork.hash)
  handle-IsBelow =
      let (cursor, e, found, after) = handle_ok_inv in
      let (_, _, agrees) = find_fork_point-Agrees daemon s.db.blocks m cursor.height fork found in
      (
        ap (λ (t : State). t.cursor) after ∙ roll_back-cursor cursor fork s,
        subst (IsBelow (fork.height + 1)) (sym handle_ok-db) (rolled_back-IsBelow fork.height s.db),
        ap (λ (db : Db). stored_hash db.blocks fork.height) handle_ok-db
            ∙ rolled_back-stored fork.height s.db
            ∙ hash_agrees-some _ _ agrees.stored,
        agrees.onchain,
      )

  -- Where the table of addresses was the projection of the event log before a successful run, the
  -- row of every address that is not the empty text is the projection of the event log that is left
  -- after it.
  pub handle-project :
      s.db.address_state ≡ project s.db.address_balance_history
      → (a : String) → str_eq a "" ≡ false
      → s'.db.address_state a ≡ project s'.db.address_balance_history a
  handle-project p a ne = rw handle_ok-db (rolled_back-project fork.height s.db a ne p)
