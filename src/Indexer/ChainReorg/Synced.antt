-- ===== src/Indexer/ChainReorg/Synced.antt =====
-- A run of ChainReorgHandler.ts on a store that BlockWriter.ts keeps in order.
use grc_explorer.Common.{
  ℕ, ◌+◌, ◌≤◌, ◌<◌, ◌≡◌, refl, sym, ap, ◌∙◌, subst, fun_ext, Bool, false, Option, none, some, List,
  [], ◌∷◌, String, ltb, ◌==◌, str_eq, str_eq_iff, if◌then◌else◌, keep, keep-true, keep-false, All,
  All-map, arith, Bool-cases, inl, inr,
}
use grc_explorer.Parsed.{BlockRow}
use grc_explorer.AddressState.{WalletDelta, Table}
use grc_explorer.AddressState.Projection.{is_of, project, group_row}
use grc_explorer.Chain.{Cursor, Db, State, reorg, live, delete_chain_rows}
use grc_explorer.Indexer.BlockWriter.{last_from}
use grc_explorer.Indexer.BlockWriter.Store.{
  IsChainFrom, IsChain, AtTip, next_height, IsNamed, IsHash, IsSynced, IsChainFrom-Ascends,
  Ascends-above,
}
use grc_explorer.Indexer.ChainReorg.{CursorPosition, Error, ok, err, Daemon, stored_hash, handle}
use grc_explorer.Indexer.ChainReorg.Failure.{Failure, no_cursor, no_answer, no_fork, handle-Failure}
use grc_explorer.Indexer.ChainReorg.Rollback.{
  rolled_back, rolled_back-none, handle_ok-db, handle-IsBelow, handle-project,
}

abbrev below : ℕ → BlockRow → Bool
below n b = ltb b.height n

keep-none :
    (n : ℕ) (bs : List BlockRow) → All (λ (b : BlockRow). n ≤ b.height) bs → keep (below n) bs ≡ []
keep-none n [] h = refl
keep-none n (b ∷ bs) (le, h) =
    let off : below n b ≡ false = ground arith in keep-false (below n) b bs off ∙ keep-none n bs h

keep-IsChainFrom :
    (n : ℕ) (b : BlockRow) (bs : List BlockRow)
    → IsChainFrom b bs
    → IsChainFrom b (keep (below n) bs)
keep-IsChainFrom n b [] h = tt
keep-IsChainFrom n b (c ∷ bs) (f, h) = elim (Bool-cases (below n c)) [
  | inl on ↦
      subst (IsChainFrom b) (sym (keep-true (below n) c bs on)) (f, keep-IsChainFrom n c bs h)
  | inr off ↦
      let high : All (λ (d : BlockRow). n ≤ d.height) bs =
        All-map _ _ (λ d le. ground arith) bs
          (Ascends-above (c.height + 1) bs (IsChainFrom-Ascends c bs h)) in
      subst (IsChainFrom b) (sym (keep-false (below n) c bs off ∙ keep-none n bs high)) tt
]

keep-IsChain : (n : ℕ) (bs : List BlockRow) → IsChain bs → IsChain (keep (below n) bs)
keep-IsChain n [] h = tt
keep-IsChain n (b ∷ bs) h = elim (Bool-cases (below n b)) [
  | inl on ↦ subst IsChain (sym (keep-true (below n) b bs on)) (keep-IsChainFrom n b bs h)
  | inr off ↦
      let high : All (λ (d : BlockRow). n ≤ d.height) bs =
        All-map _ _ (λ d le. ground arith) bs
          (Ascends-above (b.height + 1) bs (IsChainFrom-Ascends b bs h)) in
      subst IsChain (sym (keep-false (below n) b bs off ∙ keep-none n bs high)) tt
]

-- Where the last height is stored in a chain that goes no higher, it is the last block's.
stored_hash-last :
    (b : BlockRow) (bs : List BlockRow) (h : ℕ) (hash : String)
    → IsChainFrom b bs
    → All (λ (c : BlockRow). c.height < h + 1) (b ∷ bs)
    → stored_hash (b ∷ bs) h ≡ some hash
    → (h ≡ (last_from b bs).height) × (hash ≡ (last_from b bs).hash)
unfolding stored_hash last_from
stored_hash-last b [] h hash k low e =
    let pick : Bool → Option String = λ c. if c then some b.hash else none in
    elim (Bool-cases (b.height == h)) [
      | inl y ↦
          let eq : some b.hash ≡ some hash = sym (ap pick y) ∙ e in
          let same : hash ≡ b.hash = cc in (ground arith, same)
      | inr n ↦ let eq : none ≡ some hash = sym (ap pick n) ∙ e in absurd cc
    ]
stored_hash-last b (c ∷ bs) h hash ((f, g), k) (lt, (lt2, low)) e =
    let pick : Bool → Option String = λ d. if d then some b.hash else stored_hash (c ∷ bs) h in
    let ne : (b.height == h) ≡ false = ground arith in
    stored_hash-last c bs h hash k (lt2, low) (sym (ap pick ne) ∙ e)

-- The row of the empty text, which has no deltas.
unnamed :
    (n : ℕ) (ds : List WalletDelta)
    → All (λ (d : WalletDelta). IsNamed d.address × (d.height < n)) ds
    → keep (is_of "") ds ≡ []
unnamed n [] h = refl
unnamed n (d ∷ ds) ((named, _), h) = keep-false (is_of "") d ds named ∙ unnamed n ds h

keep-history :
    (n m : ℕ) (ds : List WalletDelta)
    → All (λ (d : WalletDelta). IsNamed d.address × (d.height < m)) ds
    → All
        (λ (d : WalletDelta). IsNamed d.address × (d.height < n))
        (keep (λ (d : WalletDelta). ltb d.height n) ds)
keep-history n m [] h = tt
keep-history n m (d ∷ ds) ((named, lt), h) =
    let test : WalletDelta → Bool = λ e. ltb e.height n in
    let P : List WalletDelta → Type 0 =
      λ l. All (λ (e : WalletDelta). IsNamed e.address × (e.height < n)) l in
    elim (Bool-cases (test d)) [
      | inl on ↦
          subst P (sym (keep-true test d ds on)) ((named, ground arith), keep-history n m ds h)
      | inr off ↦ subst P (sym (keep-false test d ds off)) (keep-history n m ds h)
    ]

keep-hashes :
    (n : ℕ) (bs : List BlockRow)
    → All (λ (b : BlockRow). IsHash b.hash) bs
    → All (λ (b : BlockRow). IsHash b.hash) (keep (below n) bs)
keep-hashes n [] h = tt
keep-hashes n (b ∷ bs) (hash, h) =
    let P : List BlockRow → Type 0 = λ l. All (λ (c : BlockRow). IsHash c.hash) l in
    elim (Bool-cases (below n b)) [
      | inl on ↦ subst P (sym (keep-true (below n) b bs on)) (hash, keep-hashes n bs h)
      | inr off ↦ subst P (sym (keep-false (below n) b bs off)) (keep-hashes n bs h)
    ]

AtTip-stored :
    (bs : List BlockRow) (c : Cursor)
    → IsChain bs
    → All (λ (b : BlockRow). b.height < c.height + 1) bs
    → stored_hash bs c.height ≡ some c.hash
    → AtTip (some c) bs
unfolding stored_hash
AtTip-stored [] c k low e = absurd cc
AtTip-stored (b ∷ bs) c k low e = stored_hash-last b bs c.height c.hash k low e

no_group :
    (n : ℕ) (ds : List WalletDelta)
    → All (λ (d : WalletDelta). IsNamed d.address × (d.height < n)) ds
    → project ds "" ≡ none
unfolding project group_row
no_group n ds h = ap group_row (unnamed n ds h)

unnamed_row :
    (height : ℕ) (db db' : Db)
    → db' ≡ rolled_back height db
    → db.address_state "" ≡ none
    → project db'.address_balance_history "" ≡ none
    → db'.address_state "" ≡ project db'.address_balance_history ""
unnamed_row height db db' e h k =
    let k' = subst (λ (d : Db). project d.address_balance_history "" ≡ none) e k in
    ap (λ (d : Db). d.address_state "") e ∙ rolled_back-none height db "" h k' ∙ sym k

AtTip-reorg :
    (c : Cursor) (bs : List BlockRow)
    → AtTip (some c) bs
    → AtTip (some (record c { status = reorg })) bs
AtTip-reorg c [] t = absurd t
AtTip-reorg c (b ∷ bs) t = t

module _ (m : ℕ) (daemon : Daemon) (s : State) (synced : IsSynced s.db s.cursor) where
  -- A successful run of the handler keeps the store in order.
  pub handle-IsSynced :
      (fork : CursorPosition) (s' : State)
      → handle m daemon s ≡ (ok fork, s')
      → IsSynced s'.db s'.cursor
  unfolding rolled_back delete_chain_rows
  handle-IsSynced fork s' h =
      let (cur, low, stored, _) = handle-IsBelow m daemon s fork s' h in
      let edb : s'.db ≡ rolled_back fork.height s.db = handle_ok-db m daemon s fork s' h in
      let c : Cursor = record { height = fork.height; hash = fork.hash; status = live } in
      let bs : s'.db.blocks ≡ keep (below (fork.height + 1)) s.db.blocks =
        ap (λ (db : Db). db.blocks) edb in
      let kept =
        keep (λ (d : WalletDelta). ltb d.height (fork.height + 1)) s.db.address_balance_history in
      let hs : s'.db.address_balance_history ≡ kept =
        ap (λ (db : Db). db.address_balance_history) edb in
      let chain : IsChain s'.db.blocks =
        subst IsChain (sym bs) (keep-IsChain (fork.height + 1) s.db.blocks synced.chain) in
      let history : All (λ (d : WalletDelta). IsNamed d.address × (d.height < fork.height + 1))
          s'.db.address_balance_history =
        subst (λ l. All (λ (d : WalletDelta). IsNamed d.address × (d.height < fork.height + 1)) l)
          (sym hs)
          (keep-history (fork.height + 1) (next_height s.cursor) s.db.address_balance_history
            synced.history) in
      subst (IsSynced s'.db) (sym cur) (record {
        chain = chain;
        tip = AtTip-stored s'.db.blocks c chain low.blocks stored;
        hashes =
            subst (λ l. All (λ (b : BlockRow). IsHash b.hash) l) (sym bs)
              (keep-hashes (fork.height + 1) s.db.blocks synced.hashes);
        history = history;
        projected = fun_ext λ a. elim (Bool-cases (str_eq a "")) [
          | inr named ↦ handle-project m daemon s fork s' h synced.projected a named
          | inl empty ↦
              let e : a ≡ "" = (str_eq_iff a "").0 empty in
              subst (λ x. s'.db.address_state x ≡ project s'.db.address_balance_history x) (sym e)
                (unnamed_row fork.height s.db s'.db edb
                  (ap (λ (t : Table). t "") synced.projected ∙ no_group _ _ synced.history)
                  (no_group _ _ history))
        ];
      })

  Failure-IsSynced : (e : Error) (s' : State) → Failure m daemon s e s' → IsSynced s'.db s'.cursor
  Failure-IsSynced e s' (no_cursor missing) = synced
  Failure-IsSynced e s' (no_answer cursor k there low near failed) = synced
  Failure-IsSynced e s' (no_fork cursor there rejects) =
      let now : IsSynced s.db (some cursor) = subst (IsSynced s.db) there synced in
      record {
        chain = now.chain;
        tip = AtTip-reorg cursor s.db.blocks now.tip;
        hashes = now.hashes;
        history = now.history;
        projected = now.projected;
      }

  -- So does one that ends in an error.
  pub handle_err-IsSynced :
      (e : Error) (s' : State) → handle m daemon s ≡ (err e, s') → IsSynced s'.db s'.cursor
  handle_err-IsSynced e s' h = Failure-IsSynced e s' (handle-Failure m daemon s e s' h)
