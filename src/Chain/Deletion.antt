-- ===== src/Chain/Deletion.antt =====
-- What the deletion of lib/chainTables.ts leaves.
use grc_explorer.Common.{
  ℕ, ◌<◌, ◌≡◌, refl, sym, ap, ◌∙◌, subst, Bool, true, false, not, ◌&&◌, List, [], ◌∷◌, String, min,
  ltb, leb, str_eq, keep, keep-true, keep-false, any, All, All-map, arith, Bool-cases, inl, inr,
  false-ne-true,
}
use grc_explorer.AddressState.{WalletDelta}
use grc_explorer.Parsed.{BlockRow, PollRow, PollOption, HeightRow, OtherTable}
use grc_explorer.Chain.{TxInputRow, AddressTxRow, Db, poll_is_at_or_above, delete_chain_rows}

module _ {ℓ} {A : Type ℓ} where
  pub All-keep : (p : A → Bool) (xs : List A) → All (λ x. p x ≡ true) (keep p xs)
  All-keep p [] = tt
  All-keep p (x ∷ xs) = elim (Bool-cases (p x)) [
    | inl on ↦ rw (keep-true p x xs on) (on, All-keep p xs)
    | inr off ↦ rw (keep-false p x xs off) (All-keep p xs)
  ]

  keep-keep :
      (p q r : A → Bool)
      → ((x : A) → r x ≡ (p x && q x))
      → (xs : List A) → keep p (keep q xs) ≡ keep r xs
  keep-keep p q r h [] = refl
  keep-keep p q r h (x ∷ xs) = elim (Bool-cases (q x)) [
    | inl on ↦ elim (Bool-cases (p x)) [
      | inl on' ↦
          let both : r x ≡ true = rw (h x, on, on') in
          ap (keep p) (keep-true q x xs on)
          ∙ keep-true p x (keep q xs) on'
          ∙ ap (λ l. x ∷ l) (keep-keep p q r h xs)
          ∙ sym (keep-true r x xs both)
      | inr off' ↦
          let out : r x ≡ false = rw (h x, on, off') in
          ap (keep p) (keep-true q x xs on)
          ∙ keep-false p x (keep q xs) off'
          ∙ keep-keep p q r h xs
          ∙ sym (keep-false r x xs out)
    ]
    | inr off ↦
        let out : r x ≡ false = ground (arith, h x) in
        ap (keep p) (keep-false q x xs off) ∙ keep-keep p q r h xs ∙ sym (keep-false r x xs out)
  ]

-- Every row of every table stems from a height below the bound.
pub record IsBelow (from : ℕ) (db : Db) : Type 0 where
  pub blocks : All (λ (b : BlockRow). b.height < from) db.blocks
  pub history : All (λ (d : WalletDelta). d.height < from) db.address_balance_history
  pub polls : All (λ (p : PollRow). p.block_height < from) db.polls
  pub tx_inputs : All (λ (r : TxInputRow). r.block_height < from) db.tx_inputs
  pub address_txs : All (λ (r : AddressTxRow). r.block_height < from) db.address_txs
  pub other : (t : OtherTable) → All (λ (r : HeightRow). r.height < from) (db.other t)

-- After the deletion from a height, no table with a height has a row at or above it.
pub delete_chain_rows-IsBelow : (from : ℕ) (db : Db) → IsBelow from (delete_chain_rows from db)
unfolding delete_chain_rows
delete_chain_rows-IsBelow from db = record {
  blocks = All-map _ _ (λ b h. ground arith) _ (All-keep _ db.blocks);
  history = All-map _ _ (λ d h. ground arith) _ (All-keep _ db.address_balance_history);
  polls = All-map _ _ (λ p h. ground arith) _ (All-keep _ db.polls);
  tx_inputs = All-map _ _ (λ r h. ground arith) _ (All-keep _ db.tx_inputs);
  address_txs = All-map _ _ (λ r h. ground arith) _ (All-keep _ db.address_txs);
  other = λ t. All-map _ _ (λ r h. ground arith) _ (All-keep _ (db.other t));
}

-- A poll with the identifier is there.
abbrev pub HasPoll : List PollRow → PollOption → Type 0
HasPoll polls o = any (λ p. str_eq p.poll_id o.poll_id) polls ≡ true

HasPoll-keep :
    (from : ℕ) (polls : List PollRow) (o : PollOption)
    → HasPoll polls o
    → poll_is_at_or_above from polls o.poll_id ≡ false
    → HasPoll (keep (λ p. ltb p.block_height from) polls) o
unfolding poll_is_at_or_above
HasPoll-keep from [] o h n = absurd (false-ne-true h)
HasPoll-keep from (p ∷ polls) o h n = elim (Bool-cases (ltb p.block_height from)) [
  | inl on ↦ elim (Bool-cases (str_eq p.poll_id o.poll_id)) [
    | inl same ↦ rw (keep-true (λ (q : PollRow). ltb q.block_height from) p polls on) (ground arith)
    | inr other ↦
        let ih = HasPoll-keep from polls o (ground arith) (ground arith) in
        rw (keep-true (λ (q : PollRow). ltb q.block_height from) p polls on) (ground arith)
  ]
  | inr off ↦
      let at : leb from p.block_height ≡ true = ground arith in
      rw (keep-false (λ (q : PollRow). ltb q.block_height from) p polls off)
        (HasPoll-keep from polls o (ground arith) (ground arith))
]

options_kept :
    (from : ℕ) (polls : List PollRow) (os : List PollOption)
    → All (HasPoll polls) os
    → All
        (HasPoll (keep (λ p. ltb p.block_height from) polls))
        (keep (λ o. not (poll_is_at_or_above from polls o.poll_id)) os)
options_kept from polls [] h = tt
options_kept from polls (o ∷ os) (h, hs) =
    let p : PollOption → Bool = λ o. not (poll_is_at_or_above from polls o.poll_id) in
    elim (Bool-cases (poll_is_at_or_above from polls o.poll_id)) [
      | inl gone ↦
          subst (All (HasPoll (keep (λ p. ltb p.block_height from) polls)))
            (sym (keep-false p o os (rw gone))) (options_kept from polls os hs)
      | inr there ↦
          subst (All (HasPoll (keep (λ p. ltb p.block_height from) polls)))
            (sym (keep-true p o os (rw there)))
            (HasPoll-keep from polls o h there, options_kept from polls os hs)
    ]

-- Where each poll option belongs to a stored poll, this is so after a deletion: the options of the
-- deleted polls are deleted with them.
pub delete_chain_rows-HasPoll :
    (from : ℕ) (db : Db)
    → All (HasPoll db.polls) db.poll_options
    → All (HasPoll (delete_chain_rows from db).polls) (delete_chain_rows from db).poll_options
unfolding delete_chain_rows
delete_chain_rows-HasPoll from db h = options_kept from db.polls db.poll_options h

both_bounds : (x from to : ℕ) → ltb x (min from to) ≡ (ltb x from && ltb x to)
both_bounds x from to = ground arith

poll_gone :
    (from to : ℕ) (polls : List PollRow) (id : String)
    → not (poll_is_at_or_above (min from to) polls id) ≡ (
        not (poll_is_at_or_above from (keep (λ p. ltb p.block_height to) polls) id)
        && not (poll_is_at_or_above to polls id))
unfolding poll_is_at_or_above
poll_gone from to [] id = refl
poll_gone from to (p ∷ polls) id = elim (Bool-cases (ltb p.block_height to)) [
  | inl on ↦
      rw (keep-true (λ (q : PollRow). ltb q.block_height to) p polls on)
        (ground (arith, poll_gone from to polls id))
  | inr off ↦
      rw (keep-false (λ (q : PollRow). ltb q.block_height to) p polls off)
        (ground (arith, poll_gone from to polls id))
]

-- A deletion from one height after a deletion from another leaves what a single one from the lower
-- of the two leaves. (So a repeated rollback to the same height deletes nothing more.)
pub delete_chain_rows_twice :
    (from to : ℕ) (db : Db)
    → delete_chain_rows from (delete_chain_rows to db) ≡ delete_chain_rows (min from to) db
unfolding delete_chain_rows
delete_chain_rows_twice from to db = λ i. record {
  blocks =
      keep-keep (λ (b : BlockRow). ltb b.height from) _ _ (λ b. both_bounds b.height from to)
        db.blocks i;
  address_balance_history =
      keep-keep (λ (d : WalletDelta). ltb d.height from) _ _ (λ d. both_bounds d.height from to)
        db.address_balance_history i;
  polls =
      keep-keep (λ (p : PollRow). ltb p.block_height from) _ _
        (λ p. both_bounds p.block_height from to) db.polls i;
  poll_options =
      keep-keep
        (λ (o : PollOption).
          not (poll_is_at_or_above from (keep (λ p. ltb p.block_height to) db.polls) o.poll_id))
        _ _ (λ o. poll_gone from to db.polls o.poll_id) db.poll_options i;
  tx_inputs =
      keep-keep (λ (r : TxInputRow). ltb r.block_height from) _ _
        (λ r. both_bounds r.block_height from to) db.tx_inputs i;
  address_txs =
      keep-keep (λ (r : AddressTxRow). ltb r.block_height from) _ _
        (λ r. both_bounds r.block_height from to) db.address_txs i;
  other = λ t.
      keep-keep (λ (r : HeightRow). ltb r.height from) _ _ (λ r. both_bounds r.height from to)
        (db.other t) i;
  address_state = db.address_state;
}
