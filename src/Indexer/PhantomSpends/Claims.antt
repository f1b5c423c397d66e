-- ===== src/Indexer/PhantomSpends/Claims.antt =====
-- Who claims an outpoint after PhantomSpendDetector.ts has marked a batch.
use grc_explorer.Common.{
  ◌≡◌, ap, true, false, ◌||◌, List, [], ◌∷◌, ◌++◌, str_eq, if◌then◌else◌, All, All-append, All-map,
  arith, Bool-cases, inl, inr,
}
use grc_explorer.Indexer.PhantomSpends.{
  TxInput, AddressDelta, ParsedBlock, Key, key_of, key_eq, has_key, claimed_by, is_other,
  is_phantom, credit, mark_inputs, mark_blocks, mark_phantom_spends,
}

-- The inputs that spend an outpoint and are not marked, in order.
unfoldable pub spenders : List TxInput → List TxInput
spenders [] = []
spenders (i ∷ is) =
    let rest = spenders is in if str_eq i.prev_tx "" || i.is_phantom_spend then rest else i ∷ rest

unfoldable pub batch_spenders : List ParsedBlock → List TxInput
unfolding spenders
batch_spenders [] = []
batch_spenders (b ∷ bs) = spenders b.tx_inputs ++ batch_spenders bs

-- No key is claimed by two of the inputs.
abbrev pub AreDistinct : List TxInput → Type 0
AreDistinct [] = Unit
AreDistinct (i ∷ is) = All (λ j. key_eq (key_of i) (key_of j) ≡ false) is × AreDistinct is

-- The input is not in the claimed keys, and no other stored input claims its key.
pub record IsFree (stored : List TxInput) (claimed : List Key) (i : TxInput) : Type 0 where
  pub unclaimed : has_key claimed (key_of i) ≡ false
  pub first : is_other (claimed_by stored (key_of i)) i ≡ false

-- What marking leaves of the spenders, from some claimed keys to the later ones.
record Marked (stored : List TxInput) (claimed : List Key) (ss : List TxInput) (later : List Key)
    : Type 0 where
  free : All (IsFree stored claimed) ss
  distinct : AreDistinct ss
  grown : (k : Key) → has_key later k ≡ false → has_key claimed k ≡ false
  claims : (k : Key) → has_key later k ≡ false → All (λ i. key_eq (key_of i) k ≡ false) ss

has_key-tail : (x k : Key) (xs : List Key) → has_key (x ∷ xs) k ≡ false → has_key xs k ≡ false
unfolding has_key
has_key-tail x k xs h = ground arith

has_key-head : (x k : Key) (xs : List Key) → has_key (x ∷ xs) k ≡ false → key_eq x k ≡ false
unfolding has_key
has_key-head x k xs h = ground arith

module _ (stored : List TxInput) where
  Marked-nil : (claimed : List Key) → Marked stored claimed [] claimed
  Marked-nil claimed = record { free = tt; distinct = tt; grown = λ k h. h; claims = λ k h. tt }

  Marked-skip :
      (x : Key) (claimed : List Key) (ss : List TxInput) (later : List Key)
      → Marked stored (x ∷ claimed) ss later
      → Marked stored claimed ss later
  Marked-skip x claimed ss later m = record {
    free =
        All-map (IsFree stored (x ∷ claimed)) (IsFree stored claimed)
          (λ j f. record { unclaimed = has_key-tail x _ claimed f.unclaimed; first = f.first }) ss
          m.free;
    distinct = m.distinct;
    grown = λ k h. has_key-tail x k claimed (m.grown k h);
    claims = m.claims;
  }

  Marked-claim :
      (i : TxInput) (claimed : List Key) (ss : List TxInput) (later : List Key)
      → is_phantom stored claimed i ≡ false
      → Marked stored (key_of i ∷ claimed) ss later
      → Marked stored claimed (i ∷ ss) later
  unfolding is_phantom
  Marked-claim i claimed ss later fresh m =
      let rest = Marked-skip (key_of i) claimed ss later m in
      record {
        free = (record { unclaimed = ground arith; first = ground arith }, rest.free);
        distinct = (
          All-map (IsFree stored (key_of i ∷ claimed)) (λ j. key_eq (key_of i) (key_of j) ≡ false)
              (λ j f. has_key-head (key_of i) _ claimed f.unclaimed) ss m.free,
          m.distinct,
        );
        grown = rest.grown;
        claims = λ k h. (has_key-head (key_of i) k claimed (m.grown k h), m.claims k h);
      }

  AreDistinct-append :
      (ss ts : List TxInput)
      → AreDistinct ss
      → AreDistinct ts
      → All (λ j. All (λ i. key_eq (key_of i) (key_of j) ≡ false) ss) ts
      → AreDistinct (ss ++ ts)
  AreDistinct-append [] ts ds dt cross = dt
  AreDistinct-append (i ∷ ss) ts (d, ds) dt cross =
      let P : List TxInput → TxInput → Type 0 =
        λ l j. All (λ x. key_eq (key_of x) (key_of j) ≡ false) l in
      (
        All-append (λ j. key_eq (key_of i) (key_of j) ≡ false) ss ts d
            (All-map (P (i ∷ ss)) (λ j. key_eq (key_of i) (key_of j) ≡ false) (λ j h. h.0) ts
              cross),
        AreDistinct-append ss ts ds dt (All-map (P (i ∷ ss)) (P ss) (λ j h. h.1) ts cross),
      )

  Marked-append :
      (claimed : List Key) (ss : List TxInput) (later : List Key) (ts : List TxInput)
      (last : List Key)
      → Marked stored claimed ss later
      → Marked stored later ts last
      → Marked stored claimed (ss ++ ts) last
  Marked-append claimed ss later ts last m n = record {
    free = All-append (IsFree stored claimed) ss ts m.free (
        All-map (IsFree stored later) (IsFree stored claimed)
          (λ j f. record { unclaimed = m.grown _ f.unclaimed; first = f.first }) ts n.free);
    distinct = AreDistinct-append ss ts m.distinct n.distinct (
        All-map (IsFree stored later) (λ j. All (λ i. key_eq (key_of i) (key_of j) ≡ false) ss)
          (λ j f. m.claims _ f.unclaimed) ts n.free);
    grown = λ k h. m.grown k (n.grown k h);
    claims = λ k h. All-append _ ss ts (m.claims k (n.grown k h)) (n.claims k h);
  }

  spenders-drop :
      (i : TxInput) (is : List TxInput)
      → (str_eq i.prev_tx "" || i.is_phantom_spend) ≡ true
      → spenders (i ∷ is) ≡ spenders is
  unfolding spenders
  spenders-drop i is h = ap (λ b. if b then spenders is else i ∷ spenders is) h

  spenders-keep :
      (i : TxInput) (is : List TxInput)
      → (str_eq i.prev_tx "" || i.is_phantom_spend) ≡ false
      → spenders (i ∷ is) ≡ i ∷ spenders is
  unfolding spenders
  spenders-keep i is h = ap (λ b. if b then spenders is else i ∷ spenders is) h

  mark_inputs-Marked :
      (is : List TxInput) (es : List AddressDelta) (claimed : List Key)
      → Marked stored claimed
          (spenders (mark_inputs stored is es claimed).0)
          (mark_inputs stored is es claimed).2
  unfolding mark_inputs
  mark_inputs-Marked [] es claimed = unfold spenders in Marked-nil claimed
  mark_inputs-Marked (i ∷ is) es claimed = elim (Bool-cases (str_eq i.prev_tx "")) [
    | inl skip ↦ rw (skip, spenders-drop i _ (rw skip)) (mark_inputs-Marked is es claimed)
    | inr used ↦ elim (Bool-cases (is_phantom stored claimed i)) [
      | inl phantom ↦
          rw (used, phantom, spenders-drop (record i { is_phantom_spend = true }) _ (rw used))
            (mark_inputs-Marked is (credit i es) claimed)
      | inr fresh ↦
          let ih = mark_inputs-Marked is es (key_of i ∷ claimed) in
          elim (Bool-cases i.is_phantom_spend) [
            | inl old ↦
                rw (used, fresh, spenders-drop i _ (rw (used, old)))
                  (Marked-skip (key_of i) claimed _ _ ih)
            | inr new ↦
                rw (used, fresh, spenders-keep i _ (rw (used, new)))
                  (Marked-claim i claimed _ _ fresh ih)
          ]
    ]
  ]

  mark_blocks-Marked :
      (bs : List ParsedBlock) (claimed : List Key)
      → (later : List Key) × Marked stored claimed
          (batch_spenders (mark_blocks stored bs claimed))
          later
  unfolding mark_blocks batch_spenders
  mark_blocks-Marked [] claimed = (claimed, Marked-nil claimed)
  mark_blocks-Marked (b ∷ bs) claimed =
      let (_, _, now) = mark_inputs stored b.tx_inputs b.address_deltas claimed in
      let (later, m) = mark_blocks-Marked bs now in
      (
        later,
        Marked-append claimed _ now _ later
            (mark_inputs-Marked b.tx_inputs b.address_deltas claimed) m,
      )

  -- In a marked batch no outpoint is spent by two inputs that are not marked as phantoms, whatever
  -- the batch was; and where a stored input claims the outpoint of one of them, it is that very
  -- input.
  pub mark_phantom_spends-AreDistinct :
      (blocks : List ParsedBlock)
      → AreDistinct (batch_spenders (mark_phantom_spends stored blocks))
        × All (IsFree stored []) (batch_spenders (mark_phantom_spends stored blocks))
  unfolding mark_phantom_spends
  mark_phantom_spends-AreDistinct blocks =
      let (_, m) = mark_blocks-Marked blocks [] in (m.distinct, m.free)
