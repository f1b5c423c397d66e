-- ===== src/Indexer/Deltas/Balance.antt =====
-- The deltas of a block against its outputs and inputs, and against the rows of `address_txs` that
-- BlockWriter.ts derives from the same outputs and inputs.
use grc_explorer.Common.{
  ℕ, ◌+◌, ◌≡◌, refl, sym, ap, ◌∙◌, Bool, true, false, not, ◌&&◌, Option, none, some, List, [], ◌∷◌,
  ◌++◌, String, ◌==◌, str_eq, str_eq_iff, if◌then◌else◌, All-append, arith, Bool-cases,
  Option-cases, inl, inr,
}
use grc_explorer.Common.Int.{ℤ, pos, ◌+ℤ◌, ◌-ℤ◌, ltb_ℤ, eqb_ℤ, int_laws, +ℤ_assoc, +ℤ-zero, zero-+ℤ}
use grc_explorer.Parsed.{TxInput, TxOutput, AddressDelta, ParsedBlock}
use grc_explorer.Indexer.PhantomSpends.Credits.{delta_at}
use grc_explorer.Indexer.PhantomSpends.Replay.{AreUnmarked}
use grc_explorer.Indexer.BlockWriter.{named, address_txs_of}
use grc_explorer.Indexer.BlockWriter.AddressTxs.{
  is_for, known_value, debit_if, debit_of, moved, received, spent, address_txs_of-moved,
}
use grc_explorer.Indexer.Deltas.{
  BlockVin, coinbase, spends, BlockTx, PrevOutputs, truthy_address, Leg, bump_entry, bump_at,
  bump_named, bump_delta, sum_at, value_or_zero, net_entry, apply_net, net_outputs, net_inputs,
  input_row, input_rows_from, output_rows, bump_inputs, bump_outputs, input_sums, output_sums,
  tx_deltas, is_coinbase_tx, Bundle, process_tx, process_from, process_transactions, with_bundle,
}

module _ (a : String) where
  bump_at-delta :
      (b : String) (l : Leg) (es : List AddressDelta)
      → delta_at a (bump_at b l es)
        ≡ delta_at a es +ℤ (if str_eq b a then l.signed_delta else pos 0)
  unfolding bump_at bump_entry delta_at
  bump_at-delta b l [] = elim (Bool-cases (str_eq b a)) [
    | inl y ↦ rw y
    | inr n ↦ rw n (omega int_laws)
  ]
  bump_at-delta b l (e ∷ es) = elim (Bool-cases (str_eq e.address b)) [
    | inl y ↦
        let same : e.address ≡ b = (str_eq_iff e.address b).0 y in
        rw y (
          rw same
            (elim (Bool-cases (str_eq b a)) [ inl y ↦ rw y | inr n ↦ rw n (sym (+ℤ-zero _)) ]))
    | inr n ↦ rw n (elim (Bool-cases (str_eq e.address a)) [
      | inl ea ↦
          let other : str_eq b a ≡ false =
            ground (arith, str_eq_iff e.address b, str_eq_iff e.address a, str_eq_iff b a) in
          rw (ea, other) (sym (+ℤ-zero _))
      | inr na ↦ rw na (bump_at-delta b l es)
    ])
  ]

  bump_delta-delta :
      (o : Option String) (l : Leg) (es : List AddressDelta)
      → delta_at a (bump_delta o l es)
        ≡ delta_at a es +ℤ (if is_for a (truthy_address o) then l.signed_delta else pos 0)
  unfolding bump_delta bump_named
  bump_delta-delta o l es = bump_named-delta (truthy_address o)
    where
      bump_named-delta :
          (n : Option String)
          → delta_at a (bump_named n l es)
            ≡ delta_at a es +ℤ (if is_for a n then l.signed_delta else pos 0)
      bump_named-delta none = sym (+ℤ-zero _)
      bump_named-delta (some b) = bump_at-delta b l es

  apply_net-delta :
      (b : String) (net : ℤ) (es : List AddressDelta)
      → delta_at a (apply_net b net es) ≡ delta_at a es
  unfolding apply_net net_entry delta_at
  apply_net-delta b net [] = refl
  apply_net-delta b net (e ∷ es) = elim (Bool-cases (str_eq e.address b)) [
    | inl y ↦ rw y (elim (Bool-cases (eqb_ℤ net (pos 0))) [
      | inl z ↦ rw z
      | inr nz ↦ elim (Bool-cases (ltb_ℤ (pos 0) net)) [ inl p ↦ rw (nz, p) | inr m ↦ rw (nz, m) ]
    ])
    | inr n ↦ rw n (ap (λ d. if str_eq e.address a then e.delta else d) (apply_net-delta b net es))
  ]

  net_outputs-delta :
      (m cs_in : List (String × ℤ)) (es : List AddressDelta)
      → delta_at a (net_outputs m cs_in es) ≡ delta_at a es
  unfolding net_outputs
  net_outputs-delta [] cs_in es = refl
  net_outputs-delta ((b, out) ∷ m) cs_in es =
      net_outputs-delta m cs_in (apply_net b (out -ℤ value_or_zero (sum_at b cs_in)) es)
      ∙ apply_net-delta b (out -ℤ value_or_zero (sum_at b cs_in)) es

  net_inputs-delta :
      (m cs_out : List (String × ℤ)) (es : List AddressDelta)
      → delta_at a (net_inputs m cs_out es) ≡ delta_at a es
  unfolding net_inputs
  net_inputs-delta [] cs_out es = refl
  net_inputs-delta ((b, inv) ∷ m) cs_out es =
      net_inputs-delta m cs_out _ ∙ elim (Option-cases (sum_at b cs_out)) [
        | inl e ↦ rw e (apply_net-delta b (pos 0 -ℤ inv) es)
        | inr (o, e) ↦ rw e
      ]

  truthy_address-named : (o : Option String) → truthy_address o ≡ named o
  unfolding named
  truthy_address-named none = refl
  truthy_address-named (some b) = refl

  bump_outputs-delta :
      (count : Bool) (os : List TxOutput) (es : List AddressDelta)
      → delta_at a (bump_outputs count os es) ≡ delta_at a es +ℤ received a os
  unfolding bump_outputs received
  bump_outputs-delta count [] es = sym (+ℤ-zero _)
  bump_outputs-delta count (o ∷ os) es =
      let l : Leg = record {
        signed_delta = o.value;
        tx_id = o.tx_id;
        is_receive = true;
        count_in_out = count;
      } in
      bump_outputs-delta count os (bump_delta o.address l es)
      ∙ ap (λ x. x +ℤ received a os) (bump_delta-delta o.address l es)
      ∙ +ℤ_assoc _ _ _
      ∙ ap (λ n. delta_at a es +ℤ ((if is_for a n then o.value else pos 0) +ℤ received a os))
          (truthy_address-named o.address)

  -- What a leg takes is what the input spends.
  leg-debit :
      (i : TxInput)
      → i.is_phantom_spend ≡ false
      → (if is_for a (truthy_address i.address) then pos 0 -ℤ value_or_zero i.value else pos 0)
        ≡ pos 0 -ℤ debit_of a i
  unfolding debit_of
  leg-debit i h =
      ap (λ n. if is_for a n then pos 0 -ℤ value_or_zero i.value else pos 0)
        (truthy_address-named i.address)
      ∙ value_cases (is_for a (named i.address)) i.value
      ∙ ap (λ b. pos 0 -ℤ debit_if b a (named i.address) i.value) (sym h)
    where
      value_cases :
          (b : Bool) (v : Option ℤ)
          → (if b then pos 0 -ℤ value_or_zero v else pos 0)
            ≡ pos 0 -ℤ (if b then known_value v else pos 0)
      value_cases true none = refl
      value_cases true (some v) = refl
      value_cases false v = omega int_laws

  bump_inputs-delta :
      (count : Bool) (is : List TxInput) (es : List AddressDelta)
      → AreUnmarked is
      → delta_at a (bump_inputs count is es) ≡ delta_at a es -ℤ spent a is
  unfolding bump_inputs spent
  bump_inputs-delta count [] es h = omega int_laws
  bump_inputs-delta count (i ∷ is) es (h, hs) =
      let l : Leg = record {
        signed_delta = pos 0 -ℤ value_or_zero i.value;
        tx_id = i.tx_id;
        is_receive = false;
        count_in_out = count;
      } in
      bump_inputs-delta count is (bump_delta i.address l es) hs
      ∙ ap (λ x. x -ℤ spent a is) (bump_delta-delta i.address l es)
      ∙ ap (λ x. delta_at a es +ℤ x -ℤ spent a is) (leg-debit i h)
      ∙ rearranged (delta_at a es) (debit_of a i) (spent a is)
    where
      rearranged : (d x y : ℤ) → d +ℤ (pos 0 -ℤ x) -ℤ y ≡ d -ℤ (x +ℤ y)
      rearranged d x y = omega int_laws

  tx_deltas-delta :
      (is_coinstake : Bool) (is : List TxInput) (os : List TxOutput) (es : List AddressDelta)
      → AreUnmarked is
      → delta_at a (tx_deltas is_coinstake is os es) ≡ delta_at a es -ℤ spent a is +ℤ received a os
  unfolding tx_deltas
  tx_deltas-delta is_coinstake is os es h =
      let count = not is_coinstake in
      let bumped = bump_outputs count os (bump_inputs count is es) in
      let cs_in = input_sums is [] in
      let cs_out = output_sums os [] in
      let net = net_inputs cs_in cs_out (net_outputs cs_out cs_in bumped) in
      let f : Bool → ℤ = λ b. delta_at a (if b then net else bumped) in
      let plain : delta_at a bumped ≡ delta_at a es -ℤ spent a is +ℤ received a os =
        bump_outputs-delta count os (bump_inputs count is es)
        ∙ ap (λ x. x +ℤ received a os) (bump_inputs-delta count is es h) in
      elim (Bool-cases is_coinstake) [
        | inl y ↦
            ap f y
            ∙ net_inputs-delta cs_in cs_out (net_outputs cs_out cs_in bumped)
            ∙ net_outputs-delta cs_out cs_in bumped
            ∙ plain
        | inr n ↦ ap f n ∙ plain
      ]

  received-append : (os ps : List TxOutput) → received a (os ++ ps) ≡ received a os +ℤ received a ps
  unfolding received
  received-append [] ps = sym (zero-+ℤ _)
  received-append (o ∷ os) ps =
      ap (λ x. (if is_for a (named o.address) then o.value else pos 0) +ℤ x) (received-append os ps)
      ∙ sym (+ℤ_assoc _ _ _)

  spent-append : (is js : List TxInput) → spent a (is ++ js) ≡ spent a is +ℤ spent a js
  unfolding spent
  spent-append [] js = sym (zero-+ℤ _)
  spent-append (i ∷ is) js = ap (λ x. debit_of a i +ℤ x) (spent-append is js) ∙ sym (+ℤ_assoc _ _ _)

  module _ (prev_outputs : PrevOutputs) (is_pos : Bool) where
    input_rows-AreUnmarked :
        (txid : String) (n : ℕ) (vs : List BlockVin)
        → AreUnmarked (input_rows_from prev_outputs txid n vs)
    unfolding input_rows_from input_row
    input_rows-AreUnmarked txid n [] = tt
    input_rows-AreUnmarked txid n (coinbase ∷ vs) = input_rows-AreUnmarked txid (n + 1) vs
    input_rows-AreUnmarked txid n (spends t k ∷ vs) = (refl, input_rows-AreUnmarked txid (n + 1) vs)

    -- The deltas agree with the inputs and outputs, which are not marked.
    record IsBalanced (b : Bundle) : Type 0 where
      balance : delta_at a b.address_deltas ≡ received a b.tx_outputs -ℤ spent a b.tx_inputs
      unmarked : AreUnmarked b.tx_inputs

    process_tx-IsBalanced :
        (index : ℕ) (tx : BlockTx) (b : Bundle)
        → IsBalanced b
        → IsBalanced (process_tx prev_outputs is_pos index tx b)
    unfolding process_tx
    process_tx-IsBalanced index tx b h =
        let is = input_rows_from prev_outputs tx.txid 0 tx.vins in
        let os = output_rows tx.txid tx.vouts in
        let is_coinstake = is_pos && index == 1 && not (is_coinbase_tx tx) in
        let u = input_rows-AreUnmarked tx.txid 0 tx.vins in
        let sums : (d r s x y : ℤ) → d ≡ r -ℤ s → d -ℤ x +ℤ y ≡ (r +ℤ y) -ℤ (s +ℤ x) =
          λ d r s x y e. rw e (omega int_laws) in
        record {
          balance =
              tx_deltas-delta is_coinstake is os b.address_deltas u
              ∙ sums _ (received a b.tx_outputs) (spent a b.tx_inputs) (spent a is) (received a os)
                  h.balance
              ∙ ap (λ x. x -ℤ (spent a b.tx_inputs +ℤ spent a is))
                  (sym (received-append b.tx_outputs os))
              ∙ ap (λ x. received a (b.tx_outputs ++ os) -ℤ x) (sym (spent-append b.tx_inputs is));
          unmarked = All-append (λ i. i.is_phantom_spend ≡ false) b.tx_inputs is h.unmarked u;
        }

    process_from-IsBalanced :
        (index : ℕ) (txs : List BlockTx) (b : Bundle)
        → IsBalanced b
        → IsBalanced (process_from prev_outputs is_pos index txs b)
    unfolding process_from
    process_from-IsBalanced index [] b h = h
    process_from-IsBalanced index (tx ∷ txs) b h =
        process_from-IsBalanced (index + 1) txs (process_tx prev_outputs is_pos index tx b)
          (process_tx-IsBalanced index tx b h)

    process_transactions-IsBalanced :
        (txs : List BlockTx) → IsBalanced (process_transactions prev_outputs is_pos txs)
    unfolding process_transactions delta_at received spent
    process_transactions-IsBalanced txs =
        process_from-IsBalanced 0 txs
          (record { tx_inputs = []; tx_outputs = []; address_deltas = [] })
          (record { balance = omega int_laws; unmarked = tt })

    -- For the transactions of a block, coinstake or not, the delta of an address in the event log is
    -- the sum of the movements that its rows in `address_txs` show for the block.
    pub address_txs_of-delta_at :
        (p : ParsedBlock) (txs : List BlockTx)
        → let p' = with_bundle p (process_transactions prev_outputs is_pos txs) in
          moved a (address_txs_of p') ≡ delta_at a p'.address_deltas
    address_txs_of-delta_at p txs =
        address_txs_of-moved a (with_bundle p (process_transactions prev_outputs is_pos txs))
        ∙ sym (process_transactions-IsBalanced txs).balance
