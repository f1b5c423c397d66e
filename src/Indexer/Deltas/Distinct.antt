-- ===== src/Indexer/Deltas/Distinct.antt =====
-- The deltas of a block have different addresses, none of them empty.
use grc_explorer.Common.{
  ℕ, ◌+◌, ◌≡◌, refl, sym, ap, ◌∙◌, subst, Bool, false, not, ◌&&◌, Option, none, some, List, [], ◌∷◌,
  String, ◌==◌, str_eq, if◌then◌else◌, All, Bool-cases, Option-cases, inl, inr,
}
use grc_explorer.Common.Int.{ℤ, pos, ◌-ℤ◌, eqb_ℤ, ltb_ℤ}
use grc_explorer.Parsed.{TxInput, TxOutput, AddressDelta}
use grc_explorer.Indexer.PhantomSpends.Outline.{addresses}
use grc_explorer.Indexer.BlockWriter.Insert.{AreUnique}
use grc_explorer.Indexer.BlockWriter.Store.{IsNamed}
use grc_explorer.Indexer.Deltas.{
  BlockTx, PrevOutputs, truthy_address, Leg, bump_entry, bump_at, bump_named, bump_delta, sum_at,
  value_or_zero, net_entry, apply_net, net_outputs, net_inputs, input_rows_from, output_rows,
  bump_inputs, bump_outputs, input_sums, output_sums, tx_deltas, is_coinbase_tx, Bundle, process_tx,
  process_from, process_transactions,
}

record AreDistinct (es : List AddressDelta) : Type 0 where
  all_named : All IsNamed (addresses es)
  unique : AreUnique str_eq (addresses es)

bump_at-differs :
    (b a : String) (l : Leg) (es : List AddressDelta)
    → str_eq b a ≡ false
    → All (λ x. str_eq b x ≡ false) (addresses es)
    → All (λ x. str_eq b x ≡ false) (addresses (bump_at a l es))
unfolding bump_at bump_entry
bump_at-differs b a l [] n h = (n, tt)
bump_at-differs b a l (e ∷ es) n (h, hs) =
    let P : List AddressDelta → Type 0 = λ t. All (λ x. str_eq b x ≡ false) (addresses t) in
    let f : Bool → List AddressDelta = λ c. if c then bump_entry l e ∷ es else e ∷ bump_at a l es in
    elim (Bool-cases (str_eq e.address a)) [
      | inl y ↦ subst (λ c. P (f c)) (sym y) (h, hs)
      | inr o ↦ subst (λ c. P (f c)) (sym o) (h, bump_at-differs b a l es n hs)
    ]

bump_at-AreDistinct :
    (a : String) (l : Leg) (es : List AddressDelta)
    → IsNamed a
    → AreDistinct es
    → AreDistinct (bump_at a l es)
unfolding bump_at bump_entry
bump_at-AreDistinct a l [] n h = record { all_named = (n, tt); unique = (tt, tt) }
bump_at-AreDistinct a l (e ∷ es) n h =
    let f : Bool → List AddressDelta = λ c. if c then bump_entry l e ∷ es else e ∷ bump_at a l es in
    let (ne, ns) = h.all_named in
    let (d, u) = h.unique in
    elim (Bool-cases (str_eq e.address a)) [
      | inl y ↦
          subst (λ c. AreDistinct (f c)) (sym y) (record { all_named = (ne, ns); unique = (d, u) })
      | inr o ↦
          let rest = bump_at-AreDistinct a l es n (record { all_named = ns; unique = u }) in
          subst (λ c. AreDistinct (f c)) (sym o)
            (record {
              all_named = (ne, rest.all_named);
              unique = (bump_at-differs e.address a l es o d, rest.unique);
            })
    ]

truthy_address-IsNamed : (o : Option String) (a : String) → truthy_address o ≡ some a → IsNamed a
truthy_address-IsNamed none a h = absurd cc
truthy_address-IsNamed (some b) a h = elim (Bool-cases (str_eq b "")) [
  | inl y ↦ let e : none ≡ some a = sym (ap (λ c. if c then none else some b) y) ∙ h in absurd cc
  | inr n ↦
      let e : some b ≡ some a = sym (ap (λ c. if c then none else some b) n) ∙ h in
      let same : b ≡ a = cc in subst IsNamed same n
]

bump_delta-AreDistinct :
    (o : Option String) (l : Leg) (es : List AddressDelta)
    → AreDistinct es
    → AreDistinct (bump_delta o l es)
unfolding bump_delta bump_named
bump_delta-AreDistinct o l es h =
    let f : Option String → List AddressDelta = λ n. bump_named n l es in
    elim (Option-cases (truthy_address o)) [
      | inl e ↦ subst (λ n. AreDistinct (f n)) (sym e) h
      | inr (a, e) ↦
          subst (λ n. AreDistinct (f n)) (sym e)
            (bump_at-AreDistinct a l es (truthy_address-IsNamed o a e) h)
    ]

net_entry-address : (net : ℤ) (e : AddressDelta) → (net_entry net e).address ≡ e.address
unfolding net_entry
net_entry-address net e = elim (Bool-cases (eqb_ℤ net (pos 0))) [
  | inl z ↦ rw z
  | inr n ↦ elim (Bool-cases (ltb_ℤ (pos 0) net)) [ inl p ↦ rw (n, p) | inr m ↦ rw (n, m) ]
]

apply_net-addresses :
    (a : String) (net : ℤ) (es : List AddressDelta) → addresses (apply_net a net es) ≡ addresses es
unfolding apply_net
apply_net-addresses a net [] = refl
apply_net-addresses a net (e ∷ es) = elim (Bool-cases (str_eq e.address a)) [
  | inl y ↦ rw y (ap (λ x. x ∷ addresses es) (net_entry-address net e))
  | inr n ↦ rw n (ap (λ l. e.address ∷ l) (apply_net-addresses a net es))
]

apply_net-AreDistinct :
    (a : String) (net : ℤ) (es : List AddressDelta)
    → AreDistinct es
    → AreDistinct (apply_net a net es)
apply_net-AreDistinct a net es h =
    let e = apply_net-addresses a net es in
    record {
      all_named = subst (All IsNamed) (sym e) h.all_named;
      unique = subst (AreUnique str_eq) (sym e) h.unique;
    }

net_outputs-AreDistinct :
    (m cs_in : List (String × ℤ)) (es : List AddressDelta)
    → AreDistinct es
    → AreDistinct (net_outputs m cs_in es)
unfolding net_outputs
net_outputs-AreDistinct [] cs_in es h = h
net_outputs-AreDistinct ((a, out) ∷ m) cs_in es h =
    net_outputs-AreDistinct m cs_in _
      (apply_net-AreDistinct a (out -ℤ value_or_zero (sum_at a cs_in)) es h)

net_inputs-AreDistinct :
    (m cs_out : List (String × ℤ)) (es : List AddressDelta)
    → AreDistinct es
    → AreDistinct (net_inputs m cs_out es)
unfolding net_inputs
net_inputs-AreDistinct [] cs_out es h = h
net_inputs-AreDistinct ((a, inv) ∷ m) cs_out es h =
    let f : Option ℤ → List AddressDelta =
      λ o. elim o [ none ↦ apply_net a (pos 0 -ℤ inv) es | some out ↦ es ] in
    net_inputs-AreDistinct m cs_out (f (sum_at a cs_out)) (elim (Option-cases (sum_at a cs_out)) [
      | inl e ↦ subst (λ o. AreDistinct (f o)) (sym e) (apply_net-AreDistinct a (pos 0 -ℤ inv) es h)
      | inr (o, e) ↦ subst (λ o. AreDistinct (f o)) (sym e) h
    ])

bump_inputs-AreDistinct :
    (count : Bool) (is : List TxInput) (es : List AddressDelta)
    → AreDistinct es
    → AreDistinct (bump_inputs count is es)
unfolding bump_inputs
bump_inputs-AreDistinct count [] es h = h
bump_inputs-AreDistinct count (i ∷ is) es h =
    bump_inputs-AreDistinct count is _ (bump_delta-AreDistinct i.address _ es h)

bump_outputs-AreDistinct :
    (count : Bool) (os : List TxOutput) (es : List AddressDelta)
    → AreDistinct es
    → AreDistinct (bump_outputs count os es)
unfolding bump_outputs
bump_outputs-AreDistinct count [] es h = h
bump_outputs-AreDistinct count (o ∷ os) es h =
    bump_outputs-AreDistinct count os _ (bump_delta-AreDistinct o.address _ es h)

tx_deltas-AreDistinct :
    (is_coinstake : Bool) (is : List TxInput) (os : List TxOutput) (es : List AddressDelta)
    → AreDistinct es
    → AreDistinct (tx_deltas is_coinstake is os es)
unfolding tx_deltas
tx_deltas-AreDistinct is_coinstake is os es h =
    let count = not is_coinstake in
    let bumped = bump_outputs count os (bump_inputs count is es) in
    let cs_in = input_sums is [] in
    let cs_out = output_sums os [] in
    let f : Bool → List AddressDelta =
      λ b. if b then net_inputs cs_in cs_out (net_outputs cs_out cs_in bumped) else bumped in
    let d = bump_outputs-AreDistinct count os _ (bump_inputs-AreDistinct count is es h) in
    elim (Bool-cases is_coinstake) [
      | inl y ↦
          subst (λ b. AreDistinct (f b)) (sym y)
            (net_inputs-AreDistinct cs_in cs_out _ (net_outputs-AreDistinct cs_out cs_in bumped d))
      | inr n ↦ subst (λ b. AreDistinct (f b)) (sym n) d
    ]

module _ (prev_outputs : PrevOutputs) (is_pos : Bool) where
  process_from-AreDistinct :
      (index : ℕ) (txs : List BlockTx) (b : Bundle)
      → AreDistinct b.address_deltas
      → AreDistinct (process_from prev_outputs is_pos index txs b).address_deltas
  unfolding process_from process_tx
  process_from-AreDistinct index [] b h = h
  process_from-AreDistinct index (tx ∷ txs) b h =
      process_from-AreDistinct (index + 1) txs (process_tx prev_outputs is_pos index tx b) (
        tx_deltas-AreDistinct (is_pos && index == 1 && not (is_coinbase_tx tx))
          (input_rows_from prev_outputs tx.txid 0 tx.vins) (output_rows tx.txid tx.vouts)
          b.address_deltas h)

  -- The deltas of a block are those of different addresses, none of them empty.
  pub process_transactions-AreUnique :
      (txs : List BlockTx)
      → let deltas = (process_transactions prev_outputs is_pos txs).address_deltas in
        All IsNamed (addresses deltas) × AreUnique str_eq (addresses deltas)
  unfolding process_transactions
  process_transactions-AreUnique txs =
      let d =
        process_from-AreDistinct 0 txs
          (record { tx_inputs = []; tx_outputs = []; address_deltas = [] })
          (record { all_named = tt; unique = tt }) in
      (d.all_named, d.unique)
