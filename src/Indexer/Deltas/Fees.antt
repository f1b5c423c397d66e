-- ===== src/Indexer/Deltas/Fees.antt =====
-- The amounts of a transaction and of a block in `processTransactions` of
-- packages/grc-explorer/src/services/indexer/ContractParser.ts: what comes in, what goes out, the
-- fee, and the totals `valueMoved` and `feeTotal`.
use grc_explorer.Common.{
  ◌≡◌, sym, ap, ◌∙◌, ℕ, ◌+◌, Bool, true, false, not, ◌&&◌, ◌||◌, List, [], ◌∷◌, ◌==◌, if◌then◌else◌,
}
use grc_explorer.Common.Int.{ℤ, pos, ◌+ℤ◌, ◌-ℤ◌, ◌≤ℤ◌, ltb_ℤ, int_laws, +ℤ-zero, zero-+ℤ, +ℤ_assoc}
use grc_explorer.BlockFlow.Sums.{positive_rest}
use grc_explorer.Parsed.{TxInput}
use grc_explorer.Indexer.Deltas.{
  PrevOutputs, BlockVout, BlockTx, value_or_zero, is_coinbase_tx, input_rows_from,
}

unfoldable pub input_total : List TxInput → ℤ
input_total [] = pos 0
input_total (i ∷ is) = value_or_zero i.value +ℤ input_total is

unfoldable pub output_total : List BlockVout → ℤ
output_total [] = pos 0
output_total (v ∷ vs) = v.value +ℤ output_total vs

-- `rawFee > 0n ? rawFee : 0n`
abbrev pub clamp_fee : ℤ → ℤ
clamp_fee raw = if ltb_ℤ (pos 0) raw then raw else pos 0

pub record BlockTotals : Type 0 where
  pub value_moved : ℤ
  pub fee_total : ℤ

rearrange : (v o f c i : ℤ) → o +ℤ c ≡ i → v +ℤ o +ℤ (f +ℤ c) ≡ v +ℤ f +ℤ i
rearrange v o f c i e = rw (sym e) (omega int_laws)

module _ (prev_outputs : PrevOutputs) (is_pos : Bool) where
  -- `isCoinbase || isCoinstake`
  abbrev pub is_generator : ℕ → BlockTx → Bool
  is_generator index tx = is_coinbase_tx tx || (is_pos && index == 1 && not (is_coinbase_tx tx))

  unfoldable pub tx_in : BlockTx → ℤ
  tx_in tx = input_total (input_rows_from prev_outputs tx.txid 0 tx.vins)

  unfoldable pub add_totals : Bool → BlockTx → BlockTotals → BlockTotals
  unfolding output_total tx_in
  add_totals generator tx t = record {
    value_moved = if not generator then t.value_moved +ℤ output_total tx.vouts else t.value_moved;
    fee_total =
        t.fee_total +ℤ clamp_fee (if generator then pos 0 else tx_in tx -ℤ output_total tx.vouts);
  }

  unfoldable pub totals_from : ℕ → List BlockTx → BlockTotals → BlockTotals
  unfolding add_totals
  totals_from index [] t = t
  totals_from index (tx ∷ txs) t =
      totals_from (index + 1) txs (add_totals (is_generator index tx) tx t)

  unfoldable pub block_totals : List BlockTx → BlockTotals
  unfolding totals_from
  block_totals txs = totals_from 0 txs (record { value_moved = pos 0; fee_total = pos 0 })

  -- What a transaction spends and pays out, nothing for a coinbase or a coinstake.
  unfoldable pub user_in : Bool → BlockTx → ℤ
  user_in generator tx = if generator then pos 0 else tx_in tx

  unfoldable pub user_out : Bool → BlockTx → ℤ
  user_out generator tx = if generator then pos 0 else output_total tx.vouts

  -- What the transactions spend that are neither a coinbase nor a coinstake.
  pub spent_from : ℕ → List BlockTx → ℤ
  spent_from index [] = pos 0
  spent_from index (tx ∷ txs) = user_in (is_generator index tx) tx +ℤ spent_from (index + 1) txs

  -- None of them pays out more than it spends.
  unfoldable pub IsCovered : ℕ → List BlockTx → Type 0
  IsCovered index [] = Unit
  IsCovered index (tx ∷ txs) =
      (user_out (is_generator index tx) tx ≤ℤ user_in (is_generator index tx) tx)
      × IsCovered (index + 1) txs

  add_totals-sum :
      (g : Bool) (tx : BlockTx) (t : BlockTotals)
      → user_out g tx ≤ℤ user_in g tx
      → (add_totals g tx t).value_moved +ℤ (add_totals g tx t).fee_total
        ≡ t.value_moved +ℤ t.fee_total +ℤ user_in g tx
  unfolding add_totals user_in user_out
  add_totals-sum true tx t h = omega int_laws
  add_totals-sum false tx t h =
      let r = positive_rest (tx_in tx) (output_total tx.vouts) h in
      rearrange t.value_moved (output_total tx.vouts) t.fee_total _ (tx_in tx) r

  totals_from-spent :
      (index : ℕ) (txs : List BlockTx) (t : BlockTotals)
      → IsCovered index txs
      → (totals_from index txs t).value_moved +ℤ (totals_from index txs t).fee_total
        ≡ t.value_moved +ℤ t.fee_total +ℤ spent_from index txs
  unfolding totals_from spent_from IsCovered
  totals_from-spent index [] t h = sym (+ℤ-zero _)
  totals_from-spent index (tx ∷ txs) t (h, hs) =
      let g = is_generator index tx in
      totals_from-spent (index + 1) txs (add_totals g tx t) hs
      ∙ ap (λ x. x +ℤ spent_from (index + 1) txs) (add_totals-sum g tx t h)
      ∙ +ℤ_assoc _ _ _

  -- Where no transaction but a coinbase and a coinstake pays out more than it spends, the moved
  -- value and the fees of a block add up to what those transactions spend.
  pub block_totals-spent :
      (txs : List BlockTx)
      → IsCovered 0 txs
      → (block_totals txs).value_moved +ℤ (block_totals txs).fee_total ≡ spent_from 0 txs
  unfolding block_totals ◌+ℤ◌
  block_totals-spent txs h = totals_from-spent 0 txs _ h ∙ zero-+ℤ _
