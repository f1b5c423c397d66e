-- ===== src/AddressState/Batch.antt =====
-- The batched upsert of addressState.ts against an upsert of one delta at a time.
use grc_explorer.Common.{
  ◌≡◌, refl, sym, ap, ◌∙◌, fun_ext, true, Option, none, some, List, [], ◌∷◌, String, str_eq,
  str_eq_iff, keep, arith, Bool-cases, inl, inr,
}
use grc_explorer.Common.Int.{+ℤ_assoc, +ℤ_comm, +ℤ_right_comm}
use grc_explorer.AddressState.{
  Wallet, WalletDelta, Agg, Table, new_agg, bump, add_delta, aggregate, merge, upsert_row,
  upsert_all, is_fresh, apply_address_state_deltas,
}

-- The upsert of a single delta, and of several in turn.
unfoldable pub upsert_one : WalletDelta → Table → Table
upsert_one d t = upsert_row d.address (new_agg d) t

unfoldable pub upsert_each : List WalletDelta → Table → Table
upsert_each [] t = t
upsert_each (d ∷ ds) t = upsert_each ds (upsert_one d t)

pub wallet_eq :
    (v w : Wallet)
    → v.balance ≡ w.balance
    → v.total_received ≡ w.total_received
    → v.total_sent ≡ w.total_sent
    → v.tx_count ≡ w.tx_count
    → v.first_seen_block ≡ w.first_seen_block
    → v.last_seen_block ≡ w.last_seen_block
    → v ≡ w
wallet_eq v w b r s c f l = λ i. record {
  balance = b i;
  total_received = r i;
  total_sent = s i;
  tx_count = c i;
  first_seen_block = f i;
  last_seen_block = l i;
}

merge-bump :
    (w : Option Wallet) (g : Agg) (d : WalletDelta)
    → merge w (bump g d) ≡ merge (some (merge w g)) (new_agg d)
unfolding merge bump new_agg
merge-bump none g d = wallet_eq _ _ refl refl refl refl (ground arith) (ground arith)
merge-bump (some w) g d =
    wallet_eq _ _ (sym (+ℤ_assoc _ _ _)) (sym (+ℤ_assoc _ _ _)) (sym (+ℤ_assoc _ _ _)) (omega arith)
      (ground arith) (ground arith)

merge_comm :
    (w : Option Wallet) (g h : Agg) → merge (some (merge w g)) h ≡ merge (some (merge w h)) g
unfolding merge
merge_comm none g h =
    wallet_eq _ _ (+ℤ_comm _ _) (+ℤ_comm _ _) (+ℤ_comm _ _) (omega arith) (ground arith)
      (ground arith)
merge_comm (some w) g h =
    wallet_eq _ _ (+ℤ_right_comm _ _ _) (+ℤ_right_comm _ _ _) (+ℤ_right_comm _ _ _) (omega arith)
      (ground arith) (ground arith)

upsert_row_comm :
    (k j : String) (g h : Agg) (t : Table)
    → upsert_row k g (upsert_row j h t) ≡ upsert_row j h (upsert_row k g t)
unfolding upsert_row
upsert_row_comm k j g h t = fun_ext λ a. ground (arith, merge_comm (t a) h g)

upsert_row-bump :
    (k : String) (g : Agg) (d : WalletDelta) (t : Table)
    → str_eq k d.address ≡ true
    → upsert_row k (bump g d) t ≡ upsert_one d (upsert_row k g t)
unfolding upsert_row upsert_one
upsert_row-bump k g d t h =
    let e : k ≡ d.address = (str_eq_iff k d.address).0 h in
    rw (← e) (fun_ext λ a. ground (arith, merge-bump (t a) g d))

upsert_all-upsert_one :
    (m : List (String × Agg)) (d : WalletDelta) (t : Table)
    → upsert_all m (upsert_one d t) ≡ upsert_one d (upsert_all m t)
unfolding upsert_all upsert_one
upsert_all-upsert_one [] d t = refl
upsert_all-upsert_one ((k, g) ∷ m) d t =
    ap (upsert_all m) (upsert_row_comm k d.address g (new_agg d) t)
    ∙ upsert_all-upsert_one m d (upsert_row k g t)

upsert_all-add_delta :
    (m : List (String × Agg)) (d : WalletDelta) (t : Table)
    → upsert_all (add_delta d m) t ≡ upsert_one d (upsert_all m t)
unfolding upsert_all add_delta upsert_one
upsert_all-add_delta [] d t = refl
upsert_all-add_delta ((k, g) ∷ m) d t = elim (Bool-cases (str_eq k d.address)) [
  | inl same ↦ rw same (
      ap (upsert_all m) (upsert_row-bump k g d t same)
      ∙ upsert_all-upsert_one m d (upsert_row k g t))
  | inr other ↦ rw other (upsert_all-add_delta m d (upsert_row k g t))
]

upsert_all-aggregate :
    (ds : List WalletDelta) (m : List (String × Agg)) (t : Table)
    → upsert_all (aggregate m ds) t ≡ upsert_each ds (upsert_all m t)
unfolding aggregate upsert_each
upsert_all-aggregate [] m t = refl
upsert_all-aggregate (d ∷ ds) m t =
    upsert_all-aggregate ds (add_delta d m) t ∙ ap (upsert_each ds) (upsert_all-add_delta m d t)

-- The aggregation of a batch into one row for each address and the additive upsert of those rows
-- leave the same table as an upsert of each delta in turn, where both pass over the deltas at or
-- below the height that their address had reached before the batch.
pub apply-eq-upsert_each :
    (ds : List WalletDelta) (t : Table)
    → apply_address_state_deltas ds t ≡ upsert_each (keep (is_fresh t) ds) t
unfolding apply_address_state_deltas upsert_all
apply-eq-upsert_each ds t = upsert_all-aggregate (keep (is_fresh t) ds) [] t
