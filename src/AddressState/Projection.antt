-- ===== src/AddressState/Projection.antt =====
-- The table of addressState.ts as a projection of the event log `address_balance_history`, and its
-- repair after a reorg.
pub mod Fresh
use grc_explorer.Common.{
  ℕ, ◌+◌, ◌≡◌, refl, sym, ap, ◌∙◌, fun_ext, Bool, true, false, ◌&&◌, ◌||◌, not, Option, none, some,
  List, [], ◌∷◌, ◌++◌, String, min, max, str_eq, if◌then◌else◌, keep, keep-true, keep-false,
  keep-append, false-ne-true, append-nil, append_assoc, any, arith, Bool-cases, inl, inr,
}
use grc_explorer.Common.Int.{ℤ, pos, ◌+ℤ◌, +ℤ_assoc, zero-+ℤ, +ℤ-zero}
use grc_explorer.AddressState.{
  Wallet, WalletDelta, Table, new_agg, merge, upsert_row, is_fresh, apply_address_state_deltas,
}
use grc_explorer.AddressState.Batch.{upsert_one, upsert_each, apply-eq-upsert_each, wallet_eq}

-- `SUM` of a column over rows, and `MIN` and `MAX` of the heights.
pub sum_of : (WalletDelta → ℤ) → List WalletDelta → ℤ
sum_of f [] = pos 0
sum_of f (d ∷ ds) = f d +ℤ sum_of f ds

pub count_of : List WalletDelta → ℕ
count_of [] = 0
count_of (d ∷ ds) = d.tx_count_delta + count_of ds

pub min_height : ℕ → List WalletDelta → ℕ
min_height h [] = h
min_height h (d ∷ ds) = min_height (min h d.height) ds

pub max_height : ℕ → List WalletDelta → ℕ
max_height h [] = h
max_height h (d ∷ ds) = max_height (max h d.height) ds

-- The row of the `SELECT ... GROUP BY address` for the rows of one address; no rows, no group.
unfoldable pub group_row : List WalletDelta → Option Wallet
group_row [] = none
group_row (d ∷ ds) = some (record {
  balance = sum_of (λ e. e.delta) (d ∷ ds);
  total_received = sum_of (λ e. e.received) (d ∷ ds);
  total_sent = sum_of (λ e. e.sent) (d ∷ ds);
  tx_count = count_of (d ∷ ds);
  first_seen_block = some (min_height d.height ds);
  last_seen_block = some (max_height d.height ds);
})

abbrev pub is_of : String → WalletDelta → Bool
is_of a d = str_eq d.address a

-- The whole projection of an event log.
unfoldable pub project : List WalletDelta → Table
unfolding group_row
project history a = group_row (keep (is_of a) history)

unfoldable pub contains : String → List String → Bool
contains a [] = false
contains a (x ∷ xs) = str_eq x a || contains a xs

-- The first statement: the groups of the given addresses replace the rows that are there.
pub recompute : List String → List WalletDelta → Table → Table
unfolding contains project
recompute addresses history t a =
    if contains a addresses then elim (project history a) [ none ↦ t a | some w ↦ some w ] else t a

-- The second statement: rows of the given addresses without history go.
pub delete_remnants : List String → List WalletDelta → Table → Table
unfolding contains
delete_remnants addresses history t a =
    if contains a addresses && not (any (is_of a) history) then none else t a

pub repair_address_state : List String → List WalletDelta → Table → Table
repair_address_state addresses history t =
    delete_remnants addresses history (recompute addresses history t)

any-false-keep {ℓ} : {A : Type ℓ} (p : A → Bool) (xs : List A) → any p xs ≡ false → keep p xs ≡ []
any-false-keep p [] h = refl
any-false-keep p (x ∷ xs) h =
    let off : p x ≡ false = ground arith in
    keep-false p x xs off ∙ any-false-keep p xs (ground arith)

any-true-keep {ℓ} :
    {A : Type ℓ} (p : A → Bool) (xs : List A)
    → any p xs ≡ true
    → (y : A) × (ys : List A) × (keep p xs ≡ y ∷ ys)
any-true-keep p [] h = absurd (false-ne-true h)
any-true-keep p (x ∷ xs) h = elim (Bool-cases (p x)) [
  | inl on ↦ (x, keep p xs, keep-true p x xs on)
  | inr off ↦
      let (y, ys, e) = any-true-keep p xs (rw off at h) in (y, ys, keep-false p x xs off ∙ e)
]

-- After the repair, the row of each given address is its group in the event log, or none where the
-- log has no row for it; the rows of all other addresses are as they were.
pub repair_address_state_lem :
    (addresses : List String) (history : List WalletDelta) (t : Table) (a : String)
    → repair_address_state addresses history t a
      ≡ (if contains a addresses then project history a else t a)
unfolding repair_address_state recompute delete_remnants project
repair_address_state_lem addresses history t a = elim (Bool-cases (any (is_of a) history)) [
  | inl on ↦
      let (y, ys, e) = any-true-keep (is_of a) history on in
      rw (on, e) (unfold group_row in ground arith)
  | inr off ↦ rw (off, any-false-keep (is_of a) history off) (unfold group_row in ground arith)
]

sum_of-snoc :
    (f : WalletDelta → ℤ) (ds : List WalletDelta) (d : WalletDelta)
    → sum_of f ds +ℤ f d ≡ sum_of f (ds ++ d ∷ [])
unfolding sum_of
sum_of-snoc f [] d = zero-+ℤ (f d) ∙ sym (+ℤ-zero (f d))
sum_of-snoc f (e ∷ ds) d = +ℤ_assoc _ _ _ ∙ ap (λ s. f e +ℤ s) (sum_of-snoc f ds d)

count_of-snoc :
    (ds : List WalletDelta) (d : WalletDelta)
    → count_of ds + d.tx_count_delta ≡ count_of (ds ++ d ∷ [])
unfolding count_of
count_of-snoc [] d = omega arith
count_of-snoc (e ∷ ds) d = omega (arith, count_of-snoc ds d)

min_height-snoc :
    (h : ℕ) (ds : List WalletDelta) (d : WalletDelta)
    → min (min_height h ds) d.height ≡ min_height h (ds ++ d ∷ [])
unfolding min_height
min_height-snoc h [] d = refl
min_height-snoc h (e ∷ ds) d = min_height-snoc (min h e.height) ds d

max_height-snoc :
    (h : ℕ) (ds : List WalletDelta) (d : WalletDelta)
    → max (max_height h ds) d.height ≡ max_height h (ds ++ d ∷ [])
unfolding max_height
max_height-snoc h [] d = refl
max_height-snoc h (e ∷ ds) d = max_height-snoc (max h e.height) ds d

merge-group_row :
    (ds : List WalletDelta) (d : WalletDelta)
    → some (merge (group_row ds) (new_agg d)) ≡ group_row (ds ++ d ∷ [])
unfolding merge group_row new_agg
merge-group_row [] d =
    unfold sum_of count_of min_height max_height in
    ap some
      (wallet_eq _ _ (sym (+ℤ-zero _)) (sym (+ℤ-zero _)) (sym (+ℤ-zero _)) (omega arith) refl refl)
merge-group_row (e ∷ ds) d = ap some (
    wallet_eq _ _ (sum_of-snoc _ (e ∷ ds) d) (sum_of-snoc _ (e ∷ ds) d) (sum_of-snoc _ (e ∷ ds) d)
      (count_of-snoc (e ∷ ds) d) (ap some (min_height-snoc e.height ds d))
      (ap some (max_height-snoc e.height ds d)))

upsert_one-project :
    (history : List WalletDelta) (d : WalletDelta)
    → upsert_one d (project history) ≡ project (history ++ d ∷ [])
unfolding upsert_one upsert_row project
upsert_one-project history d = fun_ext λ a. elim (Bool-cases (is_of a d)) [
  | inl on ↦
      rw (on, keep-append (is_of a) history (d ∷ []), keep-true (is_of a) d [] on)
        (merge-group_row (keep (is_of a) history) d)
  | inr off ↦
      rw (off, keep-append (is_of a) history (d ∷ []), keep-false (is_of a) d [] off, append-nil)
]

upsert_each-project :
    (ds history : List WalletDelta) → upsert_each ds (project history) ≡ project (history ++ ds)
unfolding upsert_each
upsert_each-project [] history = ap project (sym (append-nil history))
upsert_each-project (d ∷ ds) history =
    ap (upsert_each ds) (upsert_one-project history d)
    ∙ upsert_each-project ds (history ++ d ∷ [])
    ∙ ap project (append_assoc history (d ∷ []) ds)

-- Where the table is the projection of the event log, applying a batch makes it the projection of
-- the log with those deltas behind it that are above the last height of their address; the others,
-- which a replay brings again, leave no trace.
pub apply-project :
    (ds history : List WalletDelta)
    → apply_address_state_deltas ds (project history)
      ≡ project (history ++ keep (is_fresh (project history)) ds)
apply-project ds history =
    apply-eq-upsert_each ds (project history)
    ∙ upsert_each-project (keep (is_fresh (project history)) ds) history
