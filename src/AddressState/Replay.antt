-- ===== src/AddressState/Replay.antt =====
-- The forward re-apply of addressState.ts: a batch that was absorbed already changes nothing.
use grc_explorer.Common.{
  ◌≡◌, refl, sym, ◌∙◌, Bool, false, List, [], ◌∷◌, str_eq_iff, keep, keep-true, keep-false, subst,
  All, arith, Bool-cases, inl, inr,
}
use grc_explorer.AddressState.{
  WalletDelta, Table, new_agg, merge, upsert_row, last_seen, is_after, is_fresh,
  apply_address_state_deltas,
}
use grc_explorer.AddressState.Batch.{upsert_one, upsert_each, apply-eq-upsert_each}

is_fresh-upsert_self : (d : WalletDelta) (t : Table) → is_fresh (upsert_one d t) d ≡ false
unfolding is_fresh last_seen is_after upsert_one upsert_row merge new_agg
is_fresh-upsert_self d t = ground (arith, str_eq_iff d.address d.address)

-- What is not fresh stays so.
is_fresh-upsert :
    (e d : WalletDelta) (t : Table) → is_fresh t d ≡ false → is_fresh (upsert_one e t) d ≡ false
unfolding is_fresh last_seen is_after upsert_one upsert_row merge new_agg
is_fresh-upsert e d t h = ground (arith, str_eq_iff e.address d.address)

is_fresh-upsert_each :
    (es : List WalletDelta) (d : WalletDelta) (t : Table)
    → is_fresh t d ≡ false
    → is_fresh (upsert_each es t) d ≡ false
unfolding upsert_each
is_fresh-upsert_each [] d t h = h
is_fresh-upsert_each (e ∷ es) d t h =
    is_fresh-upsert_each es d (upsert_one e t) (is_fresh-upsert e d t h)

-- Every delta of the batch is absorbed: those that were passed over before the batch, and those
-- that the batch brings in.
all_absorbed :
    (ds : List WalletDelta) (t u : Table)
    → ((d : WalletDelta) → is_fresh t d ≡ false → is_fresh u d ≡ false)
    → All (λ d. is_fresh (upsert_each (keep (is_fresh t) ds) u) d ≡ false) ds
unfolding upsert_each
all_absorbed [] t u low = tt
all_absorbed (d ∷ ds) t u low = elim (Bool-cases (is_fresh t d)) [
  | inl fresh ↦
      subst (λ l. All (λ e. is_fresh (upsert_each l u) e ≡ false) (d ∷ ds))
        (sym (keep-true (is_fresh t) d ds fresh))
        (
          is_fresh-upsert_each (keep (is_fresh t) ds) d (upsert_one d u) (is_fresh-upsert_self d u),
          all_absorbed ds t (upsert_one d u) (λ e h. is_fresh-upsert d e u (low e h)),
        )
  | inr old ↦
      subst (λ l. All (λ e. is_fresh (upsert_each l u) e ≡ false) (d ∷ ds))
        (sym (keep-false (is_fresh t) d ds old))
        (is_fresh-upsert_each (keep (is_fresh t) ds) d u (low d old), all_absorbed ds t u low)
]

keep-eq-nil {ℓ} :
    {A : Type ℓ} (p : A → Bool) (xs : List A) → All (λ x. p x ≡ false) xs → keep p xs ≡ []
keep-eq-nil p [] h = refl
keep-eq-nil p (x ∷ xs) (h, hs) = rw (h, keep) (keep-eq-nil p xs hs)

-- A batch of deltas that is applied a second time changes nothing, whatever the table.
pub apply_idempotent :
    (ds : List WalletDelta) (t : Table)
    → apply_address_state_deltas ds (apply_address_state_deltas ds t)
      ≡ apply_address_state_deltas ds t
apply_idempotent ds t =
    let t' = apply_address_state_deltas ds t in
    let absorbed : All (λ d. is_fresh t' d ≡ false) ds =
      rw (apply-eq-upsert_each ds t) (all_absorbed ds t t (λ d h. h)) in
    apply-eq-upsert_each ds t'
    ∙ rw (keep-eq-nil (is_fresh t') ds absorbed) (unfold upsert_each in refl)
