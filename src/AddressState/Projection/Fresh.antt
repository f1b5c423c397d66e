-- ===== src/AddressState/Projection/Fresh.antt =====
-- Which deltas of addressState.ts are fresh against the projection of an event log.
use grc_explorer.Common.{
  ℕ, ◌≤◌, ◌<◌, ◌≡◌, refl, sym, ap, ◌∙◌, subst, Bool, true, List, [], ◌∷◌, max, keep, keep-true,
  keep-false, All, arith, Bool-cases, inl, inr,
}
use grc_explorer.AddressState.{WalletDelta, last_seen, is_after, is_fresh}
use grc_explorer.AddressState.Projection.{project, group_row, max_height, is_of}

max_height-lt :
    (h next : ℕ) (ds : List WalletDelta)
    → h < next
    → All (λ (d : WalletDelta). d.height < next) ds
    → max_height h ds < next
unfolding max_height
max_height-lt h next [] lt hs = lt
max_height-lt h next (d ∷ ds) lt (l, hs) = max_height-lt (max h d.height) next ds (omega arith) hs

keep-All {ℓ κ} :
    {A : Type ℓ} (P : A → Type κ) (p : A → Bool) (xs : List A) → All P xs → All P (keep p xs)
keep-All P p [] h = tt
keep-All P p (x ∷ xs) (h, hs) = elim (Bool-cases (p x)) [
  | inl on ↦ subst (All P) (sym (keep-true p x xs on)) (h, keep-All P p xs hs)
  | inr off ↦ subst (All P) (sym (keep-false p x xs off)) (keep-All P p xs hs)
]

group_row-is_after :
    (next h : ℕ) (ds : List WalletDelta)
    → All (λ (d : WalletDelta). d.height < next) ds
    → next ≤ h
    → is_after (last_seen (group_row ds)) h ≡ true
unfolding group_row last_seen is_after
group_row-is_after next h [] lt le = refl
group_row-is_after next h (d ∷ ds) (l, lt) le =
    let m : max_height d.height ds < next = max_height-lt d.height next ds l lt in ground arith

-- Deltas of heights that the log has not reached are all fresh.
pub keep-is_fresh :
    (next : ℕ) (history ds : List WalletDelta)
    → All (λ (d : WalletDelta). d.height < next) history
    → All (λ (d : WalletDelta). next ≤ d.height) ds
    → keep (is_fresh (project history)) ds ≡ ds
unfolding is_fresh project
keep-is_fresh next history [] low h = refl
keep-is_fresh next history (d ∷ ds) low (ge, h) =
    keep-true (is_fresh (project history)) d ds
      (group_row-is_after next d.height _ (keep-All _ (is_of d.address) history low) ge)
    ∙ ap (λ l. d ∷ l) (keep-is_fresh next history ds low h)
