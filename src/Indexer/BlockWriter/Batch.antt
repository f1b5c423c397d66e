-- ===== src/Indexer/BlockWriter/Batch.antt =====
-- The deltas that a batch of blocks brings to the event log.
use grc_explorer.Common.{
  ℕ, ◌+◌, ◌≤◌, ◌<◌, ◌≡◌, refl, false, List, [], ◌∷◌, ◌++◌, map, String, str_eq, All, All-map,
  All-append, arith,
}
use grc_explorer.Parsed.{BlockRow, AddressDelta, ParsedBlock}
use grc_explorer.AddressState.{WalletDelta}
use grc_explorer.Indexer.PhantomSpends.Outline.{addresses}
use grc_explorer.Indexer.BlockWriter.{same_delta, flat_map, wallet_delta, wallet_deltas}
use grc_explorer.Indexer.BlockWriter.Insert.{has_row, AreUnique}
use grc_explorer.Indexer.BlockWriter.Store.{IsNamed, IsHash, Ascends}

-- A block has a hash, and its deltas are those of different addresses.
pub record IsGood (b : BlockRow) (names : List String) : Type 0 where
  pub hash : IsHash b.hash
  pub all_named : All IsNamed names
  pub unique : AreUnique str_eq names

abbrev pub AreGood : List ParsedBlock → Type 0
AreGood ps = All (λ p. IsGood p.block (addresses p.address_deltas)) ps

-- The delta is one of the heights from a first to below a last, and has an address.
abbrev pub IsWithin : ℕ → ℕ → WalletDelta → Type 0
IsWithin from to d = IsNamed d.address × (from ≤ d.height) × (d.height < to)

-- The height after a batch.
abbrev pub end_height : ℕ → List BlockRow → ℕ
end_height next [] = next
end_height next (b ∷ bs) = end_height (b.height + 1) bs

pub end_height-le : (next : ℕ) (bs : List BlockRow) → Ascends next bs → next ≤ end_height next bs
end_height-le next [] h = omega arith
end_height-le next (b ∷ bs) (le, h) = omega (arith, end_height-le (b.height + 1) bs h)

deltas-IsWithin :
    (h to : ℕ) (es : List AddressDelta)
    → h < to
    → All IsNamed (addresses es)
    → All (IsWithin h to) (map (wallet_delta h) es)
unfolding wallet_delta
deltas-IsWithin h to [] lt n = tt
deltas-IsWithin h to (e ∷ es) lt (n, ns) = ((n, omega arith, lt), deltas-IsWithin h to es lt ns)

deltas-differ :
    (h : ℕ) (e : AddressDelta) (es : List AddressDelta)
    → All (λ a. str_eq e.address a ≡ false) (addresses es)
    → All (λ d. same_delta (wallet_delta h e) d ≡ false) (map (wallet_delta h) es)
unfolding wallet_delta
deltas-differ h e [] d = tt
deltas-differ h e (f ∷ es) (d, ds) = (ground arith, deltas-differ h e es ds)

deltas-AreUnique :
    (h : ℕ) (es : List AddressDelta)
    → AreUnique str_eq (addresses es)
    → AreUnique same_delta (map (wallet_delta h) es)
deltas-AreUnique h [] u = tt
deltas-AreUnique h (e ∷ es) (d, u) = (deltas-differ h e es d, deltas-AreUnique h es u)

AreUnique-append :
    (h to : ℕ) (ds es : List WalletDelta)
    → AreUnique same_delta ds
    → AreUnique same_delta es
    → All (λ (d : WalletDelta). d.height < h) ds
    → All (IsWithin h to) es
    → AreUnique same_delta (ds ++ es)
AreUnique-append h to [] es u v lo hi = v
AreUnique-append h to (d ∷ ds) es (n, u) v (lt, lo) hi = (
  All-append (λ x. same_delta d x ≡ false) ds es n
      (All-map (IsWithin h to) (λ x. same_delta d x ≡ false) (λ x (_, ge, _). ground arith) es hi),
  AreUnique-append h to ds es u v lo hi,
)

-- The deltas of a batch of ascending blocks have different keys, and lie between its heights.
pub wallet_deltas-IsWithin :
    (next : ℕ) (ps : List ParsedBlock)
    → Ascends next (map (λ p. p.block) ps)
    → AreGood ps
    → All (IsWithin next (end_height next (map (λ p. p.block) ps))) (wallet_deltas ps)
      × AreUnique same_delta (wallet_deltas ps)
unfolding wallet_deltas flat_map
wallet_deltas-IsWithin next [] a g = (tt, tt)
wallet_deltas-IsWithin next (p ∷ ps) (le, a) (g, gs) =
    let h = p.block.height in
    let to = end_height (h + 1) (map (λ (q : ParsedBlock). q.block) ps) in
    let lt : h + 1 ≤ to = end_height-le (h + 1) _ a in
    let (within, unique) = wallet_deltas-IsWithin (h + 1) ps a gs in
    let here : All (IsWithin h to) (map (wallet_delta h) p.address_deltas) =
      deltas-IsWithin h to p.address_deltas (omega arith) g.all_named in
    let now : All (IsWithin h (h + 1)) (map (wallet_delta h) p.address_deltas) =
      deltas-IsWithin h (h + 1) p.address_deltas (omega arith) g.all_named in
    (
      All-append (IsWithin next to) _ _
          (All-map (IsWithin h to) (IsWithin next to) (λ d (n, ge, lt). (n, omega arith, lt)) _
            here)
          (All-map (IsWithin (h + 1) to) (IsWithin next to) (λ d (n, ge, lt). (n, omega arith, lt))
            _ within),
      AreUnique-append (h + 1) to _ _ (deltas-AreUnique h p.address_deltas g.unique) unique
          (All-map (IsWithin h (h + 1)) (λ d. d.height < h + 1) (λ d (_, _, lt). lt) _ now) within,
    )

-- A delta that the log has not reached has no row in it.
pub has_row-new :
    (next to : ℕ) (history : List WalletDelta) (d : WalletDelta)
    → All (λ (e : WalletDelta). e.height < next) history
    → IsWithin next to d
    → has_row same_delta d history ≡ false
has_row-new next to [] d low h = refl
has_row-new next to (e ∷ history) d (lt, low) (n, ge, l) =
    ground (arith, has_row-new next to history d low (n, ge, l))
