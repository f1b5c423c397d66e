-- ===== src/Indexer/BlockWriter/Store.antt =====
-- What the indexer keeps true of its store between two steps.
use grc_explorer.Common.{
  ℕ, ◌+◌, ◌≤◌, ◌<◌, ◌≡◌, refl, true, false, Option, none, some, List, [], ◌∷◌, ◌++◌, String, str_eq,
  All, All-map, arith,
}
use grc_explorer.Parsed.{BlockRow, is_hex_64}
use grc_explorer.AddressState.{WalletDelta}
use grc_explorer.AddressState.Projection.{project}
use grc_explorer.Chain.{Cursor, Db}
use grc_explorer.Indexer.BlockWriter.{last_from, same_block}
use grc_explorer.Indexer.BlockWriter.Insert.{has_row, AreUnique}

abbrev pub Follows : BlockRow → BlockRow → Type 0
Follows b c = (c.height ≡ b.height + 1) × (c.prev_hash ≡ b.hash)

-- Each block is the successor of the one before it.
abbrev pub IsChainFrom : BlockRow → List BlockRow → Type 0
IsChainFrom b [] = Unit
IsChainFrom b (c ∷ cs) = Follows b c × IsChainFrom c cs

abbrev pub IsChain : List BlockRow → Type 0
IsChain [] = Unit
IsChain (b ∷ bs) = IsChainFrom b bs

-- The cursor stands on the last block, and there is no cursor where there is no block.
abbrev pub AtTip : Option Cursor → List BlockRow → Type 0
AtTip none [] = Unit
AtTip (some c) (b ∷ bs) = (c.height ≡ (last_from b bs).height) × (c.hash ≡ (last_from b bs).hash)
AtTip _ _ = ⊥

-- The height that comes next.
abbrev pub next_height : Option Cursor → ℕ
next_height none = 0
next_height (some c) = c.height + 1

abbrev pub IsNamed : String → Type 0
IsNamed a = str_eq a "" ≡ false

-- The hash of a block.
abbrev pub IsHash : String → Type 0
IsHash h = is_hex_64 h ≡ true

-- The stored blocks are a chain that ends at the cursor, the event log has only deltas of addresses
-- and of heights up to the cursor, and the table of addresses is the projection of the event log.
pub record IsSynced (db : Db) (cursor : Option Cursor) : Type 0 where
  pub chain : IsChain db.blocks
  pub tip : AtTip cursor db.blocks
  pub hashes : All (λ (b : BlockRow). IsHash b.hash) db.blocks
  pub history :
      All
        (λ (d : WalletDelta). IsNamed d.address × (d.height < next_height cursor))
        db.address_balance_history
  pub projected : db.address_state ≡ project db.address_balance_history

pub last_from-append {ℓ} :
    {A : Type ℓ} (b : A) (bs cs : List A) → last_from b (bs ++ cs) ≡ last_from (last_from b bs) cs
unfolding last_from
last_from-append b [] cs = refl
last_from-append b (c ∷ bs) cs = last_from-append c bs cs

pub IsChainFrom-append :
    (b : BlockRow) (bs cs : List BlockRow)
    → IsChainFrom b bs
    → IsChainFrom (last_from b bs) cs
    → IsChainFrom b (bs ++ cs)
unfolding last_from
IsChainFrom-append b [] cs h k = k
IsChainFrom-append b (c ∷ bs) cs (f, h) k = (f, IsChainFrom-append c bs cs h k)

-- The heights of a chain go up to its last one.
pub IsChainFrom-le :
    (b : BlockRow) (bs : List BlockRow)
    → IsChainFrom b bs
    → (b.height ≤ (last_from b bs).height)
      × All (λ (c : BlockRow). c.height ≤ (last_from b bs).height) bs
unfolding last_from
IsChainFrom-le b [] h = (omega arith, tt)
IsChainFrom-le b (c ∷ bs) ((e, _), h) =
    let (first, rest) = IsChainFrom-le c bs h in (omega arith, (first, rest))

-- The blocks of a batch go up from a height, each to a greater one.
abbrev pub Ascends : ℕ → List BlockRow → Type 0
Ascends next [] = Unit
Ascends next (b ∷ bs) = (next ≤ b.height) × Ascends (b.height + 1) bs

pub IsChainFrom-Ascends :
    (b : BlockRow) (bs : List BlockRow) → IsChainFrom b bs → Ascends (b.height + 1) bs
IsChainFrom-Ascends b [] h = tt
IsChainFrom-Ascends b (c ∷ bs) ((e, _), h) = (omega arith, IsChainFrom-Ascends c bs h)

pub Ascends-above :
    (next : ℕ) (bs : List BlockRow) → Ascends next bs → All (λ (b : BlockRow). next ≤ b.height) bs
Ascends-above next [] h = tt
Ascends-above next (b ∷ bs) (le, h) =
    (le, All-map _ _ (λ c k. omega arith) bs (Ascends-above (b.height + 1) bs h))

pub Ascends-AreUnique : (next : ℕ) (bs : List BlockRow) → Ascends next bs → AreUnique same_block bs
Ascends-AreUnique next [] h = tt
Ascends-AreUnique next (b ∷ bs) (le, h) = (
  All-map _ _ (λ c k. ground arith) bs (Ascends-above (b.height + 1) bs h),
  Ascends-AreUnique (b.height + 1) bs h,
)

pub has_row-below :
    (next : ℕ) (b : BlockRow) (bs : List BlockRow)
    → All (λ (c : BlockRow). c.height < next) bs
    → next ≤ b.height
    → has_row same_block b bs ≡ false
has_row-below next b [] h le = refl
has_row-below next b (c ∷ bs) (lt, h) le = ground (arith, has_row-below next b bs h le)

-- The stored heights are below the next one.
pub AtTip-below :
    (c : Option Cursor) (bs : List BlockRow)
    → IsChain bs
    → AtTip c bs
    → All (λ (b : BlockRow). b.height < next_height c) bs
AtTip-below none [] h t = tt
AtTip-below (some c) [] h t = tt
AtTip-below none (b ∷ bs) h t = absurd t
AtTip-below (some c) (b ∷ bs) h (e, _) =
    let (first, rest) = IsChainFrom-le b bs h in
    (omega arith, All-map _ _ (λ d k. omega arith) bs rest)
