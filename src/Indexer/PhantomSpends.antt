-- ===== src/Indexer/PhantomSpends.antt =====
-- packages/grc-explorer/src/services/indexer/PhantomSpendDetector.ts. The key `prevTx:prevVout` is the pair;
-- a `Map` is the list of its entries, keyed by address. The stored rows of `tx_inputs` are a list.
pub mod Claims
pub mod Credits
pub mod Outline
pub mod Spenders
pub mod Claimed
pub mod Replay
mod Tests
use grc_explorer.Common.{
  ℕ, Bool, true, false, not, ◌&&◌, ◌||◌, Option, none, some, List, [], ◌∷◌, String, str_eq, ◌==◌,
  if◌then◌else◌,
}
pub use grc_explorer.Parsed.{TxInput, AddressDelta, ParsedBlock}
use grc_explorer.Common.Int.{ℤ, pos, ◌+ℤ◌, ◌-ℤ◌, ltb_ℤ, leb_ℤ}

abbrev pub Key : Type 0
Key = String × ℕ

abbrev pub key_of : TxInput → Key
key_of i = (i.prev_tx, i.prev_vout)

abbrev pub key_eq : Key → Key → Bool
key_eq (t, n) (u, m) = str_eq t u && n == m

-- `claimedInBatch.has(key)`
unfoldable pub has_key : List Key → Key → Bool
has_key [] k = false
has_key (x ∷ xs) k = key_eq x k || has_key xs k

-- `claimedBy.get(key)`: the last stored row for the outpoint that is no phantom.
pub claimed_by : List TxInput → Key → Option TxInput
claimed_by [] k = none
claimed_by (r ∷ rs) k = elim (claimed_by rs k) [
  | some later ↦ some later
  | none ↦ if not r.is_phantom_spend && key_eq (key_of r) k then some r else none
]

abbrev pub is_other : Option TxInput → TxInput → Bool
is_other none i = false
is_other (some r) i = not (str_eq r.tx_id i.tx_id && r.vin_n == i.vin_n)

pub is_phantom : List TxInput → List Key → TxInput → Bool
unfolding claimed_by has_key
is_phantom stored claimed i =
    is_other (claimed_by stored (key_of i)) i || has_key claimed (key_of i)

-- The credit of an entry that was found.
pub credit_entry : ℤ → AddressDelta → AddressDelta
credit_entry value e = record e {
  delta = e.delta +ℤ value;
  sent = if leb_ℤ value e.sent then e.sent -ℤ value else pos 0;
}

-- `addressDeltas.get(address)`, and its credit.
pub credit_at : String → ℤ → List AddressDelta → List AddressDelta
unfolding credit_entry
credit_at a value [] = []
credit_at a value (e ∷ es) =
    if str_eq e.address a then credit_entry value e ∷ es else e ∷ credit_at a value es

-- `inp.value ?? 0n`
abbrev pub value_of : TxInput → ℤ
value_of i = elim i.value [ none ↦ pos 0 | some v ↦ v ]

pub credit : TxInput → List AddressDelta → List AddressDelta
unfolding credit_at
credit i es = elim i.address [
  | none ↦ es
  | some a ↦
      if not (str_eq a "") && ltb_ℤ (pos 0) (value_of i) then credit_at a (value_of i) es else es
]

-- The inputs of a block in order: the inputs, the deltas and the claimed keys afterwards. An input
-- without a previous transaction is passed over.
pub mark_inputs :
    List TxInput
    → List TxInput
    → List AddressDelta
    → List Key
    → List TxInput × List AddressDelta × List Key
unfolding is_phantom credit
mark_inputs stored [] es claimed = ([], es, claimed)
mark_inputs stored (i ∷ is) es claimed =
    let skip = str_eq i.prev_tx "" in
    let phantom = not skip && is_phantom stored claimed i in
    let i' = if phantom then record i { is_phantom_spend = true } else i in
    let es' = if phantom then credit i es else es in
    let claimed' = if skip || phantom then claimed else key_of i ∷ claimed in
    let (is', es'', claimed'') = mark_inputs stored is es' claimed' in (i' ∷ is', es'', claimed'')

-- The blocks in order, from the keys that are claimed so far.
pub mark_blocks : List TxInput → List ParsedBlock → List Key → List ParsedBlock
mark_blocks stored [] claimed = []
mark_blocks stored (b ∷ bs) claimed =
    let (inputs, deltas, claimed') = mark_inputs stored b.tx_inputs b.address_deltas claimed in
    record b { tx_inputs = inputs; address_deltas = deltas } ∷ mark_blocks stored bs claimed'

pub mark_phantom_spends : List TxInput → List ParsedBlock → List ParsedBlock
unfolding mark_blocks
mark_phantom_spends stored blocks = mark_blocks stored blocks []
