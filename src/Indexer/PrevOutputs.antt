-- ===== src/Indexer/PrevOutputs.antt =====
-- packages/grc-explorer/src/services/indexer/prevOutputs.ts: where a spent output is looked up. A key
-- `txid:n` is the pair, and the stored rows of `tx_outputs` are a list. The conversion of an amount
-- (`grc2halford` of lib/halford.ts) is a parameter.
pub mod Lookup
mod Tests
use grc_explorer.Common.{
  ℕ, Bool, true, false, not, ◌&&◌, ◌||◌, Option, none, some, List, [], ◌∷◌, ◌++◌, map, String,
  str_eq, ◌==◌, if◌then◌else◌, keep,
}
use grc_explorer.Common.Int.{ℤ}
use grc_explorer.Indexer.PhantomSpends.{Key, key_eq, has_key}

pub record CacheEntry : Type 0 where
  pub address : Option String
  pub value : ℤ

pub record Vin : Type 0 where
  pub txid : Option String
  pub vout : Option ℕ
  pub coinbase : Option String

-- An output with its amount as the daemon gives it, and the addresses of its script.
pub record VoutLite (V : Type 0) : Type 0 where
  pub n : ℕ
  pub value : V
  pub addresses : List String

pub record TxLite (V : Type 0) : Type 0 where
  pub txid : String
  pub vin : List Vin
  pub vout : List (VoutLite V)

-- `ParsedTxOutputRow`, less the columns that are not read.
pub record PendingRow : Type 0 where
  pub tx_id : String
  pub vout_n : ℕ
  pub address : Option String
  pub value : ℤ

-- A row of `tx_outputs`; no address is the empty text.
pub record OutputRow : Type 0 where
  pub tx_id : String
  pub vout_n : ℕ
  pub address : String
  pub value : ℤ

-- A `Map` with its latest entry first.
abbrev pub Cache : Type 0
Cache = List (Key × CacheEntry)

unfoldable pub cache_get : Cache → Key → Option CacheEntry
cache_get [] k = none
cache_get ((x, e) ∷ c) k = let later = cache_get c k in if key_eq x k then some e else later

unfoldable pub cache_has : Cache → Key → Bool
cache_has c k = elim (cache_get c k) [ none ↦ false | some e ↦ true ]

-- `cache.set` for each of the entries in turn.
unfoldable pub set_all : List (Key × CacheEntry) → Cache → Cache
set_all [] c = c
set_all (e ∷ es) c = set_all es (e ∷ c)

-- The outpoint that an input names, if it is one.
unfoldable pub vin_ref : Vin → List Key
vin_ref v = elim v.coinbase [
  | some c ↦ []
  | none ↦ elim v.txid [ none ↦ [] | some t ↦ elim v.vout [ none ↦ [] | some n ↦ (t, n) ∷ [] ] ]
]

-- `refs`. (A repeated outpoint is listed again, which changes no lookup.)
unfoldable pub vin_refs : List Vin → List Key
vin_refs [] = []
vin_refs (v ∷ vs) = vin_ref v ++ vin_refs vs

unfoldable pub pending_entries : List PendingRow → List (Key × CacheEntry)
pending_entries [] = []
pending_entries (o ∷ os) =
    ((o.tx_id, o.vout_n), record { address = o.address; value = o.value }) ∷ pending_entries os

unfoldable pub stored_entries : List OutputRow → List (Key × CacheEntry)
stored_entries [] = []
stored_entries (r ∷ rs) =
    let address = if str_eq r.address "" then none else some r.address in
    ((r.tx_id, r.vout_n), record { address = address; value = r.value }) ∷ stored_entries rs

-- `wanted`: the references that the cache does not cover.
unfoldable pub is_wanted : List Key → Cache → Key → Bool
is_wanted refs c k = has_key refs k && not (cache_has c k)

module _ (V : Type 0) (halford : V → ℤ) where
  unfoldable pub tx_refs : List (TxLite V) → List Key
  tx_refs [] = []
  tx_refs (t ∷ ts) = vin_refs t.vin ++ tx_refs ts

  unfoldable pub vout_entries : String → List (VoutLite V) → List (Key × CacheEntry)
  vout_entries txid [] = []
  vout_entries txid (o ∷ os) =
      let address = elim o.addresses as (λ _. Option String) [ [] ↦ none | a ∷ rest ↦ some a ] in
      ((txid, o.n), record { address = address; value = halford o.value }) ∷ vout_entries txid os

  unfoldable pub tx_entries : List (TxLite V) → List (Key × CacheEntry)
  tx_entries [] = []
  tx_entries (t ∷ ts) = vout_entries t.txid t.vout ++ tx_entries ts

  unfoldable pub block_refs : List (List (TxLite V)) → List Key
  block_refs [] = []
  block_refs (b ∷ bs) = tx_refs b ++ block_refs bs

  unfoldable pub block_entries : List (List (TxLite V)) → List (Key × CacheEntry)
  block_entries [] = []
  block_entries (b ∷ bs) = tx_entries b ++ block_entries bs

  -- The pending rows, and over them the outputs of the batch.
  unfoldable pub batch_cache : List (List (TxLite V)) → List PendingRow → Cache
  batch_cache blocks pending = set_all (block_entries blocks) (set_all (pending_entries pending) [])

  -- `buildPrevOutputsLookupMulti`. The rows of other outputs of the same transactions that the query
  -- brings are passed over, so it is the rows of the wanted outpoints that are set.
  unfoldable pub build_prev_outputs_lookup_multi :
      List (List (TxLite V)) → List PendingRow → List OutputRow → Key → Option CacheEntry
  build_prev_outputs_lookup_multi blocks pending stored k =
      let c = batch_cache blocks pending in
      cache_get
        (set_all (keep (λ e. is_wanted (block_refs blocks) c e.0) (stored_entries stored)) c) k

  pub build_prev_outputs_lookup : List (TxLite V) → List OutputRow → Key → Option CacheEntry
  build_prev_outputs_lookup txs stored = build_prev_outputs_lookup_multi (txs ∷ []) [] stored
