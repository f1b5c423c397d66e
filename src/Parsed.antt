-- ===== src/Parsed.antt =====
-- The rows that packages/grc-explorer/src/services/indexer/ContractParser.ts derives from a block and
-- BlockWriter.ts stores, with the columns that the indexer reads again. A row of a table that is only
-- written is its height and its primary key. A `Map` keyed by address is the list of its entries.
use grc_explorer.Common.{
  ℕ, ◌≡◌, refl, sym, ap, ◌∙◌, Bool, true, false, ◌&&◌, ◌||◌, Option, none, some, List, String,
  str_eq, str_eq_iff, leb, ◌==◌, if◌then◌else◌, all, length, Bool-cases, inl, inr, false-ne-true,
}
use grc_explorer.Common.Int.{ℤ}
use grc_explorer.Common.Hex.{codes}

-- `ParsedBlockRow`
pub record BlockRow : Type 0 where
  pub height : ℕ
  pub hash : String
  pub prev_hash : String
  pub time : ℕ

pub record PollRow : Type 0 where
  pub poll_id : String
  pub block_height : ℕ

pub record PollOption : Type 0 where
  pub poll_id : String
  pub idx : ℕ

-- A row of any other chain table: the height that it is derived from, and its key.
pub record HeightRow : Type 0 where
  pub height : ℕ
  pub key : String

-- The chain tables of `CHAIN_HEIGHT_TABLES` other than `blocks`, `tx_inputs`, `address_txs`,
-- `address_balance_history` and `polls`.
pub data OtherTable : Type 0 where
  transactions tx_outputs tx_messages claims claim_mrcs : OtherTable
  superblocks superblock_magnitudes superblock_projects beacons votes : OtherTable
  vote_claim_addresses project_contracts protocol_entries mandatory_sidestakes : OtherTable
  coinstake_sidestakes mrc_requests : OtherTable

-- `ParsedTxInputRow`
pub record TxInput : Type 0 where
  pub tx_id : String
  pub vin_n : ℕ
  pub prev_tx : String
  pub prev_vout : ℕ
  pub address : Option String
  pub value : Option ℤ
  pub is_phantom_spend : Bool

-- `ParsedTxOutputRow`
pub record TxOutput : Type 0 where
  pub tx_id : String
  pub vout_n : ℕ
  pub value : ℤ
  pub address : Option String

-- `AddressDelta`; the set of transactions is a list without repetitions.
pub record AddressDelta : Type 0 where
  pub address : String
  pub delta : ℤ
  pub received : ℤ
  pub sent : ℤ
  pub tx_ids : List String

pub record ParsedBlock : Type 0 where
  pub block : BlockRow
  pub tx_outputs : List TxOutput
  pub tx_inputs : List TxInput
  pub address_deltas : List AddressDelta
  pub polls : List PollRow
  pub poll_options : List PollOption
  pub is_superblock : Bool
  pub other : OtherTable → List HeightRow

-- A block as the daemon reports it, less its transactions and contracts; `none` is `undefined`.
pub record VerboseBlock : Type 0 where
  pub height : ℕ
  pub hash : String
  pub previousblockhash : Option String
  pub time : ℕ

abbrev zero_hash_64 : String
zero_hash_64 = "0000000000000000000000000000000000000000000000000000000000000000"

-- `HEX_64_RE.test(s)`
unfoldable pub is_hex_64 : String → Bool
is_hex_64 s =
    all (λ c. (leb b'0' c && leb c b'9') || (leb b'a' c && leb c b'f')) (codes s)
    && length (codes s) == 64

-- The previous hash of a block above height 0.
pub checked_hash : Option String → String
unfolding is_hex_64
checked_hash none = zero_hash_64
checked_hash (some h) = if is_hex_64 h then h else zero_hash_64

pub resolve_prev_hash : VerboseBlock → String
unfolding checked_hash
resolve_prev_hash b = if b.height == 0 then zero_hash_64 else checked_hash b.previousblockhash

unfoldable pub build_block_row : VerboseBlock → BlockRow
unfolding resolve_prev_hash
build_block_row b = record {
  height = b.height;
  hash = b.hash;
  prev_hash = resolve_prev_hash b;
  time = b.time;
}

-- A text of 64 digits is not empty.
pub is_hex_64_ne : (h : String) → is_hex_64 h ≡ true → str_eq h "" ≡ false
unfolding is_hex_64
is_hex_64_ne h e = elim (Bool-cases (str_eq h "")) [
  | inr n ↦ n
  | inl y ↦ absurd (false-ne-true (sym empty ∙ sym (ap is_hex_64 ((str_eq_iff h "").0 y)) ∙ e))
]
  where
    empty : is_hex_64 "" ≡ false
    empty = refl

-- The previous hash of a later block is the one that it names, if that is one.
pub resolve_prev_hash-some :
    (b : VerboseBlock) (h : String)
    → (b.height == 0) ≡ false
    → b.previousblockhash ≡ some h
    → is_hex_64 h ≡ true
    → resolve_prev_hash b ≡ h
unfolding resolve_prev_hash checked_hash
resolve_prev_hash-some b h n p e =
    ap (λ c. if c then zero_hash_64 else checked_hash b.previousblockhash) n
    ∙ ap checked_hash p
    ∙ ap (λ c. if c then h else zero_hash_64) e
