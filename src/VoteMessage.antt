-- ===== src/VoteMessage.antt =====
-- packages/grc-explorer/src/lib/voteClaim.ts: the bytes that the claims of a vote sign
-- (`packVoteMessage`). A hash is the text of its hexadecimal digits, as the list of their codes.
pub mod Reading
mod Tests
use grc_explorer.Common.{
  ℕ, ◌+◌, ◌*◌, ◌/◌, ◌%◌, Bool, Option, none, some, List, [], ◌∷◌, ◌++◌, map, reverse, ltb, leb,
  if◌then◌else◌, length,
}
use grc_explorer.Common.Hex.{from_hex}

pub record Outpoint : Type 0 where
  pub txid : List ℕ
  pub n : ℕ

pub record VoteMessageInput : Type 0 where
  pub poll_txid : List ℕ
  pub responses : List ℕ
  pub n_time : ℕ
  pub prevouts : List Outpoint

-- The rest is computed where nothing is thrown.
abbrev pub and_then {ℓ κ} : {A : Type ℓ} {B : Type κ} → Option A → (A → Option B) → Option B
and_then none f = none
and_then (some x) f = f x

-- `writeUInt32LE`, which throws for a number of 2^32 or more.
unfoldable pub uint32_le : ℕ → Option (List ℕ)
uint32_le n =
    if ltb n 4294967296
    then some (n % 256 ∷ (n / 256) % 256 ∷ (n / 65536) % 256 ∷ (n / 16777216) % 256 ∷ [])
    else none

unfoldable pub compact_size : ℕ → Option (List ℕ)
unfolding uint32_le
compact_size n =
    if ltb n 0xfd
    then some (n ∷ [])
    else if leb n 0xffff
    then some (0xfd ∷ n % 256 ∷ n / 256 ∷ [])
    else and_then (uint32_le n) (λ b. some (0xfe ∷ b))

unfoldable pub serialize_outpoint : Outpoint → Option (List ℕ)
unfolding uint32_le
serialize_outpoint o = and_then (uint32_le o.n) (λ n. some (reverse (from_hex o.txid) ++ n))

unfoldable pub serialize_outpoints : List Outpoint → Option (List ℕ)
unfolding serialize_outpoint
serialize_outpoints [] = some []
serialize_outpoints (o ∷ os) =
    and_then (serialize_outpoint o) (λ b. and_then (serialize_outpoints os) (λ bs. some (b ++ bs)))

-- `Buffer.from` keeps the low byte of each response.
unfoldable pub pack_vote_message : VoteMessageInput → Option (List ℕ)
unfolding compact_size uint32_le serialize_outpoints
pack_vote_message m = and_then (compact_size (length m.responses)) (λ size.
    and_then (uint32_le m.n_time) (λ time. and_then (serialize_outpoints m.prevouts) (λ outpoints.
      some (
        reverse (from_hex m.poll_txid)
        ++ (size ++ (map (λ r. r % 256) m.responses ++ (time ++ outpoints)))))))
