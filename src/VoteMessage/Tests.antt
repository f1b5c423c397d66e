-- ===== src/VoteMessage/Tests.antt =====
-- Tests of packVoteMessage, and its theorem at a concrete input.
use grc_explorer.Common.{ℕ, ◌≡◌, refl, none, some, List, [], ◌∷◌, replicate, arith}
use grc_explorer.Common.Hex.{from_hex}
use grc_explorer.VoteMessage.{VoteMessageInput, pack_vote_message, compact_size, uint32_le}
use grc_explorer.VoteMessage.Reading.{read_responses, pack_vote_message-responses}

abbrev vote : VoteMessageInput
vote = record {
  poll_txid = replicate 64 b'a';
  responses = 0 ∷ 3 ∷ [];
  n_time = 1600000000;
  prevouts = record { txid = replicate 64 b'b'; n = 1 } ∷ [];
}

pack_vote_message-responses_example :
    (message : List ℕ) × (pack_vote_message vote ≡ some message)
    × (read_responses message ≡ some (0 ∷ 3 ∷ []))
pack_vote_message-responses_example =
    pack_vote_message-responses vote (unfold from_hex in refl) (omega arith)
      (omega arith, (omega arith, tt)) (omega arith) (omega arith, tt)

-- A time of 2^32 is refused.
late_time : pack_vote_message (record vote { n_time = 4294967296 }) ≡ none
unfolding pack_vote_message compact_size uint32_le
late_time = refl
