-- ===== src/Script/Tests.antt =====
-- Tests of the tokenizer of htlc.ts, and its theorem at a concrete input.
use grc_explorer.Common.{ℕ, ◌≡◌, refl, ◌↔◌, none, some, List, [], ◌∷◌}
use grc_explorer.Script.{op, bytes, tokenize, tokenize_from, next_token}
use grc_explorer.Script.Encoding.{Encodes, tokenize_iff}

-- A push of two bytes behind PUSHDATA1, then OP_ADD.
abbrev small : List ℕ
small = 0x4c ∷ 2 ∷ 7 ∷ 8 ∷ 0x93 ∷ []

small_tokens : tokenize small ≡ some (bytes (7 ∷ 8 ∷ []) ∷ op 0x93 ∷ [])
unfolding tokenize tokenize_from next_token
small_tokens = refl

cut_short : tokenize (3 ∷ 7 ∷ 8 ∷ []) ≡ none
unfolding tokenize tokenize_from next_token
cut_short = refl

tokenize_iff_example :
    (tokenize small ≡ some (bytes (7 ∷ 8 ∷ []) ∷ op 0x93 ∷ []))
    ↔ Encodes small (bytes (7 ∷ 8 ∷ []) ∷ op 0x93 ∷ [])
tokenize_iff_example = tokenize_iff small (bytes (7 ∷ 8 ∷ []) ∷ op 0x93 ∷ [])
