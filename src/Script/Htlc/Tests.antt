-- ===== src/Script/Htlc/Tests.antt =====
-- Tests of redeemScriptIsHtlc, and its theorem at a concrete input.
use grc_explorer.Common.{ℕ, ◌≡◌, refl, ◌↔◌, true, some, List}
use grc_explorer.Common.Hex.{codes, from_hex}
use grc_explorer.Script.{tokenize, tokenize_from, next_token}
use grc_explorer.Script.Htlc.{
  redeem_script_is_htlc, sig_tokens_are_htlc, last_is_htlc, redeem_tokens_are_htlc, last_token,
  opcodes, has, has_htlc_shape, has_timelock, has_hashlock, has_branch, Redeems,
  redeem_script_is_htlc_iff,
}

-- OP_IF OP_SHA256 OP_EQUALVERIFY OP_ELSE OP_CHECKLOCKTIMEVERIFY OP_ENDIF, pushed.
abbrev htlc_hex : List ℕ
htlc_hex = codes "0663a88867b168"

htlc_is_flagged : redeem_script_is_htlc (some htlc_hex) ≡ true
unfolding redeem_script_is_htlc sig_tokens_are_htlc last_is_htlc redeem_tokens_are_htlc last_token
    opcodes has has_htlc_shape has_timelock has_hashlock has_branch tokenize tokenize_from
    next_token from_hex
htlc_is_flagged = refl

-- OP_CHECKLOCKTIMEVERIFY OP_HASH160 OP_EQUAL OP_IF OP_ENDIF, pushed: an empty branch behind it all.
abbrev outside_hex : List ℕ
outside_hex = codes "05b1a9876368"

outside_is_flagged : redeem_script_is_htlc (some outside_hex) ≡ true
unfolding redeem_script_is_htlc sig_tokens_are_htlc last_is_htlc redeem_tokens_are_htlc last_token
    opcodes has has_htlc_shape has_timelock has_hashlock has_branch tokenize tokenize_from
    next_token from_hex
outside_is_flagged = refl

redeem_script_is_htlc_iff_example :
    (redeem_script_is_htlc (some htlc_hex) ≡ true) ↔ Redeems (from_hex htlc_hex)
redeem_script_is_htlc_iff_example = redeem_script_is_htlc_iff htlc_hex
