-- ===== src/Script/Disassembly/Tests.antt =====
-- Tests of disassembleScript, and its theorems at concrete inputs.
use grc_explorer.Common.{◌≡◌, refl, none, some, List, [], ◌∷◌, ◌++◌, map}
use grc_explorer.Common.Hex.{codes, from_hex}
use grc_explorer.Script.{Token, op, bytes, tokenize, tokenize_from, next_token}
use grc_explorer.Script.Cut.{CutAfter}
use grc_explorer.Script.Disassembly.{
  Text, disassemble_script, texts_from, texts_step, op_text, name_in, join, token_text, error_mark,
  disassemble_script-tokenize, disassemble_script-CutAfter,
}

abbrev good_hex : Text
good_hex = codes "4c02070893"

good_tokens : tokenize (from_hex good_hex) ≡ some (bytes (7 ∷ 8 ∷ []) ∷ op 0x93 ∷ [])
unfolding tokenize tokenize_from next_token from_hex
good_tokens = refl

disassemble_script-tokenize_example :
    disassemble_script good_hex ≡ join (map token_text (bytes (7 ∷ 8 ∷ []) ∷ op 0x93 ∷ []))
disassemble_script-tokenize_example =
    disassemble_script-tokenize good_hex (bytes (7 ∷ 8 ∷ []) ∷ op 0x93 ∷ []) good_tokens

abbrev cut_hex : Text
cut_hex = codes "76030708"

cut_hex_tokens : tokenize (from_hex cut_hex) ≡ none
unfolding tokenize tokenize_from next_token from_hex
cut_hex_tokens = refl

cut_text : disassemble_script cut_hex ≡ codes "OP_DUP [error]"
unfolding disassemble_script texts_from texts_step op_text name_in join from_hex
cut_text = refl

disassemble_script-CutAfter_example :
    (ts : List Token) × CutAfter (from_hex cut_hex) ts
    × (disassemble_script cut_hex ≡ join (map token_text ts ++ error_mark ∷ []))
disassemble_script-CutAfter_example = disassemble_script-CutAfter cut_hex cut_hex_tokens
