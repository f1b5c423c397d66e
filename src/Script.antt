-- ===== src/Script.antt =====
-- packages/grc-explorer/src/lib/htlc.ts and lib/scriptAsm.ts: scripts as lists of bytes. A position
-- `i` in a buffer is the list of the bytes from there on, so `i + n > buf.length` is a test of the
-- length of that list.
pub mod Encoding
pub mod Cut
pub mod Htlc
pub mod OpNames
pub mod Disassembly
mod Tests
use grc_explorer.Common.{
  ℕ, zero, suc, ◌+◌, ◌*◌, Bool, true, false, ◌&&◌, ◌||◌, Option, none, some, List, [], ◌∷◌, ltb,
  leb, ◌==◌, if◌then◌else◌, length, take, drop,
}
use grc_explorer.Common.Hex.{from_hex}

-- `{ op } | { data }`
pub data Token : Type 0 where
  op : ℕ → Token
  bytes : List ℕ → Token

-- A push of the next `n` bytes, where there are that many: the token and the bytes after it.
abbrev pub push : ℕ → List ℕ → Option (Token × List ℕ)
push n rest = if ltb (length rest) n then none else some (bytes (take n rest), drop n rest)

abbrev pub push_data1 : List ℕ → Option (Token × List ℕ)
push_data1 [] = none
push_data1 (n ∷ rest) = push n rest

-- `readUInt16LE`
abbrev pub push_data2 : List ℕ → Option (Token × List ℕ)
push_data2 (a ∷ b ∷ rest) = push (a + 256 * b) rest
push_data2 _ = none

-- `readUInt32LE`
abbrev pub push_data4 : List ℕ → Option (Token × List ℕ)
push_data4 (a ∷ b ∷ c ∷ d ∷ rest) = push (a + 256 * b + 65536 * c + 16777216 * d) rest
push_data4 _ = none

-- The body of the loop: the token that begins with the byte `o`, and the bytes after it.
pub next_token : ℕ → List ℕ → Option (Token × List ℕ)
next_token o rest =
    if leb 0x01 o && leb o 0x4b
    then push o rest
    else if o == 0x4c
    then push_data1 rest
    else if o == 0x4d
    then push_data2 rest
    else if o == 0x4e
    then push_data4 rest
    else some (op o, rest)

-- The loop of `tokenize`, with fuel; `null` is `none`.
pub tokenize_from : ℕ → List ℕ → Option (List Token)
tokenize_from fuel [] = some []
tokenize_from zero (o ∷ rest) = none
tokenize_from (suc fuel) (o ∷ rest) = elim (next_token o rest) [
  | none ↦ none
  | some (t, later) ↦ elim (tokenize_from fuel later) [ none ↦ none | some ts ↦ some (t ∷ ts) ]
]

-- Each round uses up a byte, so the length is fuel enough.
pub tokenize : List ℕ → Option (List Token)
tokenize buf = tokenize_from (length buf) buf
