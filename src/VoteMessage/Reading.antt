-- ===== src/VoteMessage/Reading.antt =====
-- The message of lib/voteClaim.ts can be read back: what is signed fixes the responses.
use mathlib.Core.List.{reverse-cons}
use grc_explorer.Common.{
  ℕ, ◌+◌, ◌*◌, ◌/◌, ◌%◌, ◌<◌, ◌≡◌, refl, ap, ◌∙◌, subst, Option, none, some, List, [], ◌∷◌, ◌++◌,
  map, reverse, true, ltb, leb, ◌==◌, if◌then◌else◌, length, take, drop, take-append, drop-append,
  length-append, All, arith, Bool-cases, inl, inr,
}
use grc_explorer.Common.Hex.{from_hex}
use grc_explorer.VoteMessage.{
  Outpoint, VoteMessageInput, serialize_outpoint, uint32_le, compact_size, serialize_outpoints,
  pack_vote_message,
}

-- A reader of Bitcoin's CompactSize: the number, and the bytes behind it.
unfoldable pub read_size : List ℕ → Option (ℕ × List ℕ)
read_size [] = none
read_size (a ∷ rest) =
    if ltb a 0xfd
    then some (a, rest)
    else if a == 0xfd
    then read_2 rest
    else if a == 0xfe
    then read_4 rest
    else none
  where
    read_2 : List ℕ → Option (ℕ × List ℕ)
    read_2 (b ∷ c ∷ more) = some (b + 256 * c, more)
    read_2 _ = none

    read_4 : List ℕ → Option (ℕ × List ℕ)
    read_4 (b ∷ c ∷ d ∷ e ∷ more) = some (b + 256 * c + 65536 * d + 16777216 * e, more)
    read_4 _ = none

-- A reader of the responses: behind a hash of 32 bytes, as many bytes as the size says.
unfoldable pub read_responses : List ℕ → Option (List ℕ)
read_responses message = elim (read_size (drop 32 message)) [
  | none ↦ none
  | some (n, rest) ↦ some (take n rest)
]

-- The four bytes of a number.
abbrev word : ℕ → List ℕ
word n = n % 256 ∷ (n / 256) % 256 ∷ (n / 65536) % 256 ∷ (n / 16777216) % 256 ∷ []

uint32_le-some : (n : ℕ) → n < 4294967296 → uint32_le n ≡ some (word n)
unfolding uint32_le
uint32_le-some n h = let b : ltb n 4294967296 ≡ true = ground arith in rw b

-- A size is written, and is read whatever follows it.
compact_size-read_size :
    (n : ℕ)
    → n < 4294967296
    → (size : List ℕ) × (compact_size n ≡ some size)
      × ((rest : List ℕ) → read_size (size ++ rest) ≡ some (n, rest))
unfolding read_size compact_size
compact_size-read_size n h = elim (Bool-cases (ltb n 0xfd)) [
  | inl small ↦ (n ∷ [], rw small, λ rest. rw small)
  | inr large ↦ elim (Bool-cases (leb n 0xffff)) [
    | inl two ↦
        let e : n % 256 + 256 * (n / 256) ≡ n = omega arith in
        (0xfd ∷ n % 256 ∷ n / 256 ∷ [], rw (large, two), λ rest. ap (λ k. some (k, rest)) e)
    | inr four ↦
        let e : n % 256
              + 256 * (n / 256 % 256)
              + 65536 * (n / 65536 % 256)
              + 16777216 * (n / 16777216 % 256)
            ≡ n =
          omega arith in
        (0xfe ∷ word n, rw (large, four, uint32_le-some n h), λ rest. ap (λ k. some (k, rest)) e)
  ]
]

serialize_outpoints-some :
    (os : List Outpoint)
    → All (λ (o : Outpoint). o.n < 4294967296) os
    → (b : List ℕ) × (serialize_outpoints os ≡ some b)
unfolding serialize_outpoints serialize_outpoint
serialize_outpoints-some [] h = ([], refl)
serialize_outpoints-some (o ∷ os) (h, hs) =
    let (bs, e) = serialize_outpoints-some os hs in
    ((reverse (from_hex o.txid) ++ word o.n) ++ bs, rw (uint32_le-some o.n h, e))

length-reverse : (xs : List ℕ) → length (reverse xs) ≡ length xs
length-reverse [] = refl
length-reverse (x ∷ xs) =
    ap length (reverse-cons x xs)
    ∙ length-append (reverse xs) (x ∷ [])
    ∙ omega (arith, length-reverse xs)

bytes_kept : (rs : List ℕ) → All (λ r. r < 256) rs → map (λ r. r % 256) rs ≡ rs
bytes_kept [] h = refl
bytes_kept (r ∷ rs) (lt, h) = let e : r % 256 ≡ r = omega arith in rw (e, bytes_kept rs h)

read_responses-some :
    (message : List ℕ) (n : ℕ) (rest : List ℕ)
    → read_size (drop 32 message) ≡ some (n, rest)
    → read_responses message ≡ some (take n rest)
unfolding read_responses
read_responses-some message n rest h =
    let f : Option (ℕ × List ℕ) → Option (List ℕ) =
      λ o. elim o [ none ↦ none | some (k, r) ↦ some (take k r) ] in
    ap f h

-- A vote with a poll hash of 32 bytes, fewer than 2^32 responses, each below 256, and a time and
-- outpoint indices below 2^32 is packed without an error, and the responses can be read back from
-- the message. So two such votes with the same message have the same responses.
pub pack_vote_message-responses :
    (m : VoteMessageInput)
    → length (from_hex m.poll_txid) ≡ 32
    → length m.responses < 4294967296
    → All (λ r. r < 256) m.responses
    → m.n_time < 4294967296
    → All (λ (o : Outpoint). o.n < 4294967296) m.prevouts
    → (message : List ℕ) × (pack_vote_message m ≡ some message)
      × (read_responses message ≡ some m.responses)
unfolding pack_vote_message
pack_vote_message-responses m n small bytes time outs =
    let (size, es, reads) = compact_size-read_size (length m.responses) small in
    let (outpoints, eo) = serialize_outpoints-some m.prevouts outs in
    let hash = reverse (from_hex m.poll_txid) in
    let t = m.n_time in
    let tail = word t ++ outpoints in
    let message = hash ++ (size ++ (m.responses ++ tail)) in
    let k : length hash ≡ 32 = length-reverse (from_hex m.poll_txid) ∙ n in
    let front : drop 32 message ≡ size ++ (m.responses ++ tail) =
      subst (λ i. drop i message ≡ size ++ (m.responses ++ tail)) k (drop-append hash _) in
    (
      message,
      rw (es, uint32_le-some t time, eo, bytes_kept m.responses bytes),
      read_responses-some message (length m.responses) (m.responses ++ tail)
            (ap read_size front ∙ reads (m.responses ++ tail))
          ∙ ap some (take-append m.responses tail),
    )
