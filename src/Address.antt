-- ===== src/Address.antt =====
-- packages/grc-explorer/src/lib/address.ts: addresses from public keys, and their check. A text is the
-- list of its character codes, and the two hash functions of node:crypto are parameters.
pub mod Digits
pub mod Base58
pub mod Validity
mod Tests
use grc_explorer.Common.{
  ℕ, zero, suc, ◌+◌, ◌*◌, ◌/◌, ◌%◌, Bool, true, false, not, ◌&&◌, ◌||◌, Option, none, some, List,
  [], ◌∷◌, ◌++◌, map, reverse, leb, ◌==◌, if◌then◌else◌, length, take, drop, get_elem?, replicate,
  all,
}
use grc_explorer.Common.Hex.{codes, from_hex, hex_value}

pub data Network : Type 0 where
  mainnet testnet : Network

abbrev pub pubkey_version_byte : Network → ℕ
pubkey_version_byte mainnet = 62
pubkey_version_byte testnet = 111

abbrev pub script_version_byte : Network → ℕ
script_version_byte mainnet = 85
script_version_byte testnet = 196

abbrev pub base58_alphabet : List ℕ
base58_alphabet = codes "123456789ABCDEFGHJKLMNPQRSTUVWXYZabcdefghijkmnopqrstuvwxyz"

-- `BASE58_ALPHABET[r]`
unfoldable pub base58_char : ℕ → ℕ
base58_char r = elim (get_elem? base58_alphabet r) [ none ↦ 0 | some c ↦ c ]

-- The position of a character from `i` on.
unfoldable pub position_from : ℕ → List ℕ → ℕ → Option ℕ
position_from i [] c = none
position_from i (x ∷ xs) c =
    let later = position_from (i + 1) xs c in if x == c then some i else later

-- `BASE58_INDEX.get(c)`
unfoldable pub base58_index : ℕ → Option ℕ
base58_index c = position_from 0 base58_alphabet c

-- How many elements at the front are the given one.
unfoldable pub count_leading : ℕ → List ℕ → ℕ
count_leading x [] = 0
count_leading x (y ∷ ys) = let rest = count_leading x ys in if y == x then rest + 1 else 0

-- The loop of repeated division, with fuel: the digits, lowest first.
unfoldable pub digits : ℕ → ℕ → ℕ → List ℕ
digits base zero n = []
digits base (suc fuel) n =
    let rest = digits base fuel (n / base) in if n == 0 then [] else (n % base) ∷ rest

-- `n = (n << 8n) | BigInt(b)` over the bytes, which for a byte is `n * 256 + b`.
unfoldable pub value_from : ℕ → ℕ → List ℕ → ℕ
value_from base n [] = n
value_from base n (b ∷ bs) = value_from base (n * base + b) bs

-- A number has at most as many digits as it is big, so it is its own fuel.
unfoldable pub base58_encode : List ℕ → List ℕ
base58_encode bytes =
    let n = value_from 256 0 bytes in
    reverse (map base58_char (digits 58 n n) ++ replicate (count_leading 0 bytes) b'1')

-- The loop over the characters; `null` at one that is not in the alphabet.
unfoldable pub index_value : ℕ → List ℕ → Option ℕ
index_value n [] = some n
index_value n (c ∷ cs) = elim (base58_index c) [
  | none ↦ none
  | some i ↦ index_value (n * 58 + i) cs
]

-- The bytes that a text stands for, before their number and checksum are looked at.
unfoldable pub base58_bytes : List ℕ → Option (List ℕ)
base58_bytes s =
    let zeros = count_leading b'1' s in
    elim (index_value 0 (drop zeros s)) [
      | none ↦ none
      | some n ↦ some (reverse (digits 256 n n ++ replicate zeros 0))
    ]

abbrev pub list_eq : List ℕ → List ℕ → Bool
list_eq [] [] = true
list_eq (x ∷ xs) (y ∷ ys) = x == y && list_eq xs ys
list_eq _ _ = false

-- `/^[0-9a-fA-F]+$/`
unfoldable pub is_hex : List ℕ → Bool
is_hex cs =
    not (length cs == 0) && all (λ c. elim (hex_value c) [ none ↦ false | some d ↦ true ]) cs

pub record Decoded : Type 0 where
  pub version : ℕ
  pub hash160 : List ℕ

-- `payload[0]` and `payload.subarray(1)`
unfoldable pub decoded : List ℕ → Option Decoded
decoded [] = none
decoded (v ∷ hash) = some (record { version = v; hash160 = hash })

module _ (sha256 : List ℕ → List ℕ) (ripemd160 : List ℕ → List ℕ) where
  unfoldable pub checksum : List ℕ → List ℕ
  checksum payload = take 4 (sha256 (sha256 payload))

  unfoldable pub address_of_key : List ℕ → Network → List ℕ
  address_of_key pubkey network =
      let versioned = pubkey_version_byte network ∷ ripemd160 (sha256 pubkey) in
      base58_encode (versioned ++ checksum versioned)

  unfoldable pub pubkey_to_address : List ℕ → Network → Option (List ℕ)
  pubkey_to_address pubkey_hex network =
      if is_hex pubkey_hex && (length pubkey_hex == 66 || length pubkey_hex == 130)
      then some (address_of_key (from_hex pubkey_hex) network)
      else none

  unfoldable pub check_bytes : Option (List ℕ) → Option Decoded
  check_bytes none = none
  check_bytes (some buf) =
      if length buf == 25 && list_eq (drop 21 buf) (checksum (take 21 buf))
      then decoded (take 21 buf)
      else none

  unfoldable pub base58_check_decode : List ℕ → Option Decoded
  base58_check_decode s = if length s == 0 then none else check_bytes (base58_bytes s)

  unfoldable pub is_valid_address : List ℕ → Network → Bool
  is_valid_address s network = elim (base58_check_decode s) [
    | none ↦ false
    | some d ↦ d.version == pubkey_version_byte network || d.version == script_version_byte network
  ]
