-- ===== src/Address/Tests.antt =====
-- Tests of address.ts, and the theorems at concrete inputs.
use grc_explorer.Common.{
  ℕ, zero, suc, ◌≡◌, refl, true, some, List, [], ◌∷◌, ◌<◌, length, replicate, All, arith,
}
use grc_explorer.Common.Hex.{codes, from_hex}
use grc_explorer.Address.{
  mainnet, base58_encode, base58_bytes, address_of_key, pubkey_to_address, is_valid_address, is_hex,
  digits, value_from, count_leading, base58_char,
}
use grc_explorer.Address.Base58.{base58_bytes-encode}
use grc_explorer.Address.Validity.{GivesBytes, pubkey_to_address-valid}

encodes_bytes : base58_encode (0 ∷ 1 ∷ 0 ∷ []) ≡ codes "15R"
unfolding base58_encode digits value_from count_leading base58_char
encodes_bytes = refl

base58_bytes-encode_example : base58_bytes (base58_encode (0 ∷ 1 ∷ 0 ∷ [])) ≡ some (0 ∷ 1 ∷ 0 ∷ [])
base58_bytes-encode_example =
    base58_bytes-encode (0 ∷ 1 ∷ 0 ∷ []) (omega arith, (omega arith, (omega arith, tt)))

-- Hash functions that give the same bytes for everything.
abbrev constant : ℕ → List ℕ → List ℕ
constant n x = replicate n 7

constant_long : (n : ℕ) → length (constant n []) ≡ n
constant_long zero = refl
constant_long (suc n) = omega (arith, constant_long n)

constant_small : (n : ℕ) → All (λ b. b < 256) (constant n [])
constant_small zero = tt
constant_small (suc n) = (omega arith, constant_small n)

constant-GivesBytes : (n : ℕ) → GivesBytes n (constant n)
constant-GivesBytes n = record { long = λ x. constant_long n; bytes = λ x. constant_small n }

abbrev key_hex : List ℕ
key_hex = codes "020102030405060708090a0b0c0d0e0f101112131415161718191a1b1c1d1e1f20"

derived :
    pubkey_to_address (constant 32) (constant 20) key_hex mainnet
    ≡ some (address_of_key (constant 32) (constant 20) (from_hex key_hex) mainnet)
unfolding pubkey_to_address is_hex from_hex address_of_key
derived = refl

pubkey_to_address-valid_example :
    is_valid_address
      (constant 32)
      (constant 20)
      (address_of_key (constant 32) (constant 20) (from_hex key_hex) mainnet)
      mainnet
    ≡ true
pubkey_to_address-valid_example =
    pubkey_to_address-valid (constant 32) (constant 20) (constant-GivesBytes 32)
      (constant-GivesBytes 20) key_hex mainnet
      (address_of_key (constant 32) (constant 20) (from_hex key_hex) mainnet) derived
