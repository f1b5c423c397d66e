-- ===== src/Address/Validity.antt =====
-- What lib/address.ts derives passes its own check.
use grc_explorer.Common.{
  ℕ, zero, suc, ◌<◌, ◌≡◌, refl, ap, subst, true, false, ◌&&◌, ◌||◌, Option, some, List, [], ◌∷◌,
  ◌++◌, ◌==◌, length, take, drop, length-append, length-take, take-append, drop-append, All,
  All-append, arith, Bool-cases, inl, inr, none-ne-some,
}
use grc_explorer.Common.Hex.{from_hex}
use grc_explorer.Address.{
  Network, mainnet, testnet, pubkey_version_byte, base58_encode, base58_bytes, list_eq, decoded,
  checksum, address_of_key, pubkey_to_address, check_bytes, base58_check_decode, is_valid_address,
  is_hex, count_leading, index_value, digits,
}
use grc_explorer.Address.Base58.{base58_bytes-encode}

-- A function that gives a fixed number of bytes.
pub record GivesBytes (count : ℕ) (f : List ℕ → List ℕ) : Type 0 where
  pub long : (x : List ℕ) → length (f x) ≡ count
  pub bytes : (x : List ℕ) → All (λ b. b < 256) (f x)

list_eq_self : (xs : List ℕ) → list_eq xs xs ≡ true
list_eq_self [] = refl
list_eq_self (x ∷ xs) = ground (arith, list_eq_self xs)

All-take : (P : ℕ → Type 0) (n : ℕ) (xs : List ℕ) → All P xs → All P (take n xs)
All-take P zero xs h = tt
All-take P (suc n) [] h = tt
All-take P (suc n) (x ∷ xs) (h, hs) = (h, All-take P n xs hs)

module _ (sha256 : List ℕ → List ℕ) (ripemd160 : List ℕ → List ℕ) (s : GivesBytes 32 sha256)
    (r : GivesBytes 20 ripemd160) where
  checksum-long : (p : List ℕ) → length (checksum sha256 ripemd160 p) ≡ 4
  unfolding checksum
  checksum-long p = omega (arith, length-take 4 (sha256 (sha256 p)), s.long (sha256 p))

  check_bytes-decoded :
      (buf p : List ℕ)
      → length buf ≡ 25
      → take 21 buf ≡ p
      → drop 21 buf ≡ checksum sha256 ripemd160 p
      → check_bytes sha256 ripemd160 (some buf) ≡ decoded p
  unfolding check_bytes
  check_bytes-decoded buf p n t d = rw (t, d, n, list_eq_self (checksum sha256 ripemd160 p))

  versioned-decoded :
      (v : ℕ) (hash : List ℕ)
      → length hash ≡ 20
      → check_bytes sha256 ripemd160 (some ((v ∷ hash) ++ checksum sha256 ripemd160 (v ∷ hash)))
        ≡ some (record { version = v; hash160 = hash })
  unfolding decoded
  versioned-decoded v hash h =
      let sum = checksum sha256 ripemd160 (v ∷ hash) in
      let buf = (v ∷ hash) ++ sum in
      let n : length (v ∷ hash) ≡ 21 = omega arith in
      check_bytes-decoded buf (v ∷ hash)
        (omega (arith, length-append (v ∷ hash) sum, checksum-long (v ∷ hash)))
        (subst (λ k. take k buf ≡ v ∷ hash) n (take-append (v ∷ hash) sum))
        (subst (λ k. drop k buf ≡ sum) n (drop-append (v ∷ hash) sum))

  network_bytes : (network : Network) → pubkey_version_byte network < 256
  network_bytes mainnet = omega arith
  network_bytes testnet = omega arith

  not_empty :
      (a bytes : List ℕ) → base58_bytes a ≡ some bytes → 0 < length bytes → (length a == 0) ≡ false
  unfolding base58_bytes count_leading index_value digits
  not_empty [] bytes h pos =
      let e : bytes ≡ [] = cc in let n : length bytes ≡ 0 = ap length e in absurd (omega arith)
  not_empty (c ∷ cs) bytes h pos = ground arith

  address_of_key-decodes :
      (key : List ℕ) (network : Network)
      → base58_check_decode sha256 ripemd160 (address_of_key sha256 ripemd160 key network)
        ≡ some (record { version = pubkey_version_byte network; hash160 = ripemd160 (sha256 key) })
  unfolding base58_check_decode address_of_key checksum
  address_of_key-decodes key network =
      let v = pubkey_version_byte network in
      let hash = ripemd160 (sha256 key) in
      let sum = checksum sha256 ripemd160 (v ∷ hash) in
      let payload = (v ∷ hash) ++ sum in
      let small : All (λ b. b < 256) payload =
        All-append (λ b. b < 256) (v ∷ hash) sum (network_bytes network, r.bytes (sha256 key))
          (All-take (λ b. b < 256) 4 (sha256 (sha256 (v ∷ hash))) (s.bytes _)) in
      let read = base58_bytes-encode payload small in
      let long = not_empty (base58_encode payload) payload read (omega arith) in
      rw (long, read) (versioned-decoded v hash (r.long (sha256 key)))

  valid_of :
      (a : List ℕ) (network : Network) (hash : List ℕ)
      → base58_check_decode sha256 ripemd160 a
        ≡ some (record { version = pubkey_version_byte network; hash160 = hash })
      → is_valid_address sha256 ripemd160 a network ≡ true
  unfolding is_valid_address
  valid_of a network hash h = rw (h, is_valid_address) (ground arith)

  -- Where the hash functions give 32 and 20 bytes, every address that is derived from a public key
  -- passes the check of addresses for the same network.
  pub pubkey_to_address-valid :
      (pubkey_hex : List ℕ) (network : Network) (a : List ℕ)
      → pubkey_to_address sha256 ripemd160 pubkey_hex network ≡ some a
      → is_valid_address sha256 ripemd160 a network ≡ true
  unfolding pubkey_to_address
  pubkey_to_address-valid pubkey_hex network a h =
      let test = is_hex pubkey_hex && (length pubkey_hex == 66 || length pubkey_hex == 130) in
      elim (Bool-cases test) [
        | inl y ↦
            let made : ◌≡◌ {A = Option (List ℕ)}
                (some (address_of_key sha256 ripemd160 (from_hex pubkey_hex) network)) (some a) =
              rw y at h in
            let e : a ≡ address_of_key sha256 ripemd160 (from_hex pubkey_hex) network = cc in
            rw e (
              valid_of _ network (ripemd160 (sha256 (from_hex pubkey_hex)))
                (address_of_key-decodes (from_hex pubkey_hex) network))
        | inr n ↦ absurd (none-ne-some (rw n at h))
      ]
